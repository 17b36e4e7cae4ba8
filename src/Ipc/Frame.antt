-- ===== src/Ipc/Frame.antt =====
-- encode_frame and decode_frame of src/ipc/codec.cpp.
pub mod Header
pub mod RoundTrip
pub mod Outcome
use ht2mp.Prelude.{
  ℕ, ◌+◌, ◌%◌, ◌^◌, Bool, true, false, not, ◌&&◌, Option, none, some, List, [], ◌∷◌, ltb, leb, ◌==◌,
  if◌then◌else◌, length, take, drop,
}
use ht2mp.Protocol.Reader.{Reader, ◌>>=◌, pure}
use ht2mp.Ipc.Types.{
  FrameType, bridge_hello, bridge_ready, bridge_status, local_sample, spawn_remote, remote_sample,
  despawn_remote, set_observer_mode, enter_safe_mode, environment, frame_code, FrameHeader,
  frame_magic, ipc_version, max_payload_size, frame_header_size,
}
use ht2mp.Ipc.Payload.{
  CodecError, buffer_too_small, invalid_magic, unsupported_version, invalid_message_type,
  payload_too_large, truncated, trailing_bytes, Coded, ok, failed, PayloadWriter, put_u16, put_u32,
  put_bytes, all_of, get_u16, get_u32,
}

unfoldable pub valid_message_type : ℕ → Bool
valid_message_type value = leb (frame_code bridge_hello) value && leb value (frame_code environment)

-- The test of valid_message_type, and the cast of a valid number to the enum.
unfoldable pub frame_type : ℕ → Option FrameType
frame_type value =
    if value == 1
    then some bridge_hello
    else if value == 2
    then some bridge_ready
    else if value == 3
    then some bridge_status
    else if value == 4
    then some local_sample
    else if value == 5
    then some spawn_remote
    else if value == 6
    then some remote_sample
    else if value == 7
    then some despawn_remote
    else if value == 8
    then some set_observer_mode
    else if value == 9
    then some enter_safe_mode
    else if value == 10
    then some environment
    else none

unfoldable pub write_frame : ℕ → ℕ → List ℕ → PayloadWriter → Option PayloadWriter
write_frame raw_type sequence payload = all_of (
    put_u32 frame_magic
    ∷ put_u16 ipc_version
    ∷ put_u16 raw_type
    ∷ put_u32 (length payload % 2 ^ 32)
    ∷ put_u32 sequence
    ∷ put_bytes payload
    ∷ [])

-- The frame that the first encoded_size bytes of the output hold. The type comes as the number of
-- the enumeration, which need not be one of its names: the value-initialised type is 0.
unfoldable pub encode_frame : ℕ → ℕ → List ℕ → ℕ → Coded (List ℕ)
encode_frame raw_type sequence payload output_size =
    if not (valid_message_type raw_type)
    then failed invalid_message_type
    else if ltb max_payload_size (length payload)
    then failed payload_too_large
    else if ltb output_size (frame_header_size + length payload)
    then failed buffer_too_small
    else elim (write_frame raw_type sequence payload
        (record { capacity = output_size; bytes = [] })) [
          | none ↦ failed buffer_too_small
          | some w ↦ ok w.bytes
        ]

pub record RawHeader : Type 0 where
  pub magic : ℕ
  pub version : ℕ
  pub raw_type : ℕ
  pub payload_size : ℕ
  pub sequence : ℕ

unfoldable pub read_raw_header : Reader RawHeader
read_raw_header = do
  magic ← get_u32
  version ← get_u16
  raw_type ← get_u16
  payload_size ← get_u32
  sequence ← get_u32
  pure (record {
    magic = magic;
    version = version;
    raw_type = raw_type;
    payload_size = payload_size;
    sequence = sequence;
  })

-- The tests that follow the read of the header.
unfoldable pub check_frame : RawHeader → List ℕ → Coded (FrameHeader × List ℕ)
check_frame h frame =
    if not (h.magic == frame_magic)
    then failed invalid_magic
    else if not (h.version == ipc_version)
    then failed unsupported_version
    else elim (frame_type h.raw_type) [
      | none ↦ failed invalid_message_type
      | some type ↦
          if ltb max_payload_size h.payload_size
          then failed payload_too_large
          else if ltb (length frame) (frame_header_size + h.payload_size)
          then failed truncated
          else if not (length frame == frame_header_size + h.payload_size)
          then failed trailing_bytes
          else ok (
            record { type = type; payload_size = h.payload_size; sequence = h.sequence },
            take h.payload_size (drop frame_header_size frame),
          )
    ]

unfoldable pub decode_frame : List ℕ → Coded (FrameHeader × List ℕ)
decode_frame frame =
    if ltb (length frame) frame_header_size
    then failed truncated
    else elim (read_raw_header (take frame_header_size frame)) [
      | none ↦ failed truncated
      | some (h, rest) ↦ check_frame h frame
    ]
