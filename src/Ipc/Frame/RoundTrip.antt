-- ===== src/Ipc/Frame/RoundTrip.antt =====
-- A frame that is encoded is decoded, and only such a frame.
use ht2mp.Prelude.{
  ℕ, ◌+◌, ◌%◌, ◌^◌, ◌≤◌, ◌≡◌, refl, arith, List, [], ◌++◌, length, take, drop, length-append,
  append-nil, append_assoc, subst, Bool-cases, inl, inr, false, ltb, if◌then◌else◌,
}
use ht2mp.Protocol.Ranges.{IsU32}
use ht2mp.Protocol.Wire.Words.{raw_take, raw_drop}
use ht2mp.Ipc.Types.{
  FrameType, frame_code, frame_magic, ipc_version, max_payload_size, frame_header_size,
}
use ht2mp.Ipc.Payload.{ok, failed, payload_too_large, buffer_too_small, PayloadWriter}
use ht2mp.Ipc.Payload.Puts.{Puts, u16-Puts, u32-Puts, bytes-Puts, all_of-Puts, all_of-nil}
use ht2mp.Ipc.Frame.{write_frame, encode_frame, decode_frame, check_frame, read_raw_header}
use ht2mp.Ipc.Frame.Header.{
  header_bytes, length-header_bytes, header-Reads, frame_type-frame_code, frame_code-le,
  valid_message_type-frame_code,
}

abbrev pub frame_of : FrameType → ℕ → List ℕ → List ℕ
frame_of type sequence payload = header_bytes (frame_code type) (length payload) sequence ++ payload

write_frame-Puts :
    (type : FrameType) (sequence : ℕ) (payload : List ℕ)
    → length payload ≤ max_payload_size
    → Puts (write_frame (frame_code type) sequence payload) (frame_of type sequence payload)
unfolding write_frame header_bytes
write_frame-Puts type sequence payload small =
    let size : length payload % 2 ^ 32 ≡ length payload = omega arith in
    let puts = all_of-Puts _ _ (u32-Puts frame_magic) (
      all_of-Puts _ _ (u16-Puts ipc_version) (
        all_of-Puts _ _ (u16-Puts (frame_code type)) (
          all_of-Puts _ _ (u32-Puts (length payload % 2 ^ 32)) (
            all_of-Puts _ _ (u32-Puts sequence)
              (all_of-Puts _ _ (bytes-Puts payload) all_of-nil))))) in
    subst (Puts (write_frame (frame_code type) sequence payload))
      (simp (append_assoc, append-nil, size)) puts

pub length-frame_of :
    (type : FrameType) (sequence : ℕ) (payload : List ℕ)
    → length (frame_of type sequence payload) ≡ frame_header_size + length payload
length-frame_of type sequence payload = omega (
  arith,
  length-append (header_bytes (frame_code type) (length payload) sequence) payload,
  length-header_bytes (frame_code type) (length payload) sequence,
)

pub encode_frame-frame_code :
    (type : FrameType) (sequence : ℕ) (payload : List ℕ) (output_size : ℕ)
    → encode_frame (frame_code type) sequence payload output_size ≡ (
        if ltb max_payload_size (length payload)
        then failed payload_too_large
        else if ltb output_size (frame_header_size + length payload)
        then failed buffer_too_small
        else ok (frame_of type sequence payload))
unfolding encode_frame
encode_frame-frame_code type sequence payload output_size =
    let valid = valid_message_type-frame_code type in
    elim (Bool-cases (ltb max_payload_size (length payload))) [
      | inl large ↦ rw (valid, large) refl
      | inr small ↦ elim (Bool-cases (ltb output_size (frame_header_size + length payload))) [
        | inl short ↦ rw (valid, small, short) refl
        | inr room ↦
            let w : PayloadWriter = record { capacity = output_size; bytes = [] } in
            let puts = write_frame-Puts type sequence payload (ground arith) in
            let fits = length-frame_of type sequence payload in
            rw (valid, small, room, puts.on w (ground (arith, fits))) refl
      ]
    ]

-- The header in front of a frame's payload.
take-header :
    (header payload : List ℕ)
    → length header ≡ 16
    → (take 16 (header ++ payload) ≡ header) × (drop 16 (header ++ payload) ≡ payload)
take-header header payload e =
    (rw e at (raw_take header payload), rw e at (raw_drop header payload))

check_frame_lem :
    (type : FrameType) (sequence : ℕ) (payload frame : List ℕ)
    → length payload ≤ max_payload_size
    → length frame ≡ frame_header_size + length payload
    → drop frame_header_size frame ≡ payload
    → check_frame
        (record {
          magic = frame_magic;
          version = ipc_version;
          raw_type = frame_code type;
          payload_size = length payload;
          sequence = sequence;
        })
        frame
      ≡ ok (record { type = type; payload_size = length payload; sequence = sequence }, payload)
unfolding check_frame
check_frame_lem type sequence payload frame small total back =
    let whole : take (length payload) payload ≡ payload = rw append-nil at (raw_take payload []) in
    ground (arith, frame_type-frame_code type, whole)

pub decode_frame-frame_of :
    (type : FrameType) (sequence : ℕ) (payload : List ℕ)
    → IsU32 sequence
    → length payload ≤ max_payload_size
    → decode_frame (frame_of type sequence payload)
      ≡ ok (record { type = type; payload_size = length payload; sequence = sequence }, payload)
unfolding decode_frame
decode_frame-frame_of type sequence payload h small =
    let header = header_bytes (frame_code type) (length payload) sequence in
    let (front, back) =
      take-header header payload
        (length-header_bytes (frame_code type) (length payload) sequence) in
    let total = length-frame_of type sequence payload in
    let long : ltb (length (header ++ payload)) frame_header_size ≡ false = ground (arith, total) in
    let read =
      (header-Reads (frame_code type) (length payload) sequence (frame_code-le type) (omega arith)
          h).on
        [] in
    let read_front : read_raw_header header ≡ _ = rw append-nil at read in
    rw (long, front, read_front)
      (check_frame_lem type sequence payload (header ++ payload) small total back)
