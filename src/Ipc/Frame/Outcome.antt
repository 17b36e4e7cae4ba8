-- ===== src/Ipc/Frame/Outcome.antt =====
-- Which frames encode_frame writes, and why it refuses the others.
use ht2mp.Prelude.{
  ℕ, ◌+◌, ◌≤◌, ◌<◌, ◌≡◌, refl, ◌∙◌, arith, List, length, Bool-cases, inl, inr, ◌⊎◌, ltb,
}
use ht2mp.Protocol.Ranges.{IsU32}
use ht2mp.Ipc.Types.{FrameType, frame_code, max_payload_size, frame_header_size}
use ht2mp.Ipc.Payload.{
  CodecError, ok, failed, invalid_message_type, payload_too_large, buffer_too_small,
}
use ht2mp.Ipc.Frame.{valid_message_type, encode_frame, decode_frame}
use ht2mp.Ipc.Frame.Header.{frame_code-valid}
use ht2mp.Ipc.Frame.RoundTrip.{
  frame_of, length-frame_of, encode_frame-frame_code, decode_frame-frame_of,
}

-- The numbers of the enumeration.
abbrev pub Named : ℕ → Type 0
Named raw_type = (1 ≤ raw_type) × (raw_type ≤ 10)

-- What is wrong with a call, in the order in which the faults count.
pub data Fault (raw_type size output_size : ℕ) : CodecError → Type 0 where
  unnamed : ¬ Named raw_type → Fault raw_type size output_size invalid_message_type
  large : Named raw_type → 4096 < size → Fault raw_type size output_size payload_too_large
  short :
      Named raw_type
      → size ≤ 4096
      → output_size < 16 + size
      → Fault raw_type size output_size buffer_too_small

-- A frame that fits the output and that decode_frame takes apart into what went in.
pub record Framed (raw_type sequence : ℕ) (payload : List ℕ) (output_size : ℕ) : Type 0 where
  pub type : FrameType
  pub named : frame_code type ≡ raw_type
  pub small : length payload ≤ 4096
  pub frame : List ℕ
  pub encoded : encode_frame raw_type sequence payload output_size ≡ ok frame
  pub sized : length frame ≡ 16 + length payload
  pub fits : length frame ≤ output_size
  pub decoded :
      decode_frame frame
      ≡ ok (record { type = type; payload_size = length payload; sequence = sequence }, payload)

abbrev pub Refused : ℕ → ℕ → List ℕ → ℕ → Type 0
Refused raw_type sequence payload output_size =
    (error : CodecError) × Fault raw_type (length payload) output_size error
    × (encode_frame raw_type sequence payload output_size ≡ failed error)

encode_frame_of_type :
    (type : FrameType) (sequence : ℕ) (payload : List ℕ) (output_size : ℕ)
    → IsU32 sequence
    → Named (frame_code type)
    → Framed (frame_code type) sequence payload output_size
      ⊎ Refused (frame_code type) sequence payload output_size
encode_frame_of_type type sequence payload output_size u32 named =
    let result = encode_frame-frame_code type sequence payload output_size in
    let total = length-frame_of type sequence payload in
    elim (Bool-cases (ltb max_payload_size (length payload))) [
      | inl big ↦
          inr (payload_too_large, Fault.large named (ground arith), result ∙ ground (arith, big))
      | inr little ↦ elim (Bool-cases (ltb output_size (frame_header_size + length payload))) [
        | inl tight ↦ inr (
          buffer_too_small,
          Fault.short named (ground arith) (ground arith),
          result ∙ rw (little, tight) refl,
        )
        | inr room ↦ inl (record {
          type = type;
          named = refl;
          small = ground arith;
          frame = frame_of type sequence payload;
          encoded = result ∙ rw (little, room) refl;
          sized = total;
          fits = ground (arith, total);
          decoded = decode_frame-frame_of type sequence payload u32 (ground arith);
        })
      ]
    ]

-- For a 32-bit sequence number, encode_frame either writes a frame that fits the output, from
-- which decode_frame gets the type, the size, the sequence number and the payload back, or fails
-- with the error of the first fault: a number that is no type's, a payload above 4096 bytes, an
-- output shorter than the 16 bytes of the header and the payload.
pub encode_frame_lem :
    (raw_type sequence : ℕ) (payload : List ℕ) (output_size : ℕ)
    → IsU32 sequence
    → Framed raw_type sequence payload output_size ⊎ Refused raw_type sequence payload output_size
unfolding encode_frame valid_message_type frame_code
encode_frame_lem raw_type sequence payload output_size u32 =
    elim (Bool-cases (valid_message_type raw_type)) [
      | inr no_type ↦
          inr (invalid_message_type, Fault.unnamed (λ named. ground arith), rw no_type refl)
      | inl valid ↦
          let (type, same) = frame_code-valid raw_type valid in
          rw same at
            (encode_frame_of_type type sequence payload output_size u32 (rw same (ground arith)))
    ]
