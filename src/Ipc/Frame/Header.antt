-- ===== src/Ipc/Frame/Header.antt =====
-- The bytes of a frame's header.
use ht2mp.Prelude.{
  ℕ, zero, suc, ◌/◌, ◌%◌, ◌^◌, ◌≤◌, ◌≡◌, refl, arith, List, [], ◌∷◌, ◌++◌, length, length-append,
  some, true,
}
use ht2mp.Protocol.Ranges.{IsU32}
use ht2mp.Protocol.Wire.Reads.{Reads, Reads-bind, Reads-last}
use ht2mp.Ipc.Types.{FrameType, frame_code, frame_magic, ipc_version}
use ht2mp.Ipc.Payload.{shifted_bytes}
use ht2mp.Ipc.Payload.Puts.{length-shifted_bytes}
use ht2mp.Ipc.Payload.Gets.{u16-Gets, u32-Gets}
use ht2mp.Ipc.Frame.{read_raw_header, frame_type, valid_message_type}

abbrev pub word16 : ℕ → List ℕ
word16 value = value % 2 ^ 8 ∷ value / 2 ^ 8 % 2 ^ 8 ∷ []

unfoldable pub header_bytes : ℕ → ℕ → ℕ → List ℕ
header_bytes code size sequence =
    shifted_bytes 4 0 frame_magic
    ++ (word16 ipc_version
        ++ (word16 code ++ (shifted_bytes 4 0 size ++ shifted_bytes 4 0 sequence)))

pub length-header_bytes : (code size sequence : ℕ) → length (header_bytes code size sequence) ≡ 16
unfolding header_bytes
length-header_bytes code size sequence = simp (length-append, length-shifted_bytes)

pub frame_type-frame_code : (type : FrameType) → frame_type (frame_code type) ≡ some type
unfolding frame_type frame_code
frame_type-frame_code FrameType.bridge_hello = refl
frame_type-frame_code _ = refl

pub valid_message_type-frame_code : (type : FrameType) → valid_message_type (frame_code type) ≡ true
unfolding valid_message_type frame_code
valid_message_type-frame_code FrameType.bridge_hello = refl
valid_message_type-frame_code _ = refl

-- Every number that passes the test is the number of a type.
pub frame_code-valid :
    (raw : ℕ) → valid_message_type raw ≡ true → (type : FrameType) × (frame_code type ≡ raw)
unfolding valid_message_type frame_code
frame_code-valid zero h = absurd (ground arith)
frame_code-valid (suc zero) h = (FrameType.bridge_hello, refl)
frame_code-valid (suc (suc zero)) h = (FrameType.bridge_ready, refl)
frame_code-valid (suc (suc (suc zero))) h = (FrameType.bridge_status, refl)
frame_code-valid (suc (suc (suc (suc zero)))) h = (FrameType.local_sample, refl)
frame_code-valid (suc (suc (suc (suc (suc zero))))) h = (FrameType.spawn_remote, refl)
frame_code-valid (suc (suc (suc (suc (suc (suc zero)))))) h = (FrameType.remote_sample, refl)
frame_code-valid (suc (suc (suc (suc (suc (suc (suc zero))))))) h = (FrameType.despawn_remote, refl)
frame_code-valid (suc (suc (suc (suc (suc (suc (suc (suc zero)))))))) h =
    (FrameType.set_observer_mode, refl)
frame_code-valid (suc (suc (suc (suc (suc (suc (suc (suc (suc zero))))))))) h =
    (FrameType.enter_safe_mode, refl)
frame_code-valid (suc (suc (suc (suc (suc (suc (suc (suc (suc (suc zero)))))))))) h =
    (FrameType.environment, refl)
frame_code-valid (suc (suc (suc (suc (suc (suc (suc (suc (suc (suc (suc raw))))))))))) h =
    absurd (ground arith)

pub frame_code-le : (type : FrameType) → frame_code type ≤ 10
unfolding frame_code
frame_code-le FrameType.bridge_hello = omega arith
frame_code-le _ = omega arith

pub header-Reads :
    (code size sequence : ℕ)
    → code ≤ 10
    → IsU32 size
    → IsU32 sequence
    → Reads read_raw_header (header_bytes code size sequence) (record {
      magic = frame_magic;
      version = ipc_version;
      raw_type = code;
      payload_size = size;
      sequence = sequence;
    })
unfolding read_raw_header header_bytes
header-Reads code size sequence h k l = Reads-bind _ (u32-Gets frame_magic (omega arith)) (
    Reads-bind _ (u16-Gets ipc_version (omega arith)) (
      Reads-bind _ (u16-Gets code (omega arith))
        (Reads-bind _ (u32-Gets size k) (Reads-last _ (u32-Gets sequence l)))))
