-- ===== src/Ipc/Payload.antt =====
-- PayloadWriter and PayloadReader of include/ht2mp/ipc/codec.hpp and src/ipc/codec.cpp. The
-- writer is its span's size and the bytes up to the cursor. The reader is the monad of
-- Protocol.Reader over the bytes from the cursor on.
pub mod Puts
pub mod Gets
pub mod Fields
use Prim.Native.Nat.{bit_or}
use ht2mp.Prelude.{
  ℕ, zero, suc, ◌+◌, ◌-◌, ◌*◌, ◌/◌, ◌%◌, ◌^◌, Bool, true, false, Option, none, some, List, [], ◌∷◌,
  ◌++◌, ltb, leb, if◌then◌else◌, length, take, drop,
}
use ht2mp.Protocol.Reader.{Reader}

pub data CodecError : Type 0 where
  buffer_too_small invalid_magic unsupported_version invalid_message_type : CodecError
  payload_too_large truncated trailing_bytes invalid_value : CodecError

-- A call that returns CodecError::none has filled its out parameters; what a failed call leaves in
-- them is not modelled.
pub data Coded {ℓ} (A : Type ℓ) : Type ℓ where
  ok : A → Coded A
  failed : CodecError → Coded A

pub record PayloadWriter : Type 0 where
  pub capacity : ℕ
  pub bytes : List ℕ

-- A method of the writer: `none` is false.
abbrev pub Put : Type 0
Put = PayloadWriter → Option PayloadWriter

abbrev pub append : PayloadWriter → List ℕ → PayloadWriter
append w bytes = record w { bytes = w.bytes ++ bytes }

-- The loop over the shifts: `count` bytes of the value, lowest first.
unfoldable pub shifted_bytes : ℕ → ℕ → ℕ → List ℕ
shifted_bytes zero shift value = []
shifted_bytes (suc count) shift value =
    value / 2 ^ shift % 2 ^ 8 ∷ shifted_bytes count (shift + 8) value

unfoldable pub put_u8 : ℕ → Put
put_u8 value w =
    if leb w.capacity (length w.bytes) then none else some (append w (value % 2 ^ 8 ∷ []))

unfoldable pub put_u16 : ℕ → Put
put_u16 value w =
    if ltb (w.capacity - length w.bytes) 2
    then none
    else some (append w (value % 2 ^ 8 ∷ value / 2 ^ 8 % 2 ^ 8 ∷ []))

unfoldable pub put_u32 : ℕ → Put
put_u32 value w =
    if ltb (w.capacity - length w.bytes) 4 then none else some (append w (shifted_bytes 4 0 value))

unfoldable pub put_u64 : ℕ → Put
put_u64 value w =
    if ltb (w.capacity - length w.bytes) 8 then none else some (append w (shifted_bytes 8 0 value))

unfoldable pub put_i32 : ℕ → Put
put_i32 = put_u32

unfoldable pub put_f32 : ℕ → Put
put_f32 = put_u32

unfoldable pub put_f64 : ℕ → Put
put_f64 = put_u64

unfoldable pub put_bytes : List ℕ → Put
put_bytes value w =
    if ltb (w.capacity - length w.bytes) (length value) then none else some (append w value)

-- `if (!a || !b || ...) return false;`
unfoldable pub all_of : List Put → Put
all_of [] w = some w
all_of (put ∷ puts) w = elim (put w) [ none ↦ none | some w' ↦ all_of puts w' ]

-- `for (auto value : values) if (!put(value)) return false;`
unfoldable pub put_each : (ℕ → Put) → List ℕ → Put
put_each put [] w = some w
put_each put (value ∷ values) w = elim (put value w) [
  | none ↦ none
  | some w' ↦ put_each put values w'
]

-- `if (!test) return false;`
unfoldable pub ensure : Bool → Put
ensure true w = some w
ensure false w = none

unfoldable pub get_u8 : Reader ℕ
get_u8 [] = none
get_u8 (b ∷ bytes) = some (b, bytes)

unfoldable pub get_u16 : Reader ℕ
get_u16 (low ∷ high ∷ bytes) = some (bit_or low (high * 2 ^ 8) % 2 ^ 16, bytes)
get_u16 bytes = none

-- The loop over the shifts, in a value of `width` bits.
unfoldable pub join_bytes : ℕ → ℕ → ℕ → List ℕ → ℕ
join_bytes width shift value [] = value
join_bytes width shift value (b ∷ bytes) =
    join_bytes width (shift + 8) (bit_or value (b * 2 ^ shift % 2 ^ width)) bytes

unfoldable pub get_u32 : Reader ℕ
get_u32 bytes =
    if ltb (length bytes) 4 then none else some (join_bytes 32 0 0 (take 4 bytes), drop 4 bytes)

unfoldable pub get_u64 : Reader ℕ
get_u64 bytes =
    if ltb (length bytes) 8 then none else some (join_bytes 64 0 0 (take 8 bytes), drop 8 bytes)

unfoldable pub get_i32 : Reader ℕ
get_i32 = get_u32

unfoldable pub get_f32 : Reader ℕ
get_f32 = get_u32

unfoldable pub get_f64 : Reader ℕ
get_f64 = get_u64

-- Into a span of `count` bytes.
unfoldable pub get_bytes : ℕ → Reader (List ℕ)
get_bytes count bytes =
    if ltb (length bytes) count then none else some (take count bytes, drop count bytes)
