-- ===== src/Protocol/Utf8.antt =====
-- is_valid_utf8 of src/protocol/validation.cpp.
pub mod Bytes
pub mod Encoding
pub mod Decoding
pub mod Encoded
pub mod Scalars
use Prim.Native.Nat.{bit_and, bit_or}
use ht2mp.Prelude.{
  ℕ, zero, suc, ◌*◌, ◌%◌, ◌^◌, Bool, true, false, not, ◌&&◌, ◌||◌, Option, none, some, List, [],
  ◌∷◌, ltb, leb, ◌==◌, if◌then◌else◌, length,
}

-- What a lead byte announces: the bits it holds, the count of continuation bytes, and the smallest
-- code point that needs this length.
pub record Lead : Type 0 where
  pub codepoint : ℕ
  pub continuation : ℕ
  pub minimum : ℕ

unfoldable pub classify : ℕ → Option Lead
classify first =
    if bit_and first 0xe0 == 0xc0
    then some (record { codepoint = bit_and first 0x1f; continuation = 1; minimum = 0x80 })
    else (if bit_and first 0xf0 == 0xe0
        then some (record { codepoint = bit_and first 0x0f; continuation = 2; minimum = 0x800 })
        else (if bit_and first 0xf8 == 0xf0
            then some
                (record { codepoint = bit_and first 0x07; continuation = 3; minimum = 0x1_0000 })
            else none))

-- The loop over `count` continuation bytes: the code point and what follows them. The source
-- first tests that `count` bytes are left, so that its loop reads no further.
unfoldable pub continue_with : ℕ → ℕ → List ℕ → Option (ℕ × List ℕ)
continue_with zero codepoint bytes = some (codepoint, bytes)
continue_with (suc count) codepoint [] = none
continue_with (suc count) codepoint (next ∷ bytes) =
    let rest =
      continue_with count (bit_or (codepoint * 2 ^ 6 % 2 ^ 32) (bit_and next 0x3f)) bytes in
    if not (bit_and next 0xc0 == 0x80) then none else rest

unfoldable pub is_scalar : ℕ → ℕ → Bool
is_scalar minimum codepoint = not (
    ltb codepoint minimum
    || (ltb 0x10_ffff codepoint || (leb 0xd800 codepoint && leb codepoint 0xdfff)))

-- One code point off the front; `none` where the source returns false.
unfoldable pub decode_one : List ℕ → Option (ℕ × List ℕ)
decode_one [] = none
decode_one (first ∷ bytes) = if leb first 0x7f then some (first, bytes) else elim (classify first) [
  | none ↦ none
  | some lead ↦
      if ltb (length bytes) lead.continuation
      then none
      else elim (continue_with lead.continuation lead.codepoint bytes) [
        | none ↦ none
        | some (codepoint, rest) ↦
            if is_scalar lead.minimum codepoint then some (codepoint, rest) else none
      ]
]

-- The outer loop. Each round takes a byte at least, so as much fuel as there are bytes suffices.
unfoldable pub valid_from : ℕ → List ℕ → Bool
valid_from fuel [] = true
valid_from zero (b ∷ bytes) = false
valid_from (suc fuel) (b ∷ bytes) = elim (decode_one (b ∷ bytes)) [
  | none ↦ false
  | some (codepoint, rest) ↦ valid_from fuel rest
]

unfoldable pub is_valid_utf8 : List ℕ → Bool
is_valid_utf8 value = valid_from (length value) value
