-- ===== src/Protocol/Wire/Words.antt =====
-- Integers, tokens and strings: what is written is read back.
use Prim.Native.Nat.{bit_or}
use ht2mp.Prelude.{
  ℕ, ◌*◌, ◌/◌, ◌%◌, ◌^◌, ◌≤◌, ◌<◌, ◌≡◌, refl, List, [], ◌∷◌, ◌++◌, length, take, drop, arith,
  le→leb, length-append, ap, ◌∙◌, subst,
}
use ht2mp.Prelude.Bits.{bit_or_disjoint}
use ht2mp.Protocol.Ranges.{IsU8, IsU16, IsU32, IsU64, IsArray}
use ht2mp.Protocol.Writer
use ht2mp.Protocol.Reader
use ht2mp.Protocol.Reader.{pure}
use ht2mp.Protocol.Wire.Reads.{Reads, Reads-bind, Reads-last, Reads-require}

pub u8-Reads : (n : ℕ) → IsU8 n → Reads Reader.u8 (Writer.u8 n) n
unfolding Reader.u8 Writer.u8
u8-Reads n h = record { on = λ rest. ground arith }

pub u16-Reads : (n : ℕ) → IsU16 n → Reads Reader.u16 (Writer.u16 n) n
unfolding Reader.u16 Writer.u16
u16-Reads n h = subst (Reads Reader.u16 (Writer.u16 n)) joined read
  where
    joined : bit_or (n % 2 ^ 8) (n / 2 ^ 8 * 2 ^ 8) % 2 ^ 16 ≡ n
    joined = omega (arith, bit_or_disjoint 8 (n % 2 ^ 8) (n / 2 ^ 8) (omega arith))

    low : Reads Reader.u8 (Writer.u8 n) (n % 2 ^ 8)
    low = unfold Reader.u8 Writer.u8 in record { on = λ rest. refl }

    read : Reads Reader.u16 (Writer.u16 n) (bit_or (n % 2 ^ 8) (n / 2 ^ 8 * 2 ^ 8) % 2 ^ 16)
    read = Reads-bind _ low (Reads-last _ (u8-Reads (n / 2 ^ 8) (omega arith)))

pub u32-Reads : (n : ℕ) → IsU32 n → Reads Reader.u32 (Writer.u32 n) n
unfolding Reader.u32 Writer.u32
u32-Reads n h = subst (Reads Reader.u32 (Writer.u32 n)) joined read
  where
    high : ℕ
    high = n / 2 ^ 16 % 2 ^ 16

    joined : bit_or (n % 2 ^ 16) (high * 2 ^ 16 % 2 ^ 32) ≡ n
    joined =
        ap (bit_or (n % 2 ^ 16)) (omega arith)
        ∙ bit_or_disjoint 16 (n % 2 ^ 16) high (omega arith)
        ∙ omega arith

    read : Reads Reader.u32 (Writer.u32 n) (bit_or (n % 2 ^ 16) (high * 2 ^ 16 % 2 ^ 32))
    read =
        Reads-bind _ (u16-Reads (n % 2 ^ 16) (omega arith))
          (Reads-last _ (u16-Reads high (omega arith)))

pub u64-Reads : (n : ℕ) → IsU64 n → Reads Reader.u64 (Writer.u64 n) n
unfolding Reader.u64 Writer.u64
u64-Reads n h = subst (Reads Reader.u64 (Writer.u64 n)) joined read
  where
    high : ℕ
    high = n / 2 ^ 32 % 2 ^ 32

    joined : bit_or (n % 2 ^ 32) (high * 2 ^ 32 % 2 ^ 64) ≡ n
    joined =
        ap (bit_or (n % 2 ^ 32)) (omega arith)
        ∙ bit_or_disjoint 32 (n % 2 ^ 32) high (omega arith)
        ∙ omega arith

    read : Reads Reader.u64 (Writer.u64 n) (bit_or (n % 2 ^ 32) (high * 2 ^ 32 % 2 ^ 64))
    read =
        Reads-bind _ (u32-Reads (n % 2 ^ 32) (omega arith))
          (Reads-last _ (u32-Reads high (omega arith)))

pub i32-Reads : (n : ℕ) → IsU32 n → Reads Reader.i32 (Writer.i32 n) n
unfolding Reader.i32 Writer.i32
i32-Reads = u32-Reads

pub f32-Reads : (n : ℕ) → IsU32 n → Reads Reader.f32 (Writer.f32 n) n
unfolding Reader.f32 Writer.f32
f32-Reads = u32-Reads

pub f64-Reads : (n : ℕ) → IsU64 n → Reads Reader.f64 (Writer.f64 n) n
unfolding Reader.f64 Writer.f64
f64-Reads = u64-Reads

pub raw_take : (value rest : List ℕ) → take (length value) (value ++ rest) ≡ value
raw_take [] rest = refl
raw_take (b ∷ value) rest = ap (◌∷◌ b) (raw_take value rest)

pub raw_drop : (value rest : List ℕ) → drop (length value) (value ++ rest) ≡ rest
raw_drop [] rest = refl
raw_drop (b ∷ value) rest = raw_drop value rest

pub raw-Reads : (value : List ℕ) → Reads (Reader.raw (length value)) value value
unfolding Reader.raw
raw-Reads value = record {
  on = λ rest. ground (arith, length-append value rest, raw_take value rest, raw_drop value rest);
}

pub token-Reads :
    (value : List ℕ) → IsArray 16 IsU8 value → Reads Reader.token (Writer.token value) value
unfolding Reader.token Writer.token
token-Reads value h = rw h.0 at (raw-Reads value)

pub string8-Reads :
    (maximum : ℕ) (value : List ℕ)
    → length value ≤ maximum
    → maximum < 256
    → Reads (Reader.string8 maximum) (Writer.string8 value) value
unfolding Reader.string8 Writer.string8
string8-Reads maximum value h k =
    Reads-bind _ (u8-Reads (length value) (omega arith))
      (Reads-require (le→leb (length value) maximum h) (raw-Reads value))
