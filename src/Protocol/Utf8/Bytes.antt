-- ===== src/Protocol/Utf8/Bytes.antt =====
-- The bit tests of is_valid_utf8 as arithmetic on bytes.
use Prim.Native.Nat.{bit_and, bit_or}
use ht2mp.Prelude.{
  ℕ, ◌+◌, ◌*◌, ◌%◌, ◌^◌, ◌<◌, ◌≡◌, refl, arith, Bool, true, not, if◌then◌else◌, ◌&&◌, leb, ltb,
  ◌==◌, ==_iff,
}
use ht2mp.Prelude.Bits.{table, table_sound, bit_or_joins}

-- What the tests and the masks say of one byte.
pub record Byte (n : ℕ) : Type 0 where
  pub tail : (bit_and n 0xc0 == 0x80) ≡ (leb 128 n && ltb n 192)
  pub two : (bit_and n 0xe0 == 0xc0) ≡ (leb 192 n && ltb n 224)
  pub three : (bit_and n 0xf0 == 0xe0) ≡ (leb 224 n && ltb n 240)
  pub four : (bit_and n 0xf8 == 0xf0) ≡ (leb 240 n && ltb n 248)
  pub low6 : bit_and n 0x3f ≡ n % 64
  pub low5 : bit_and n 0x1f ≡ n % 32
  pub low4 : bit_and n 0x0f ≡ n % 16
  pub low3 : bit_and n 0x07 ≡ n % 8

abbrev agree : Bool → Bool → Bool
agree a b = if a then b else not b

agree_sound : (a b : Bool) → agree a b ≡ true → a ≡ b
agree_sound a b h = ground arith

module _ (f g : ℕ → ℕ) (filled : table (λ n. f n == g n) 256 ≡ true) where
  masks : (n : ℕ) → n < 256 → f n ≡ g n
  masks n h = (==_iff _ _).0 (table_sound (λ n. f n == g n) 256 filled n h)

module _ (f g : ℕ → Bool) (filled : table (λ n. agree (f n) (g n)) 256 ≡ true) where
  tests : (n : ℕ) → n < 256 → f n ≡ g n
  tests n h = agree_sound _ _ (table_sound (λ n. agree (f n) (g n)) 256 filled n h)

pub byte_lem : (n : ℕ) → n < 256 → Byte n
byte_lem n h = record {
  tail =
      tests (λ n. bit_and n 0xc0 == 0x80) (λ n. leb 128 n && ltb n 192) (unfold table in refl) n h;
  two =
      tests (λ n. bit_and n 0xe0 == 0xc0) (λ n. leb 192 n && ltb n 224) (unfold table in refl) n h;
  three =
      tests (λ n. bit_and n 0xf0 == 0xe0) (λ n. leb 224 n && ltb n 240) (unfold table in refl) n h;
  four =
      tests (λ n. bit_and n 0xf8 == 0xf0) (λ n. leb 240 n && ltb n 248) (unfold table in refl) n h;
  low6 = masks (λ n. bit_and n 0x3f) (λ n. n % 64) (unfold table in refl) n h;
  low5 = masks (λ n. bit_and n 0x1f) (λ n. n % 32) (unfold table in refl) n h;
  low4 = masks (λ n. bit_and n 0x0f) (λ n. n % 16) (unfold table in refl) n h;
  low3 = masks (λ n. bit_and n 0x07) (λ n. n % 8) (unfold table in refl) n h;
}

-- One more continuation byte joins its six bits.
pub joined_lem :
    (codepoint next : ℕ)
    → codepoint < 2 ^ 26
    → next < 256
    → bit_or (codepoint * 2 ^ 6 % 2 ^ 32) (bit_and next 0x3f) ≡ codepoint * 64 + next % 64
joined_lem codepoint next h k =
    let small : codepoint * 2 ^ 6 % 2 ^ 32 ≡ codepoint * 2 ^ 6 = omega arith in
    rw (small, (byte_lem next k).low6) (bit_or_joins 6 (next % 64) codepoint (omega arith))
