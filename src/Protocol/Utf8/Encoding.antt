-- ===== src/Protocol/Utf8/Encoding.antt =====
-- UTF-8 as RFC 3629 defines it, and what decode_one makes of it.
use Prim.Native.Nat.{bit_and}
use ht2mp.Prelude.{
  ℕ, suc, ◌+◌, ◌*◌, ◌/◌, ◌%◌, ◌^◌, ◌≤◌, ◌<◌, ◌≡◌, refl, arith, true, false, if◌then◌else◌, ltb,
  ◌==◌, none, some, All, List, [], ◌∷◌, Bool-cases, inl, inr, ◌⊎◌,
}
use ht2mp.Protocol.Utf8.{classify, continue_with, is_scalar}
use ht2mp.Protocol.Utf8.Bytes.{byte_lem, joined_lem}

-- A Unicode scalar value: a code point that is no surrogate.
abbrev pub Scalar : ℕ → Type 0
Scalar c = (c < 0xd800) ⊎ ((0xdfff < c) × (c ≤ 0x10_ffff))

-- Its bytes.
unfoldable pub encode : ℕ → List ℕ
encode c =
    if ltb c 0x80
    then c ∷ []
    else if ltb c 0x800
    then (192 + c / 64) ∷ (128 + c % 64) ∷ []
    else if ltb c 0x1_0000
    then (224 + c / 4096) ∷ (128 + c / 64 % 64) ∷ (128 + c % 64) ∷ []
    else (240 + c / 26_2144) ∷ (128 + c / 4096 % 64) ∷ (128 + c / 64 % 64) ∷ (128 + c % 64) ∷ []

abbrev pub Tail : ℕ → Type 0
Tail n = (128 ≤ n) × (n < 192)

-- The code points of two, three and four bytes.
abbrev pub of_two : ℕ → ℕ → ℕ
of_two b n = b % 32 * 64 + n % 64

abbrev pub of_three : ℕ → ℕ → ℕ → ℕ
of_three b n m = (b % 16 * 64 + n % 64) * 64 + m % 64

abbrev pub of_four : ℕ → ℕ → ℕ → ℕ → ℕ
of_four b n m k = ((b % 8 * 64 + n % 64) * 64 + m % 64) * 64 + k % 64

pub is_scalar-Scalar : (minimum c : ℕ) → is_scalar minimum c ≡ true → (minimum ≤ c) × Scalar c
unfolding is_scalar
is_scalar-Scalar minimum c h = elim (Bool-cases (ltb c 0xd800)) [
  | inl low ↦ (ground arith, inl (ground arith))
  | inr high ↦ (ground arith, inr (ground arith))
]

pub Scalar-is_scalar : (minimum c : ℕ) → minimum ≤ c → Scalar c → is_scalar minimum c ≡ true
unfolding is_scalar
Scalar-is_scalar minimum c h s = ground arith

module _ (b : ℕ) where
  pub classify_two :
      192 ≤ b
      → b < 224
      → classify b ≡ some (record { codepoint = b % 32; continuation = 1; minimum = 0x80 })
  unfolding classify
  classify_two low high =
      let byte = byte_lem b (omega arith) in
      let is_two : (bit_and b 0xe0 == 0xc0) ≡ true = ground (arith, byte.two) in
      rw (classify, is_two, byte.low5) refl

  pub classify_three :
      224 ≤ b
      → b < 240
      → classify b ≡ some (record { codepoint = b % 16; continuation = 2; minimum = 0x800 })
  unfolding classify
  classify_three low high =
      let byte = byte_lem b (omega arith) in
      let no_two : (bit_and b 0xe0 == 0xc0) ≡ false = ground (arith, byte.two) in
      let is_three : (bit_and b 0xf0 == 0xe0) ≡ true = ground (arith, byte.three) in
      rw (classify, no_two, is_three, byte.low4) refl

  pub classify_four :
      240 ≤ b
      → b < 248
      → classify b ≡ some (record { codepoint = b % 8; continuation = 3; minimum = 0x1_0000 })
  unfolding classify
  classify_four low high =
      let byte = byte_lem b (omega arith) in
      let no_two : (bit_and b 0xe0 == 0xc0) ≡ false = ground (arith, byte.two) in
      let no_three : (bit_and b 0xf0 == 0xe0) ≡ false = ground (arith, byte.three) in
      let is_four : (bit_and b 0xf8 == 0xf0) ≡ true = ground (arith, byte.four) in
      rw (classify, no_two, no_three, is_four, byte.low3) refl

  pub classify_other : b < 256 → (b < 192) ⊎ (248 ≤ b) → classify b ≡ none
  unfolding classify
  classify_other small out =
      let byte = byte_lem b small in
      let no_two : (bit_and b 0xe0 == 0xc0) ≡ false = ground (arith, byte.two) in
      let no_three : (bit_and b 0xf0 == 0xe0) ≡ false = ground (arith, byte.three) in
      let no_four : (bit_and b 0xf8 == 0xf0) ≡ false = ground (arith, byte.four) in
      rw (classify, no_two, no_three, no_four) refl

pub continue_with-Tail :
    (count c n : ℕ) (bytes : List ℕ)
    → c < 2 ^ 26
    → Tail n
    → continue_with (suc count) c (n ∷ bytes) ≡ continue_with count (c * 64 + n % 64) bytes
unfolding continue_with
continue_with-Tail count c n bytes small tail =
    let byte = byte_lem n (omega arith) in
    let is_tail : (bit_and n 0xc0 == 0x80) ≡ true = ground (arith, byte.tail) in
    rw (continue_with, is_tail, joined_lem c n small (omega arith)) refl

-- What follows from a round that succeeds.
pub continue_with_inv :
    (count c result : ℕ) (bytes rest : List ℕ)
    → c < 2 ^ 26
    → All (λ n. n < 256) bytes
    → continue_with (suc count) c bytes ≡ some (result, rest)
    → (n : ℕ) × (after : List ℕ) × (bytes ≡ n ∷ after)
      × Tail n
      × (continue_with count (c * 64 + n % 64) after ≡ some (result, rest))
      × All (λ n. n < 256) after
unfolding continue_with
continue_with_inv count c result [] rest small h e = absurd cc
continue_with_inv count c result (n ∷ bytes) rest small h e =
    elim (Bool-cases (bit_and n 0xc0 == 0x80)) [
      | inr no_tail ↦
          let fails : none ≡ some (result, rest) = rw (continue_with, no_tail) at e in absurd cc
      | inl is_tail ↦
          let byte = byte_lem n h.0 in
          (
            n,
            bytes,
            refl,
            ground (arith, is_tail, byte.tail),
            rw (continue_with, is_tail, joined_lem c n small h.0) at e,
            h.1,
          )
    ]
