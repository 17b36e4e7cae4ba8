-- ===== src/Protocol/Utf8/Encoded.antt =====
-- A round of is_valid_utf8 takes the encoding of a scalar value off the front.
use ht2mp.Prelude.{
  ℕ, ◌+◌, ◌*◌, ◌/◌, ◌%◌, ◌≤◌, ◌<◌, ◌≡◌, refl, arith, true, false, leb, ltb, some, List, ◌∷◌, ◌++◌,
  length, Bool-cases, inl, inr,
}
use ht2mp.Protocol.Utf8.{continue_with, is_scalar, decode_one}
use ht2mp.Protocol.Utf8.Encoding.{
  Scalar, encode, Tail, of_two, of_three, of_four, Scalar-is_scalar, classify_two, classify_three,
  classify_four, continue_with-Tail,
}

module _ (b : ℕ) (rest : List ℕ) where
  decode_two :
      (n c : ℕ)
      → 192 ≤ b
      → b < 224
      → Tail n
      → of_two b n ≡ c
      → is_scalar 0x80 c ≡ true
      → decode_one (b ∷ n ∷ rest) ≡ some (c, rest)
  unfolding decode_one continue_with
  decode_two n c low high tail value fits =
      let no_plain : leb b 0x7f ≡ false = ground arith in
      let long : ltb (length (n ∷ rest)) 1 ≡ false = ground arith in
      let step = continue_with-Tail 0 (b % 32) n rest (omega arith) tail in
      rw (decode_one, no_plain, classify_two b low high, long, step, value, fits) refl

  decode_three :
      (n m c : ℕ)
      → 224 ≤ b
      → b < 240
      → Tail n
      → Tail m
      → of_three b n m ≡ c
      → is_scalar 0x800 c ≡ true
      → decode_one (b ∷ n ∷ m ∷ rest) ≡ some (c, rest)
  unfolding decode_one continue_with
  decode_three n m c low high tail tail' value fits =
      let no_plain : leb b 0x7f ≡ false = ground arith in
      let long : ltb (length (n ∷ m ∷ rest)) 2 ≡ false = ground arith in
      let step = continue_with-Tail 1 (b % 16) n (m ∷ rest) (omega arith) tail in
      let step' = continue_with-Tail 0 (b % 16 * 64 + n % 64) m rest (omega arith) tail' in
      rw (decode_one, no_plain, classify_three b low high, long, step, step', value, fits) refl

  decode_four :
      (n m k c : ℕ)
      → 240 ≤ b
      → b < 248
      → Tail n
      → Tail m
      → Tail k
      → of_four b n m k ≡ c
      → is_scalar 0x1_0000 c ≡ true
      → decode_one (b ∷ n ∷ m ∷ k ∷ rest) ≡ some (c, rest)
  unfolding decode_one continue_with
  decode_four n m k c low high tail tail' tail'' value fits =
      let no_plain : leb b 0x7f ≡ false = ground arith in
      let long : ltb (length (n ∷ m ∷ k ∷ rest)) 3 ≡ false = ground arith in
      let step = continue_with-Tail 2 (b % 8) n (m ∷ k ∷ rest) (omega arith) tail in
      let step' = continue_with-Tail 1 (b % 8 * 64 + n % 64) m (k ∷ rest) (omega arith) tail' in
      let step'' =
        continue_with-Tail 0 ((b % 8 * 64 + n % 64) * 64 + m % 64) k rest (omega arith) tail'' in
      rw (decode_one, no_plain, classify_four b low high, long, step, step', step'', value, fits)
        refl

low_bits-Tail : (c : ℕ) → Tail (128 + c % 64)
low_bits-Tail c = (omega arith, omega arith)

module _ (c : ℕ) (rest : List ℕ) (scalar : Scalar c) where
  value_two : c < 0x800 → of_two (192 + c / 64) (128 + c % 64) ≡ c
  value_two h = omega arith

  value_three : c < 0x1_0000 → of_three (224 + c / 4096) (128 + c / 64 % 64) (128 + c % 64) ≡ c
  value_three h = omega arith

  value_four :
      c ≤ 0x10_ffff
      → of_four (240 + c / 26_2144) (128 + c / 4096 % 64) (128 + c / 64 % 64) (128 + c % 64) ≡ c
  value_four h = omega arith

  pub decode_one-encode : decode_one (encode c ++ rest) ≡ some (c, rest)
  unfolding encode decode_one
  decode_one-encode = elim (Bool-cases (ltb c 0x80)) [
    | inl plain ↦
        let short : leb c 0x7f ≡ true = ground arith in rw (encode, plain, decode_one, short) refl
    | inr more ↦ elim (Bool-cases (ltb c 0x800)) [
      | inl two ↦
          rw (encode, more, two)
            (decode_two (192 + c / 64) rest (128 + c % 64) c (omega arith) (ground arith)
              (low_bits-Tail c) (value_two (ground arith))
              (Scalar-is_scalar 0x80 c (ground arith) scalar))
      | inr more' ↦ elim (Bool-cases (ltb c 0x1_0000)) [
        | inl three ↦
            rw (encode, more, more', three)
              (decode_three (224 + c / 4096) rest (128 + c / 64 % 64) (128 + c % 64) c (omega arith)
                (ground arith) (low_bits-Tail (c / 64)) (low_bits-Tail c)
                (value_three (ground arith)) (Scalar-is_scalar 0x800 c (ground arith) scalar))
        | inr four ↦
            let most : c ≤ 0x10_ffff = ground arith in
            rw (encode, more, more', four)
              (decode_four (240 + c / 26_2144) rest (128 + c / 4096 % 64) (128 + c / 64 % 64)
                (128 + c % 64) c (omega arith) (omega arith) (low_bits-Tail (c / 4096))
                (low_bits-Tail (c / 64)) (low_bits-Tail c) (value_four most)
                (Scalar-is_scalar 0x1_0000 c (ground arith) scalar))
      ]
    ]
  ]
