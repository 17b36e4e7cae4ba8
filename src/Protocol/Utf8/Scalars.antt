-- ===== src/Protocol/Utf8/Scalars.antt =====
-- What is_valid_utf8 accepts.
use ht2mp.Prelude.{
  ℕ, zero, suc, ◌+◌, ◌/◌, ◌%◌, ◌≤◌, ◌<◌, ◌≡◌, refl, ap, ◌∙◌, arith, true, false, some, List, [],
  ◌∷◌, ◌++◌, All, length, length-append, Option-cases, inl, inr, ◌↔◌, ltb, Bool-cases,
}
use ht2mp.Protocol.Utf8.{decode_one, valid_from, is_valid_utf8}
use ht2mp.Protocol.Utf8.Encoding.{Scalar, encode}
use ht2mp.Protocol.Utf8.Decoding.{decode_one_inv}
use ht2mp.Protocol.Utf8.Encoded.{decode_one-encode}

unfoldable pub encode_all : List ℕ → List ℕ
encode_all [] = []
encode_all (c ∷ codepoints) = encode c ++ encode_all codepoints

-- A text that encodes scalar values.
abbrev pub Encodes : List ℕ → Type 0
Encodes bytes = (codepoints : List ℕ) × All Scalar codepoints × (encode_all codepoints ≡ bytes)

-- The first byte of an encoding, and the others.
encode_first : (c : ℕ) → (b : ℕ) × (others : List ℕ) × (encode c ≡ b ∷ others)
unfolding encode
encode_first c = elim (Bool-cases (ltb c 0x80)) [
  | inl one ↦ (c, [], rw (encode, one) refl)
  | inr more ↦ elim (Bool-cases (ltb c 0x800)) [
    | inl two ↦ (192 + c / 64, (128 + c % 64) ∷ [], rw (encode, more, two) refl)
    | inr more' ↦ elim (Bool-cases (ltb c 0x1_0000)) [
      | inl three ↦ (
        224 + c / 4096,
        (128 + c / 64 % 64) ∷ (128 + c % 64) ∷ [],
        rw (encode, more, more', three) refl,
      )
      | inr four ↦ (
        240 + c / 26_2144,
        (128 + c / 4096 % 64) ∷ (128 + c / 64 % 64) ∷ (128 + c % 64) ∷ [],
        rw (encode, more, more', four) refl,
      )
    ]
  ]
]

valid_from-encode_all :
    (fuel : ℕ) (codepoints : List ℕ)
    → All Scalar codepoints
    → length (encode_all codepoints) ≤ fuel
    → valid_from fuel (encode_all codepoints) ≡ true
unfolding valid_from encode_all
valid_from-encode_all fuel [] scalars h = refl
valid_from-encode_all fuel (c ∷ codepoints) scalars h =
    let (b, others, first) = encode_first c in
    let taken = rw first at (decode_one-encode c (encode_all codepoints) scalars.0) in
    rw first (
      after_first (λ k. valid_from-encode_all k codepoints scalars.1) fuel b others taken
        (rw first at h))
  where
    after_first :
        ((k : ℕ) → length (encode_all codepoints) ≤ k → valid_from k (encode_all codepoints) ≡ true)
        → (fuel b : ℕ) (others : List ℕ)
        → decode_one (b ∷ others ++ encode_all codepoints) ≡ some (c, encode_all codepoints)
        → length (b ∷ others ++ encode_all codepoints) ≤ fuel
        → valid_from fuel (b ∷ others ++ encode_all codepoints) ≡ true
    after_first rest zero b others taken h = absurd (omega arith)
    after_first rest (suc fuel) b others taken h =
        rw (valid_from, taken)
          (rest fuel (omega (arith, h, length-append others (encode_all codepoints))))

valid_from-Encodes :
    (fuel : ℕ) (bytes : List ℕ)
    → All (λ b. b < 256) bytes
    → valid_from fuel bytes ≡ true
    → Encodes bytes
unfolding valid_from encode_all
valid_from-Encodes fuel [] small h = ([], tt, refl)
valid_from-Encodes zero (b ∷ bytes) small h = absurd cc
valid_from-Encodes (suc fuel) (b ∷ bytes) small h = elim (Option-cases (decode_one (b ∷ bytes))) [
  | inl broken ↦ let fails : false ≡ true = rw (valid_from, broken) at h in absurd (cc fails)
  | inr ((c, rest), taken) ↦
      let goes_on : valid_from fuel rest ≡ true = rw (valid_from, taken) at h in
      let took = decode_one_inv b c bytes rest small taken in
      let (codepoints, scalars, e) = valid_from-Encodes fuel rest took.left goes_on in
      (c ∷ codepoints, (took.scalar, scalars), ap (λ t. encode c ++ t) e ∙ took.front)
]

-- A text of bytes is valid exactly if it is the UTF-8 encoding, as RFC 3629 has it, of a list of
-- Unicode scalar values.
pub is_valid_utf8_lem :
    (bytes : List ℕ) → All (λ b. b < 256) bytes → (is_valid_utf8 bytes ≡ true) ↔ Encodes bytes
unfolding is_valid_utf8
is_valid_utf8_lem bytes small = (
  λ h. valid_from-Encodes (length bytes) bytes small h,
  λ (codepoints, scalars, e).
      rw e at
        (valid_from-encode_all (length (encode_all codepoints)) codepoints scalars (omega arith)),
)
