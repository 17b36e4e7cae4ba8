-- ===== src/Protocol/Utf8/Decoding.antt =====
-- A round of is_valid_utf8 reads one code point, and only its encoding.
use ht2mp.Prelude.{
  ℕ, ◌+◌, ◌*◌, ◌/◌, ◌%◌, ◌≤◌, ◌<◌, ◌≡◌, refl, sym, ap, ◌∙◌, arith, true, false, leb, ltb, none,
  some, All, List, [], ◌∷◌, ◌++◌, length, Bool-cases, Option-cases, inl, inr, ◌⊎◌,
}
use ht2mp.Protocol.Utf8.{Lead, classify, continue_with, is_scalar, decode_one}
use ht2mp.Protocol.Utf8.Encoding.{
  Scalar, encode, Tail, of_two, of_three, of_four, is_scalar-Scalar, classify_two, classify_three,
  classify_four, classify_other, continue_with_inv,
}

-- The bytes of a code point from its bytes.
encode_two :
    (b n : ℕ) → 192 ≤ b → b < 224 → Tail n → 0x80 ≤ of_two b n → encode (of_two b n) ≡ b ∷ n ∷ []
unfolding encode
encode_two b n low high tail least =
    let c0 : ltb (of_two b n) 0x80 ≡ false = ground arith in
    let c1 : ltb (of_two b n) 0x800 ≡ true = ground arith in
    let first : 192 + of_two b n / 64 ≡ b = omega arith in
    let second : 128 + of_two b n % 64 ≡ n = omega arith in rw (encode, c0, c1, first, second) refl

encode_three :
    (b n m : ℕ)
    → 224 ≤ b
    → b < 240
    → Tail n
    → Tail m
    → 0x800 ≤ of_three b n m
    → encode (of_three b n m) ≡ b ∷ n ∷ m ∷ []
unfolding encode
encode_three b n m low high tail tail' least =
    let c0 : ltb (of_three b n m) 0x80 ≡ false = ground arith in
    let c1 : ltb (of_three b n m) 0x800 ≡ false = ground arith in
    let c2 : ltb (of_three b n m) 0x1_0000 ≡ true = ground arith in
    let first : 224 + of_three b n m / 4096 ≡ b = omega arith in
    let second : 128 + of_three b n m / 64 % 64 ≡ n = omega arith in
    let third : 128 + of_three b n m % 64 ≡ m = omega arith in
    rw (encode, c0, c1, c2, first, second, third) refl

encode_four :
    (b n m k : ℕ)
    → 240 ≤ b
    → b < 248
    → Tail n
    → Tail m
    → Tail k
    → 0x1_0000 ≤ of_four b n m k
    → encode (of_four b n m k) ≡ b ∷ n ∷ m ∷ k ∷ []
unfolding encode
encode_four b n m k low high tail tail' tail'' least =
    let c0 : ltb (of_four b n m k) 0x80 ≡ false = ground arith in
    let c1 : ltb (of_four b n m k) 0x800 ≡ false = ground arith in
    let c2 : ltb (of_four b n m k) 0x1_0000 ≡ false = ground arith in
    let first : 240 + of_four b n m k / 26_2144 ≡ b = omega arith in
    let second : 128 + of_four b n m k / 4096 % 64 ≡ n = omega arith in
    let third : 128 + of_four b n m k / 64 % 64 ≡ m = omega arith in
    let fourth : 128 + of_four b n m k % 64 ≡ k = omega arith in
    rw (encode, c0, c1, c2, first, second, third, fourth) refl

-- What a round that succeeds has read.
pub record Took (bytes : List ℕ) (c : ℕ) (rest : List ℕ) : Type 0 where
  pub scalar : Scalar c
  pub front : encode c ++ rest ≡ bytes
  pub left : All (λ n. n < 256) rest

-- Behind a lead byte.
decode_lead :
    (b c : ℕ) (bytes rest : List ℕ) (lead : Lead)
    → 128 ≤ b
    → classify b ≡ some lead
    → decode_one (b ∷ bytes) ≡ some (c, rest)
    → (continue_with lead.continuation lead.codepoint bytes ≡ some (c, rest))
      × (is_scalar lead.minimum c ≡ true)
unfolding decode_one
decode_lead b c bytes rest lead high is_lead e =
    let no_plain : leb b 0x7f ≡ false = ground arith in
    elim (Bool-cases (ltb (length bytes) lead.continuation)) [
      | inl short ↦
          let fails : none ≡ some (c, rest) = rw (decode_one, no_plain, is_lead, short) at e in
          absurd cc
      | inr enough ↦ elim (Option-cases (continue_with lead.continuation lead.codepoint bytes)) [
        | inl broken ↦
            let fails : none ≡ some (c, rest) =
              rw (decode_one, no_plain, is_lead, enough, broken) at e in
            absurd cc
        | inr ((point, after), continued) ↦ elim (Bool-cases (is_scalar lead.minimum point)) [
          | inr refused ↦
              let fails : none ≡ some (c, rest) =
                rw (decode_one, no_plain, is_lead, enough, continued, refused) at e in
              absurd cc
          | inl fits ↦
              let taken : some (point, after) ≡ some (c, rest) =
                rw (decode_one, no_plain, is_lead, enough, continued, fits) at e in
              let same : point ≡ c = cc in (continued ∙ taken, rw same at fits)
        ]
      ]
    ]

module _ (b c : ℕ) (bytes rest : List ℕ) (small : All (λ n. n < 256) bytes)
    (e : decode_one (b ∷ bytes) ≡ some (c, rest)) where
  decode_two_inv : 192 ≤ b → b < 224 → Took (b ∷ bytes) c rest
  unfolding continue_with
  decode_two_inv low high =
      let (read, fits) = decode_lead b c bytes rest _ (omega arith) (classify_two b low high) e in
      let (n, after, split, tail, done, left) =
        continue_with_inv 0 (b % 32) c bytes rest (omega arith) small read in
      let value : of_two b n ≡ c = cc in
      let over : after ≡ rest = cc in
      let (least, scalar) = is_scalar-Scalar 0x80 c fits in
      let bytes_of = encode_two b n low high tail (omega arith) in
      record {
        scalar = scalar;
        front =
            ap (λ l. l ++ rest) (ap encode (sym value) ∙ bytes_of)
            ∙ sym (ap (λ t. b ∷ t) (split ∙ ap (λ t. n ∷ t) over));
        left = rw over at left;
      }

  decode_three_inv : 224 ≤ b → b < 240 → Took (b ∷ bytes) c rest
  unfolding continue_with
  decode_three_inv low high =
      let (read, fits) = decode_lead b c bytes rest _ (omega arith) (classify_three b low high) e in
      let (n, after, split, tail, read', left) =
        continue_with_inv 1 (b % 16) c bytes rest (omega arith) small read in
      let (m, after', split', tail', done, left') =
        continue_with_inv 0 (b % 16 * 64 + n % 64) c after rest (omega arith) left read' in
      let value : of_three b n m ≡ c = cc in
      let over : after' ≡ rest = cc in
      let (least, scalar) = is_scalar-Scalar 0x800 c fits in
      let bytes_of = encode_three b n m low high tail tail' (omega arith) in
      record {
        scalar = scalar;
        front =
            ap (λ l. l ++ rest) (ap encode (sym value) ∙ bytes_of)
            ∙ sym (ap (λ t. b ∷ t) (split ∙ ap (λ t. n ∷ t) (split' ∙ ap (λ t. m ∷ t) over)));
        left = rw over at left';
      }

  decode_four_inv : 240 ≤ b → b < 248 → Took (b ∷ bytes) c rest
  unfolding continue_with
  decode_four_inv low high =
      let (read, fits) = decode_lead b c bytes rest _ (omega arith) (classify_four b low high) e in
      let (n, after, split, tail, read', left) =
        continue_with_inv 2 (b % 8) c bytes rest (omega arith) small read in
      let (m, after', split', tail', read'', left') =
        continue_with_inv 1 (b % 8 * 64 + n % 64) c after rest (omega arith) left read' in
      let (k, after'', split'', tail'', done, left'') =
        continue_with_inv 0 ((b % 8 * 64 + n % 64) * 64 + m % 64) c after' rest (omega arith) left'
          read'' in
      let value : of_four b n m k ≡ c = cc in
      let over : after'' ≡ rest = cc in
      let (least, scalar) = is_scalar-Scalar 0x1_0000 c fits in
      let bytes_of = encode_four b n m k low high tail tail' tail'' (omega arith) in
      record {
        scalar = scalar;
        front =
            ap (λ l. l ++ rest) (ap encode (sym value) ∙ bytes_of)
            ∙ sym (
                ap (λ t. b ∷ t)
                  (split
                    ∙ ap (λ t. n ∷ t) (split' ∙ ap (λ t. m ∷ t) (split'' ∙ ap (λ t. k ∷ t) over))));
        left = rw over at left'';
      }

-- Which range a byte is in.
range_of :
    (b : ℕ)
    → (b < 128)
      ⊎ (((192 ≤ b) × (b < 224))
          ⊎ (((224 ≤ b) × (b < 240))
              ⊎ (((240 ≤ b) × (b < 248)) ⊎ ((128 ≤ b) × ((b < 192) ⊎ (248 ≤ b))))))
range_of b = elim (Bool-cases (ltb b 128)) [
  | inl h ↦ inl (ground arith)
  | inr h0 ↦ elim (Bool-cases (ltb b 192)) [
    | inl h ↦ inr (inr (inr (inr (ground arith, inl (ground arith)))))
    | inr h1 ↦ elim (Bool-cases (ltb b 224)) [
      | inl h ↦ inr (inl (ground arith, ground arith))
      | inr h2 ↦ elim (Bool-cases (ltb b 240)) [
        | inl h ↦ inr (inr (inl (ground arith, ground arith)))
        | inr h3 ↦ elim (Bool-cases (ltb b 248)) [
          | inl h ↦ inr (inr (inr (inl (ground arith, ground arith))))
          | inr h4 ↦ inr (inr (inr (inr (ground arith, inr (ground arith)))))
        ]
      ]
    ]
  ]
]

pub decode_one_inv :
    (b c : ℕ) (bytes rest : List ℕ)
    → All (λ n. n < 256) (b ∷ bytes)
    → decode_one (b ∷ bytes) ≡ some (c, rest)
    → Took (b ∷ bytes) c rest
unfolding decode_one encode
decode_one_inv b c bytes rest h e = elim (range_of b) [
  | inl plain ↦
      let is_plain : leb b 0x7f ≡ true = ground arith in
      let taken : some (b, bytes) ≡ some (c, rest) = rw (decode_one, is_plain) at e in
      let value : b ≡ c = cc in
      let over : bytes ≡ rest = cc in
      let short : ltb c 0x80 ≡ true = ground arith in
      record {
        scalar = inl (omega arith);
        front = rw (encode, short, value, over) refl;
        left = rw over at h.1;
      }
  | inr (inl (low, high)) ↦ decode_two_inv b c bytes rest h.1 e low high
  | inr (inr (inl (low, high))) ↦ decode_three_inv b c bytes rest h.1 e low high
  | inr (inr (inr (inl (low, high)))) ↦ decode_four_inv b c bytes rest h.1 e low high
  | inr (inr (inr (inr (high, out)))) ↦
      let no_plain : leb b 0x7f ≡ false = ground arith in
      let nothing : classify b ≡ none = classify_other b h.0 out in
      let fails : none ≡ some (c, rest) = rw (decode_one, no_plain, nothing) at e in
      absurd (cc fails)
]
