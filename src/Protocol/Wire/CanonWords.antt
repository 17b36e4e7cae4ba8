-- ===== src/Protocol/Wire/CanonWords.antt =====
-- Integers, tokens, strings and arrays: only what the writer writes is accepted.
use Prim.Native.Nat.{bit_or}
use mathlib.Core.Path.{ap₂}
use ht2mp.Prelude.{
  ℕ, zero, suc, ◌+◌, ◌*◌, ◌/◌, ◌%◌, ◌^◌, ◌≤◌, ◌≡◌, refl, sym, List, [], ◌∷◌, ◌++◌, length, take,
  drop, arith, ltb, leb→le, some, ap, ◌∙◌, Bool-cases, false, Option, inl, inr, take-append-drop,
  length-take, All-drop, append_assoc,
}
use ht2mp.Prelude.Bits.{bit_or_disjoint}
use ht2mp.Protocol.Ranges.{AreBytes, IsU8, IsU16, IsU32, IsU64, IsArray}
use ht2mp.Protocol.Writer
use ht2mp.Protocol.Reader
use ht2mp.Protocol.Reader.{Reader, pure}
use ht2mp.Protocol.Wire.Canon.{Canon, Ends-bind, Ends-pure, Ends-require}

pub u8-Canon : Canon Reader.u8 Writer.u8 IsU8
unfolding Reader.u8 Writer.u8
u8-Canon = record { from = one }
  where
    one :
        (bytes rest : List ℕ) (a : ℕ)
        → AreBytes bytes
        → Reader.u8 bytes ≡ some (a, rest)
        → (bytes ≡ Writer.u8 a ++ rest) × IsU8 a × AreBytes rest
    one [] rest a h e = cc
    one (b ∷ bytes) rest a h e = ground arith

pub u16-Canon : Canon Reader.u16 Writer.u16 IsU16
unfolding Reader.u16 Writer.u16 Writer.u8
u16-Canon = Ends-bind _ u8-Canon λ low hl. Ends-bind _ u8-Canon λ high hh.
    let joined : bit_or low (high * 2 ^ 8) ≡ low + high * 2 ^ 8 = bit_or_disjoint 8 low high hl in
    Ends-pure _ (rw joined (ground arith)) (omega (arith, joined))

pub u32-Canon : Canon Reader.u32 Writer.u32 IsU32
unfolding Reader.u32 Writer.u32
u32-Canon = Ends-bind _ u16-Canon λ low hl. Ends-bind _ u16-Canon λ high hh.
    let wide : high * 2 ^ 16 % 2 ^ 32 ≡ high * 2 ^ 16 = omega arith in
    let joined : bit_or low (high * 2 ^ 16 % 2 ^ 32) ≡ low + high * 2 ^ 16 =
      ap (bit_or low) wide ∙ bit_or_disjoint 16 low high hl in
    let low_half : low ≡ (low + high * 2 ^ 16) % 2 ^ 16 = omega arith in
    let high_half : high ≡ (low + high * 2 ^ 16) / 2 ^ 16 % 2 ^ 16 = omega arith in
    Ends-pure _ (rw joined (ap₂ (λ l h. Writer.u16 l ++ Writer.u16 h) low_half high_half))
      (omega (arith, joined))

pub u64-Canon : Canon Reader.u64 Writer.u64 IsU64
unfolding Reader.u64 Writer.u64
u64-Canon = Ends-bind _ u32-Canon λ low hl. Ends-bind _ u32-Canon λ high hh.
    let wide : high * 2 ^ 32 % 2 ^ 64 ≡ high * 2 ^ 32 = omega arith in
    let joined : bit_or low (high * 2 ^ 32 % 2 ^ 64) ≡ low + high * 2 ^ 32 =
      ap (bit_or low) wide ∙ bit_or_disjoint 32 low high hl in
    let low_half : low ≡ (low + high * 2 ^ 32) % 2 ^ 32 = omega arith in
    let high_half : high ≡ (low + high * 2 ^ 32) / 2 ^ 32 % 2 ^ 32 = omega arith in
    Ends-pure _ (rw joined (ap₂ (λ l h. Writer.u32 l ++ Writer.u32 h) low_half high_half))
      (omega (arith, joined))

pub i32-Canon : Canon Reader.i32 Writer.i32 IsU32
unfolding Reader.i32 Writer.i32
i32-Canon = u32-Canon

pub f32-Canon : Canon Reader.f32 Writer.f32 IsU32
unfolding Reader.f32 Writer.f32
f32-Canon = u32-Canon

pub f64-Canon : Canon Reader.f64 Writer.f64 IsU64
unfolding Reader.f64 Writer.f64
f64-Canon = u64-Canon

leb_of_not_ltb : (a b : ℕ) → ltb a b ≡ false → b ≤ a
leb_of_not_ltb a b h = ground arith

pub All-take : (n : ℕ) (bytes : List ℕ) → AreBytes bytes → AreBytes (take n bytes)
All-take zero bytes h = tt
All-take (suc n) [] h = tt
All-take (suc n) (b ∷ bytes) h = (h.0, All-take n bytes h.1)

pub raw-Canon : (n : ℕ) → Canon (Reader.raw n) (λ value. value) (IsArray n IsU8)
unfolding Reader.raw
raw-Canon n = record {
  from = λ bytes rest a h e. elim (Bool-cases (ltb (length bytes) n)) [
    | inl short ↦ cc (rw short at e)
    | inr enough ↦
        let same : ◌≡◌ {A = Option (List ℕ × List ℕ)} (some (take n bytes, drop n bytes))
            (some (a, rest)) =
          rw enough at e in
        let value : take n bytes ≡ a = ground arith in
        let left : drop n bytes ≡ rest = ground arith in
        (
          rw (← value, ← left) (sym (take-append-drop n bytes)),
          rw (← value) (
            omega (arith, length-take n bytes, leb_of_not_ltb (length bytes) n enough),
            All-take n bytes h,
          ),
          rw (← left) (All-drop IsU8 n bytes h),
        )
  ];
}

pub token-Canon : Canon Reader.token Writer.token (IsArray 16 IsU8)
unfolding Reader.token Writer.token
token-Canon = raw-Canon 16

-- A string of at most `maximum` bytes.
pub string8-Canon :
    (maximum : ℕ)
    → Canon
        (Reader.string8 maximum)
        Writer.string8
        (λ value. (length value ≤ maximum) × AreBytes value)
unfolding Reader.string8 Writer.string8
string8-Canon maximum = Ends-bind _ u8-Canon λ size hs. Ends-require λ fits. record {
  from = λ bytes rest a h e.
      let (eq, (same, small), left) = (raw-Canon size).from bytes rest a h e in
      (
        rw (eq, same) (sym (append_assoc (Writer.u8 size) a rest)),
        (omega (arith, leb→le size maximum fits), small),
        left,
      );
}

module _ {ℓ κ} {A : Type ℓ} (put : A → List ℕ) (get : Reader A) (P : A → Type κ) where
  pub array-Canon :
      Canon get put P → (n : ℕ) → Canon (Reader.array n get) (Writer.array put) (IsArray n P)
  unfolding Reader.array Writer.array
  array-Canon each zero = Ends-pure [] refl (refl, tt)
  array-Canon each (suc n) = Ends-bind _ each λ a p.
      Ends-bind _ (array-Canon each n) λ items q. Ends-pure (a ∷ items) refl (ap suc q.0, (p, q.1))
