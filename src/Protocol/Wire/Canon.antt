-- ===== src/Protocol/Wire/Canon.antt =====
-- The other direction: what a reader accepts is what the writer of its value would have written.
use ht2mp.Prelude.{
  ℕ, ◌≡◌, refl, sym, ◌∙◌, ap, Bool, true, false, Option, none, some, List, [], ◌++◌, append_assoc,
  subst, arith,
}
use ht2mp.Protocol.Ranges.{AreBytes}
use ht2mp.Protocol.Reader.{Reader, ◌>>=◌, ◌>>◌, pure, require}

-- A block that has read `before` returns a value whose encoding begins with `before`, goes on with
-- the bytes read since, and is followed by what is left.
pub record Ends {ℓ κ} {A : Type ℓ} (r : Reader A) (before : List ℕ) (write : A → List ℕ)
    (P : A → Type κ) : Type (ℓ ⊔ κ) where
  pub from :
      (bytes rest : List ℕ) (a : A)
      → AreBytes bytes
      → r bytes ≡ some (a, rest)
      → (before ++ bytes ≡ write a ++ rest) × P a × AreBytes rest

abbrev pub Canon {ℓ κ} : {A : Type ℓ} → Reader A → (A → List ℕ) → (A → Type κ) → Type (ℓ ⊔ κ)
Canon r write P = Ends r [] write P

pub Ends-pure {ℓ κ} :
    {A : Type ℓ} {before : List ℕ} {write : A → List ℕ} {P : A → Type κ} (a : A)
    → before ≡ write a
    → P a
    → Ends (pure a) before write P
unfolding pure
Ends-pure {before} {write} {P} a e p = record {
  from = λ bytes rest b h eq.
      let value : a ≡ b = ground arith in
      let left : bytes ≡ rest = ground arith in
      (rw (e, value, left), subst P value p, subst AreBytes left h);
}

pub Ends-require {ℓ κ} :
    {A : Type ℓ} {b : Bool} {k : Reader A} {before : List ℕ} {write : A → List ℕ} {P : A → Type κ}
    → (b ≡ true → Ends k before write P)
    → Ends (require b >> k) before write P
unfolding ◌>>◌ ◌>>=◌ require
Ends-require {b = true} h = record { from = λ bytes rest a bs e. (h refl).from bytes rest a bs e }
Ends-require {b = false} h = record { from = λ bytes rest a bs e. cc }

-- Inversion of a read that went on to a result.
module _ {ℓ κ} {A : Type ℓ} {B : Type κ} where
  abbrev Went : Option (A × List ℕ) → (A → Reader B) → B × List ℕ → Type (ℓ ⊔ κ)
  Went o f x = (a : A) × (middle : List ℕ) × (o ≡ some (a, middle)) × (f a middle ≡ some x)

  went :
      (o : Option (A × List ℕ)) (f : A → Reader B) (x : B × List ℕ)
      → (elim o [ none ↦ none | some (a, rest) ↦ f a rest ]) ≡ some x
      → Went o f x
  went none f x e = cc
  went (some (a, middle)) f x e = (a, middle, refl, e)

  pub >>=-inv :
      (r : Reader A) (f : A → Reader B) (bytes : List ℕ) (x : B × List ℕ)
      → (r >>= f) bytes ≡ some x
      → Went (r bytes) f x
  unfolding ◌>>=◌
  >>=-inv r f bytes x e = went (r bytes) f x e

pub Ends-bind {ℓ κ μ ν} :
    {A : Type ℓ} {B : Type κ} {r : Reader A} {write_first : A → List ℕ} {Q : A → Type μ}
    (f : A → Reader B) {before : List ℕ} {write : B → List ℕ} {P : B → Type ν}
    → Canon r write_first Q
    → ((a : A) → Q a → Ends (f a) (before ++ write_first a) write P)
    → Ends (r >>= f) before write P
Ends-bind {r} {write_first} f {before} {write} c k = record {
  from = λ bytes rest b h e.
      let (a, middle, first, next) = >>=-inv r f bytes (b, rest) e in
      let (eq, q, hm) = c.from bytes middle a h first in
      let (eq', p, hr) = (k a q).from middle rest b hm next in
      (ap (◌++◌ before) eq ∙ sym (append_assoc before (write_first a) middle) ∙ eq', p, hr);
}
