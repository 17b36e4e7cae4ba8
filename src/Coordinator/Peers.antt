-- ===== src/Coordinator/Peers.antt =====
-- The peers of a session: std::unordered_map<ConnectionId, Peer> of apps/coordinator/session.hpp.
-- The order of its iteration is unspecified; here it is newest first.
use ht2mp.Prelude.{
  ℕ, ◌≤◌, ◌≡◌, refl, ◌≢◌, Bool, true, false, Option, none, some, List, [], ◌∷◌, map, length, All,
  arith, ◌==◌, if◌then◌else◌, Bool-cases, inl, inr, ==_iff, sym, ◌∙◌,
}
pub use ht2mp.Prelude.{UniqueBy}

module _ {ℓ} {V : Type ℓ} where
  unfoldable pub find : ℕ → List (ℕ × V) → Option V
  find key [] = none
  find key ((k, v) ∷ entries) = if k == key then some v else find key entries

  unfoldable pub erase : ℕ → List (ℕ × V) → List (ℕ × V)
  erase key [] = []
  erase key ((k, v) ∷ entries) = if k == key then entries else (k, v) ∷ erase key entries

  -- Assignment through the iterator that `find` returned.
  unfoldable pub assign : ℕ → V → List (ℕ × V) → List (ℕ × V)
  assign key w [] = []
  assign key w ((k, v) ∷ entries) =
      if k == key then (k, w) ∷ entries else (k, v) ∷ assign key w entries

  abbrev pub is_some : Option V → Bool
  is_some none = false
  is_some (some v) = true

  unfoldable pub contains : ℕ → List (ℕ × V) → Bool
  contains key entries = is_some (find key entries)

  abbrev pub keys : List (ℕ × V) → List ℕ
  keys = map (λ e. e.0)

module _ {ℓ κ} {V : Type ℓ} (P : ℕ × V → Type κ) where
  pub find-All :
      (key : ℕ) (entries : List (ℕ × V)) {v : V}
      → All P entries
      → find key entries ≡ some v
      → P (key, v)
  unfolding find
  find-All key [] h e = cc
  find-All key ((k, w) ∷ entries) {v} h e = elim (Bool-cases (k == key)) [
    | inl hit ↦
        let at : k ≡ key = (==_iff k key).0 hit in
        let same : w ≡ v = ground (arith, hit) in rw (← at, ← same) h.0
    | inr miss ↦ find-All key entries h.1 (ground (arith, miss))
  ]

  pub erase-All : (key : ℕ) (entries : List (ℕ × V)) → All P entries → All P (erase key entries)
  unfolding erase
  erase-All key [] h = tt
  erase-All key ((k, v) ∷ entries) h = ground (arith, erase-All key entries h.1)

  pub assign-All :
      (key : ℕ) (w : V) (entries : List (ℕ × V))
      → P (key, w)
      → All P entries
      → All P (assign key w entries)
  unfolding assign
  assign-All key w [] p h = tt
  assign-All key w ((k, v) ∷ entries) p h = elim (Bool-cases (k == key)) [
    | inl hit ↦ let at : k ≡ key = (==_iff k key).0 hit in rw hit (rw at p, h.1)
    | inr miss ↦ rw miss (h.0, assign-All key w entries p h.1)
  ]

module _ {ℓ} {V : Type ℓ} where
  pub find-none :
      (key : ℕ) (entries : List (ℕ × V)) → find key entries ≡ none → All (λ e. e.0 ≢ key) entries
  unfolding find
  find-none key [] e = tt
  find-none key ((k, v) ∷ entries) e = ground (arith, find-none key entries)

  pub length-assign :
      (key : ℕ) (w : V) (entries : List (ℕ × V)) → length (assign key w entries) ≡ length entries
  unfolding assign
  length-assign key w [] = refl
  length-assign key w ((k, v) ∷ entries) = ground (arith, length-assign key w entries)

  pub length-erase :
      (key : ℕ) (entries : List (ℕ × V)) → length (erase key entries) ≤ length entries
  unfolding erase
  length-erase key [] = omega arith
  length-erase key ((k, v) ∷ entries) = ground (arith, length-erase key entries)

module _ {ℓ κ} {V : Type ℓ} {K : Type κ} (f : ℕ × V → K) where
  pub erase-UniqueBy :
      (key : ℕ) (entries : List (ℕ × V)) → UniqueBy f entries → UniqueBy f (erase key entries)
  unfolding erase
  erase-UniqueBy key [] h = tt
  erase-UniqueBy key ((k, v) ∷ entries) h =
      ground
        (arith, erase-UniqueBy key entries h.1, erase-All (λ b. f b ≢ f (k, v)) key entries h.0)

  -- An assignment that keeps what `f` reads of the entry.
  pub assign-UniqueBy :
      (key : ℕ) (w v : V) (entries : List (ℕ × V))
      → find key entries ≡ some v
      → f (key, w) ≡ f (key, v)
      → UniqueBy f entries
      → UniqueBy f (assign key w entries)
  unfolding assign find
  assign-UniqueBy key w v [] found same h = tt
  assign-UniqueBy key w v ((k, u) ∷ entries) found same h = elim (Bool-cases (k == key)) [
    | inl hit ↦
        let at : k ≡ key = (==_iff k key).0 hit in
        let old : u ≡ v = ground (arith, hit) in
        let kept : f (k, w) ≡ f (k, u) = rw (at, old) same in rw (hit, kept) h
    | inr miss ↦
        let later : find key entries ≡ some v = ground (arith, miss) in
        let apart = find-All (λ b. f b ≢ f (k, u)) key entries h.0 later in
        rw miss (
          assign-All (λ b. f b ≢ f (k, u)) key w entries (λ e. apart (sym same ∙ e)) h.0,
          assign-UniqueBy key w v entries later same h.1,
        )
  ]

module _ {ℓ} {V : Type ℓ} where
  -- An assignment to an entry that is there: the same keys, and the new value.
  pub find-assign :
      (k key : ℕ) (w v : V) (entries : List (ℕ × V))
      → find key entries ≡ some v
      → find k (assign key w entries) ≡ (if k == key then some w else find k entries)
  unfolding find assign
  find-assign k key w v [] e = cc
  find-assign k key w v ((c, u) ∷ entries) e = ground (arith, find-assign k key w v entries)

  pub find-absent :
      (key : ℕ) (entries : List (ℕ × V)) → All (λ e. e.0 ≢ key) entries → find key entries ≡ none
  unfolding find
  find-absent key [] h = refl
  find-absent key ((k, v) ∷ entries) h = ground (arith, find-absent key entries h.1)

  pub find-erase :
      (k key : ℕ) (entries : List (ℕ × V))
      → UniqueBy (λ e. e.0) entries
      → find k (erase key entries) ≡ (if k == key then none else find k entries)
  unfolding find erase
  find-erase k key [] u = ground arith
  find-erase k key ((c, v) ∷ entries) u =
      ground (arith, find-erase k key entries u.1, find-absent c entries u.0, ==_iff k c)
