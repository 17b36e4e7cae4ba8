-- ===== src/Protocol/Vehicles/Lookup.antt =====
-- The catalogue has one entry for a selector and one for a native selector.
use ht2mp.Prelude.{
  ℕ, ◌+◌, ◌≤◌, ◌≡◌, refl, subst, arith, Bool, true, not, ◌&&◌, ◌||◌, some, List, [], ◌∷◌, all, leb,
  ◌==◌, All, Bool-cases, inl, inr,
}
use ht2mp.Protocol.Vehicles.{CatalogEntry, steam_vehicles, find_vehicle, covers}

-- No two entries pass the test.
abbrev pub Exclusive : (CatalogEntry → Bool) → List CatalogEntry → Type 0
Exclusive test [] = Unit
Exclusive test (v ∷ vehicles) =
    All (λ w. ¬ ((test v ≡ true) × (test w ≡ true))) vehicles × Exclusive test vehicles

pub find_vehicle-All :
    (P : CatalogEntry → Type 0) (test : CatalogEntry → Bool) (vehicles : List CatalogEntry)
    (v : CatalogEntry)
    → All P vehicles
    → find_vehicle test vehicles ≡ some v
    → P v × (test v ≡ true)
unfolding find_vehicle
find_vehicle-All P test [] v h e = absurd cc
find_vehicle-All P test (w ∷ vehicles) v h e = elim (Bool-cases (test w)) [
  | inl here ↦
      let found : some w ≡ some v = rw here at e in
      let same : w ≡ v = cc in subst (λ x. P x × (test x ≡ true)) same (h.0, here)
  | inr there ↦ find_vehicle-All P test vehicles v h.1 (rw there at e)
]

-- An entry that one search finds, and that passes an exclusive test, is what the other finds.
pub find_vehicle-Exclusive :
    (test other : CatalogEntry → Bool) (vehicles : List CatalogEntry) (v : CatalogEntry)
    → Exclusive other vehicles
    → find_vehicle test vehicles ≡ some v
    → other v ≡ true
    → find_vehicle other vehicles ≡ some v
unfolding find_vehicle
find_vehicle-Exclusive test other [] v h e passes = absurd cc
find_vehicle-Exclusive test other (w ∷ vehicles) v h e passes = elim (Bool-cases (test w)) [
  | inl here ↦
      let found : some w ≡ some v = rw here at e in
      let same : w ≡ v = cc in let w_passes : other w ≡ true = rw same passes in rw w_passes found
  | inr there ↦
      let found : find_vehicle test vehicles ≡ some v = rw there at e in
      let (apart, t) =
        find_vehicle-All (λ x. ¬ ((other w ≡ true) × (other x ≡ true))) test vehicles v h.0 found in
      elim (Bool-cases (other w)) [
        | inl both ↦ absurd (apart (both, passes))
        | inr fails ↦ rw fails (find_vehicle-Exclusive test other vehicles v h.1 found passes)
      ]
]

-- What a look at the table shows of two of its entries, and of one.
separate : CatalogEntry → CatalogEntry → Bool
separate v w =
    not (v.selector == w.selector)
    && (leb (v.native_selector + v.native_paint_count) w.native_selector
        || leb (w.native_selector + w.native_paint_count) v.native_selector)

pairwise : List CatalogEntry → Bool
pairwise [] = true
pairwise (v ∷ vehicles) = all (separate v) vehicles && pairwise vehicles

steam_pairwise : pairwise steam_vehicles ≡ true
unfolding pairwise separate
steam_pairwise = refl

-- Selectors up to 87, native ones below 96, at most four paints.
abbrev pub InBounds : CatalogEntry → Type 0
InBounds v =
    (v.selector ≤ 87) × (v.native_selector + v.native_paint_count ≤ 95) × (v.native_paint_count ≤ 4)

in_bounds : CatalogEntry → Bool
in_bounds v =
    leb v.selector 87
    && (leb (v.native_selector + v.native_paint_count) 95 && leb v.native_paint_count 4)

all-All : (vehicles : List CatalogEntry) → all in_bounds vehicles ≡ true → All InBounds vehicles
unfolding in_bounds
all-All [] h = tt
all-All (v ∷ vehicles) h = (
  (ground (arith, h), ground (arith, h), ground (arith, h)),
  all-All vehicles (ground (arith, h)),
)

pub steam-InBounds : All InBounds steam_vehicles
unfolding in_bounds
steam-InBounds = all-All steam_vehicles refl

module _ (test : CatalogEntry → Bool)
    (apart : (v w : CatalogEntry)
      → separate v w ≡ true
      → ¬ ((test v ≡ true) × (test w ≡ true))) where
  separate-All :
      (v : CatalogEntry) (vehicles : List CatalogEntry)
      → all (separate v) vehicles ≡ true
      → All (λ w. ¬ ((test v ≡ true) × (test w ≡ true))) vehicles
  separate-All v [] h = tt
  separate-All v (w ∷ vehicles) h =
      (apart v w (ground (arith, h)), separate-All v vehicles (ground (arith, h)))

  pairwise-Exclusive :
      (vehicles : List CatalogEntry) → pairwise vehicles ≡ true → Exclusive test vehicles
  unfolding pairwise
  pairwise-Exclusive [] h = tt
  pairwise-Exclusive (v ∷ vehicles) h =
      (separate-All v vehicles (ground (arith, h)), pairwise-Exclusive vehicles (ground (arith, h)))

pub covers-Exclusive : (n : ℕ) → Exclusive (covers n) steam_vehicles
unfolding covers separate
covers-Exclusive n = pairwise-Exclusive (covers n) apart steam_vehicles steam_pairwise
  where
    apart :
        (v w : CatalogEntry) → separate v w ≡ true → ¬ ((covers n v ≡ true) × (covers n w ≡ true))
    apart v w h both = absurd (ground (arith, h, both))

pub selector-Exclusive : (n : ℕ) → Exclusive (λ v. v.selector == n) steam_vehicles
unfolding separate
selector-Exclusive n = pairwise-Exclusive (λ v. v.selector == n) apart steam_vehicles steam_pairwise
  where
    apart :
        (v w : CatalogEntry)
        → separate v w ≡ true
        → ¬ (((v.selector == n) ≡ true) × ((w.selector == n) ≡ true))
    apart v w h both = absurd (ground (arith, h, both))
