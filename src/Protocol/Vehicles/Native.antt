-- ===== src/Protocol/Vehicles/Native.antt =====
-- The selectors of the network and those of the game name the same vehicles and paints.
use ht2mp.Prelude.{
  ℕ, ◌+◌, ◌-◌, ◌%◌, ◌^◌, ◌≤◌, ◌<◌, ◌≡◌, ◌↔◌, refl, sym, ◌∙◌, subst, arith, Bool, true, false, none,
  some, leb, ◌==◌, Bool-cases, Option-cases, inl, inr,
}
use ht2mp.Protocol.Vehicles.{
  CatalogEntry, NativeAppearance, steam_vehicles, find_vehicle, covers,
  find_steam_vehicle_by_selector, to_steam_native_vehicle, find_steam_vehicle_by_native_selector,
}
use ht2mp.Protocol.Vehicles.Lookup.{
  InBounds, find_vehicle-All, find_vehicle-Exclusive, steam-InBounds, covers-Exclusive,
}

-- What the game has for a vehicle of the network in a paint.
pub record Names (selector paint : ℕ) (native : NativeAppearance) : Type 0 where
  pub vehicle : CatalogEntry
  pub by_selector : find_steam_vehicle_by_selector selector ≡ some vehicle
  pub by_native : find_steam_vehicle_by_native_selector native.selector ≡ some (vehicle, paint)
  pub same_paint : native.paint_variant ≡ paint
  pub same_index : native.vehicle_tech_index ≡ vehicle.vehicle_tech_index

by_native_selector :
    (v : CatalogEntry) (test : CatalogEntry → Bool) (paint n : ℕ)
    → n ≡ (v.native_selector + paint) % 2 ^ 16
    → find_vehicle test steam_vehicles ≡ some v
    → paint < v.native_paint_count
    → find_steam_vehicle_by_native_selector n ≡ some (v, paint)
unfolding find_steam_vehicle_by_native_selector covers
by_native_selector v test paint n is e small =
    let (bounds, t) = find_vehicle-All InBounds test steam_vehicles v steam-InBounds e in
    let (low, high, few) = bounds in
    let covered : covers n v ≡ true = ground (arith, small, is, high) in
    let found =
      find_vehicle-Exclusive test (covers n) steam_vehicles v (covers-Exclusive n) e covered in
    let back : (n - v.native_selector) % 2 ^ 8 ≡ paint = omega arith in
    rw (find_steam_vehicle_by_native_selector, found, back) refl

native_of :
    (selector paint : ℕ) (v : CatalogEntry)
    → find_steam_vehicle_by_selector selector ≡ some v
    → paint < v.native_paint_count
    → to_steam_native_vehicle selector paint
      ≡ some (record {
        selector = (v.native_selector + paint) % 2 ^ 16;
        paint_variant = paint;
        vehicle_tech_index = v.vehicle_tech_index;
      })
unfolding to_steam_native_vehicle
native_of selector paint v e small =
    let within : leb v.native_paint_count paint ≡ false = ground (arith, small) in
    rw (to_steam_native_vehicle, e, within) refl

to-Names :
    (selector paint : ℕ) (native : NativeAppearance)
    → to_steam_native_vehicle selector paint ≡ some native
    → Names selector paint native
unfolding to_steam_native_vehicle
to-Names selector paint native e = elim (Option-cases (find_steam_vehicle_by_selector selector)) [
  | inl unknown ↦
      let fails : none ≡ some native = rw (to_steam_native_vehicle, unknown) at e in absurd cc
  | inr (v, found) ↦ elim (Bool-cases (leb v.native_paint_count paint)) [
    | inl beyond ↦
        let fails : none ≡ some native = rw (to_steam_native_vehicle, found, beyond) at e in
        absurd cc
    | inr within ↦
        let small : paint < v.native_paint_count = ground (arith, within) in
        let made = sym (native_of selector paint v found small) ∙ e in
        let names : some (record {
          selector = (v.native_selector + paint) % 2 ^ 16;
          paint_variant = paint;
          vehicle_tech_index = v.vehicle_tech_index;
        })
            ≡ some native =
          made in
        let same : record {
          selector = (v.native_selector + paint) % 2 ^ 16;
          paint_variant = paint;
          vehicle_tech_index = v.vehicle_tech_index;
        }
            ≡ native =
          cc in
        subst (Names selector paint) same (record {
          vehicle = v;
          by_selector = found;
          by_native =
              by_native_selector v (λ w. w.selector == selector) paint _ refl
                (unfold find_steam_vehicle_by_selector in found) small;
          same_paint = refl;
          same_index = refl;
        })
  ]
]

-- What the search by a native selector says of it.
native_selector_is :
    (n paint : ℕ) (v : CatalogEntry)
    → find_steam_vehicle_by_native_selector n ≡ some (v, paint)
    → (n ≡ v.native_selector + paint) × (paint < v.native_paint_count) × (n < 2 ^ 16)
unfolding find_steam_vehicle_by_native_selector covers
native_selector_is n paint v e = elim (Option-cases (find_vehicle (covers n) steam_vehicles)) [
  | inl nobody ↦
      let fails : none ≡ some (v, paint) =
        rw (find_steam_vehicle_by_native_selector, nobody) at e in
      absurd cc
  | inr (w, found) ↦
      let (bounds, covered) =
        find_vehicle-All InBounds (covers n) steam_vehicles w steam-InBounds found in
      let names : some (w, (n - w.native_selector) % 2 ^ 8) ≡ some (v, paint) =
        rw (find_steam_vehicle_by_native_selector, found) at e in
      let same : w ≡ v = cc in
      let same_paint : (n - w.native_selector) % 2 ^ 8 ≡ paint = cc in
      let low : w.native_selector ≤ n = ground (arith, covered) in
      let high : n < w.native_selector + w.native_paint_count = ground (arith, covered) in
      subst (λ x. (n ≡ x.native_selector + paint) × (paint < x.native_paint_count) × (n < 2 ^ 16))
        same
        (
          omega (arith, low, high, same_paint, bounds.1, bounds.2),
          omega (arith, low, high, same_paint, bounds.1, bounds.2),
          omega (arith, high, bounds.1),
        )
]

from-Names :
    (selector paint : ℕ) (native : NativeAppearance)
    → Names selector paint native
    → to_steam_native_vehicle selector paint ≡ some native
from-Names selector paint native h =
    let (is, small, word) = native_selector_is native.selector paint h.vehicle h.by_native in
    let n : (h.vehicle.native_selector + paint) % 2 ^ 16 ≡ native.selector =
      omega (arith, is, word) in
    native_of selector paint h.vehicle h.by_selector small
    ∙ rw (n, ← h.same_paint, ← h.same_index) refl

-- A selector of the network in a paint gets a native vehicle exactly if the selector names an
-- entry of the catalogue and the search by the native selector gives back this entry and this
-- paint, which the native vehicle has, with the entry's index.
pub to_steam_native_vehicle_lem :
    (selector paint : ℕ) (native : NativeAppearance)
    → (to_steam_native_vehicle selector paint ≡ some native) ↔ Names selector paint native
to_steam_native_vehicle_lem selector paint native =
    (to-Names selector paint native, from-Names selector paint native)
