-- ===== src/Protocol/Vehicles/Limits.antt =====
-- The vehicles that a profile admits.
use ht2mp.Prelude.{
  ℕ, ◌≤◌, ◌≡◌, ◌↔◌, ◌⊎◌, refl, sym, ◌∙◌, subst, arith, Bool, true, false, Option, none, some, List,
  [], ◌∷◌, map, any, ltb, ◌==◌, bytes_eq, bytes_eq_sound, length, Bool-cases, Option-cases, inl,
  inr,
}
use ht2mp.Prelude.Text.{text}
use ht2mp.Protocol.Validation.Fields.{ProfileLimits, default_limits, valid, validate_vehicle}
use ht2mp.Protocol.Vehicles.{
  CatalogEntry, steam_vehicles, find_vehicle, find_steam_vehicle_by_selector,
  is_allowed_steam_vehicle, limits_for_profile,
}
use ht2mp.Protocol.Vehicles.Lookup.{find_vehicle-All, InBounds, steam-InBounds}

is_some : Option CatalogEntry → Bool
is_some found = elim found [ none ↦ false | some v ↦ true ]

any-map :
    (value : ℕ) (vehicles : List CatalogEntry)
    → any (λ allowed. allowed == value) (map (λ vehicle. vehicle.selector) vehicles)
      ≡ is_some (find_vehicle (λ vehicle. vehicle.selector == value) vehicles)
unfolding find_vehicle is_some
any-map value [] = refl
any-map value (v ∷ vehicles) = elim (Bool-cases (v.selector == value)) [
  | inl here ↦ rw here refl
  | inr there ↦ rw (there, any-map value vehicles) refl
]

-- The limits of the two profiles.
abbrev gog_limits : ProfileLimits
gog_limits = record default_limits { max_vehicle_type = 0; allowed_vehicle_types = 0 ∷ [] }

abbrev steam_limits : ProfileLimits
steam_limits = record default_limits {
  max_vehicle_type = 87;
  allowed_vehicle_types = map (λ vehicle. vehicle.selector) steam_vehicles;
}

-- A profile with a list admits what is in it, up to its maximum.
validate_vehicle_lem :
    (value : ℕ) (limits : ProfileLimits)
    → (length limits.allowed_vehicle_types == 0) ≡ false
    → (validate_vehicle value limits ≡ valid) ↔ (
        (value ≤ limits.max_vehicle_type)
        × (any (λ allowed. allowed == value) limits.allowed_vehicle_types ≡ true))
unfolding validate_vehicle
validate_vehicle_lem value limits some_listed =
    elim (Bool-cases (ltb limits.max_vehicle_type value)) [
      | inl beyond ↦
          rw (validate_vehicle, beyond)
            ((λ e. absurd cc), (λ h. absurd (ground (arith, beyond, h.0))))
      | inr within ↦
          elim (Bool-cases (any (λ allowed. allowed == value) limits.allowed_vehicle_types)) [
            | inl listed ↦
                rw (validate_vehicle, within, some_listed, listed)
                  ((λ e. (ground (arith, within), refl)), (λ h. refl))
            | inr unlisted ↦
                rw (validate_vehicle, within, some_listed, unlisted)
                  ((λ e. absurd cc), (λ h. absurd (ground (arith, h.1))))
          ]
    ]

gog_vehicle : (value : ℕ) → (validate_vehicle value gog_limits ≡ valid) ↔ (value ≡ 0)
gog_vehicle value =
    let (forth, back) = validate_vehicle_lem value gog_limits refl in
    ((λ e. omega (arith, (forth e).0)), (λ e. back (omega arith, rw e refl)))

-- An entry is found exactly if its selector is listed.
allowed_lem :
    (value : ℕ)
    → is_allowed_steam_vehicle value
      ≡ any (λ allowed. allowed == value) (map (λ vehicle. vehicle.selector) steam_vehicles)
unfolding is_allowed_steam_vehicle find_steam_vehicle_by_selector is_some
allowed_lem value = sym (any-map value steam_vehicles)

small_selector : (value : ℕ) → is_allowed_steam_vehicle value ≡ true → value ≤ 87
unfolding is_allowed_steam_vehicle find_steam_vehicle_by_selector
small_selector value h =
    elim (Option-cases (find_vehicle (λ vehicle. vehicle.selector == value) steam_vehicles)) [
      | inl unknown ↦
          let fails : false ≡ true = rw (is_allowed_steam_vehicle, unknown) at h in absurd cc
      | inr (v, found) ↦
          let (bounds, same) =
            find_vehicle-All InBounds (λ vehicle. vehicle.selector == value) steam_vehicles v
              steam-InBounds found in
          ground (arith, bounds.0, same)
    ]

steam_vehicle :
    (value : ℕ)
    → (validate_vehicle value steam_limits ≡ valid) ↔ (is_allowed_steam_vehicle value ≡ true)
steam_vehicle value =
    let (forth, back) = validate_vehicle_lem value steam_limits refl in
    (
      (λ e. allowed_lem value ∙ (forth e).1),
      (λ h. back (small_selector value h, sym (allowed_lem value) ∙ h)),
    )

-- If a profile has limits, it is the GOG profile, and its limits admit the vehicle type 0 alone,
-- or the Steam profile, and its limits admit exactly the selectors of the catalogue.
pub limits_for_profile_lem :
    (profile_id : List ℕ) (limits : ProfileLimits) (value : ℕ)
    → limits_for_profile profile_id ≡ some limits
    → ((profile_id ≡ text "gog-05588140") × ((validate_vehicle value limits ≡ valid) ↔ (value ≡ 0)))
      ⊎ ((profile_id ≡ text "steam-8138acee")
          × ((validate_vehicle value limits ≡ valid) ↔ (is_allowed_steam_vehicle value ≡ true)))
unfolding limits_for_profile
limits_for_profile_lem profile_id limits value e =
    elim (Bool-cases (bytes_eq profile_id (text "gog-05588140"))) [
      | inl gog ↦
          let found : some gog_limits ≡ some limits = rw (limits_for_profile, gog) at e in
          let same : gog_limits ≡ limits = cc in
          inl (
            bytes_eq_sound profile_id (text "gog-05588140") gog,
            subst (λ l. (validate_vehicle value l ≡ valid) ↔ (value ≡ 0)) same (gog_vehicle value),
          )
      | inr other ↦ elim (Bool-cases (bytes_eq profile_id (text "steam-8138acee"))) [
        | inl steam ↦
            let found : some steam_limits ≡ some limits =
              rw (limits_for_profile, other, steam) at e in
            let same : steam_limits ≡ limits = cc in
            inr (
              bytes_eq_sound profile_id (text "steam-8138acee") steam,
              subst
                  (λ l.
                    (validate_vehicle value l ≡ valid) ↔ (is_allowed_steam_vehicle value ≡ true))
                  same (steam_vehicle value),
            )
        | inr neither ↦
            let fails : none ≡ some limits = rw (limits_for_profile, other, neither) at e in
            absurd cc
      ]
    ]
