-- ===== src/Tests/Vehicles.antt =====
-- The catalogue at the third paint of the KamAZ.
use ht2mp.Prelude.{ℕ, [], ◌∷◌, ◌≡◌, ◌↔◌, ◌⊎◌, refl, true, some, bytes_eq_refl}
use ht2mp.Prelude.Text.{text}
use ht2mp.Protocol.Validation.Fields.{ProfileLimits, default_limits, valid, validate_vehicle}
use ht2mp.Protocol.Vehicles.{
  NativeAppearance, find_vehicle, find_steam_vehicle_by_selector, to_steam_native_vehicle,
  is_allowed_steam_vehicle, limits_for_profile,
}
use ht2mp.Protocol.Vehicles.Native.{Names, to_steam_native_vehicle_lem}
use ht2mp.Protocol.Vehicles.Limits.{limits_for_profile_lem}

abbrev kamaz : NativeAppearance
kamaz = record { selector = 73; paint_variant = 2; vehicle_tech_index = 19 }

to_steam_native_vehicle_lem_example : (to_steam_native_vehicle 81 2 ≡ some kamaz) ↔ Names 81 2 kamaz
to_steam_native_vehicle_lem_example = to_steam_native_vehicle_lem 81 2 kamaz

kamaz_found : to_steam_native_vehicle 81 2 ≡ some kamaz
unfolding to_steam_native_vehicle find_steam_vehicle_by_selector find_vehicle
kamaz_found = refl

abbrev gog : ProfileLimits
gog = record default_limits { max_vehicle_type = 0; allowed_vehicle_types = 0 ∷ [] }

abbrev default_vehicle : ℕ
default_vehicle = 0

gog_known : limits_for_profile (text "gog-05588140") ≡ some gog
unfolding limits_for_profile
gog_known = rw (bytes_eq_refl (text "gog-05588140")) refl

limits_for_profile_lem_example :
    ((text "gog-05588140" ≡ text "gog-05588140")
      × ((validate_vehicle default_vehicle gog ≡ valid) ↔ (default_vehicle ≡ 0)))
    ⊎ ((text "gog-05588140" ≡ text "steam-8138acee")
        × ((validate_vehicle default_vehicle gog ≡ valid)
            ↔ (is_allowed_steam_vehicle default_vehicle ≡ true)))
limits_for_profile_lem_example =
    limits_for_profile_lem (text "gog-05588140") gog default_vehicle gog_known
