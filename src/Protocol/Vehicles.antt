-- ===== src/Protocol/Vehicles.antt =====
-- src/protocol/vehicle_catalog.cpp and vehicle_catalog.hpp, and limits_for_profile of
-- src/protocol/validation.cpp. A pointer into the catalogue is the entry or none.
pub mod Lookup
pub mod Native
pub mod Limits
use ht2mp.Prelude.{
  ℕ, ◌+◌, ◌-◌, ◌%◌, ◌^◌, Bool, true, false, not, ◌&&◌, Option, none, some, List, [], ◌∷◌, map, ltb,
  leb, ◌==◌, if◌then◌else◌, bytes_eq,
}
use ht2mp.Prelude.Text.{text}
use ht2mp.Protocol.Validation.Fields.{ProfileLimits, default_limits}

pub data VehicleCategory : Type 0 where
  passenger_or_special rigid_truck : VehicleCategory

pub record CatalogEntry : Type 0 where
  pub key : List ℕ
  pub display_name : List ℕ
  pub selector : ℕ
  pub category : VehicleCategory
  pub native_selector : ℕ
  pub native_paint_count : ℕ
  pub vehicle_tech_index : ℕ

pub record NativeAppearance : Type 0 where
  pub selector : ℕ
  pub paint_variant : ℕ
  pub vehicle_tech_index : ℕ

abbrev entry : List ℕ → List ℕ → ℕ → VehicleCategory → ℕ → ℕ → ℕ → CatalogEntry
entry key display_name selector category native_selector native_paint_count vehicle_tech_index =
    record {
      key = key;
      display_name = display_name;
      selector = selector;
      category = category;
      native_selector = native_selector;
      native_paint_count = native_paint_count;
      vehicle_tech_index = vehicle_tech_index;
    }

-- kSteamVehicles.
abbrev pub steam_vehicles : List CatalogEntry
steam_vehicles =
    entry (text "Gazelle") (text "Gazelle") 62 passenger_or_special 44 4 0
    ∷ entry (text "Gazelle1C") (text "Gazelle 1C") 63 passenger_or_special 48 1 1
    ∷ entry (text "Offroad") (text "Offroad") 64 passenger_or_special 40 2 2
    ∷ entry (text "Pickup") (text "Pickup") 65 passenger_or_special 42 2 3
    ∷ entry (text "Patrol") (text "Patrol") 66 passenger_or_special 36 4 4
    ∷ entry (text "Cayman") (text "Cayman") 67 passenger_or_special 49 4 5
    ∷ entry (text "BmwM5") (text "BMW M5") 68 passenger_or_special 55 4 6
    ∷ entry (text "BmwM5police") (text "BMW M5 Police") 69 passenger_or_special 54 1 7
    ∷ entry (text "Bus") (text "Bus") 70 passenger_or_special 12 4 8
    ∷ entry (text "Marera") (text "Marera") 71 passenger_or_special 16 4 9
    ∷ entry (text "Megan") (text "Megan") 72 passenger_or_special 20 4 10
    ∷ entry (text "Mini") (text "Mini") 73 passenger_or_special 24 4 11
    ∷ entry (text "Oka") (text "Oka") 74 passenger_or_special 28 4 12
    ∷ entry (text "Van") (text "Van") 75 passenger_or_special 32 4 13
    ∷ entry (text "Avensis") (text "Avensis") 76 passenger_or_special 8 4 14
    ∷ entry (text "Volga") (text "Volga") 77 passenger_or_special 4 4 15
    ∷ entry (text "Fiat") (text "Fiat") 78 passenger_or_special 0 4 16
    ∷ entry (text "Sobol") (text "Sobol") 79 passenger_or_special 59 4 17
    ∷ entry (text "ScaniaR") (text "Scania (rigid)") 80 rigid_truck 67 4 18
    ∷ entry (text "KamazR") (text "KamAZ (rigid)") 81 rigid_truck 71 4 19
    ∷ entry (text "RenaultR") (text "Renault (rigid)") 82 rigid_truck 75 4 20
    ∷ entry (text "ZilR") (text "ZIL (rigid)") 83 rigid_truck 63 4 21
    ∷ entry (text "MercedesR") (text "Mercedes-Benz (rigid)") 84 rigid_truck 79 4 22
    ∷ entry (text "VolvoR") (text "Volvo (rigid)") 85 rigid_truck 83 4 23
    ∷ entry (text "DafR") (text "DAF (rigid)") 86 rigid_truck 87 4 24
    ∷ entry (text "StormR") (text "Storm (rigid)") 87 rigid_truck 91 4 25
    ∷ []

-- std::find_if over the catalogue.
unfoldable pub find_vehicle : (CatalogEntry → Bool) → List CatalogEntry → Option CatalogEntry
find_vehicle test [] = none
find_vehicle test (vehicle ∷ vehicles) =
    let rest = find_vehicle test vehicles in if test vehicle then some vehicle else rest

unfoldable pub find_steam_vehicle_by_key : List ℕ → Option CatalogEntry
find_steam_vehicle_by_key key = find_vehicle (λ vehicle. bytes_eq vehicle.key key) steam_vehicles

unfoldable pub find_steam_vehicle_by_selector : ℕ → Option CatalogEntry
find_steam_vehicle_by_selector selector =
    find_vehicle (λ vehicle. vehicle.selector == selector) steam_vehicles

unfoldable pub is_allowed_steam_vehicle : ℕ → Bool
is_allowed_steam_vehicle selector = elim (find_steam_vehicle_by_selector selector) [
  | none ↦ false
  | some vehicle ↦ true
]

-- `none`: false, with `native` reset.
unfoldable pub to_steam_native_vehicle : ℕ → ℕ → Option NativeAppearance
to_steam_native_vehicle network_selector paint_variant =
    elim (find_steam_vehicle_by_selector network_selector) [
      | none ↦ none
      | some vehicle ↦
          if leb vehicle.native_paint_count paint_variant
          then none
          else some (record {
            selector = (vehicle.native_selector + paint_variant) % 2 ^ 16;
            paint_variant = paint_variant;
            vehicle_tech_index = vehicle.vehicle_tech_index;
          })
    ]

unfoldable pub covers : ℕ → CatalogEntry → Bool
covers native_selector vehicle =
    leb vehicle.native_selector native_selector
    && ltb native_selector (vehicle.native_selector + vehicle.native_paint_count)

-- The entry and the paint variant.
unfoldable pub find_steam_vehicle_by_native_selector : ℕ → Option (CatalogEntry × ℕ)
find_steam_vehicle_by_native_selector native_selector =
    elim (find_vehicle (covers native_selector) steam_vehicles) [
      | none ↦ none
      | some vehicle ↦ some (vehicle, (native_selector - vehicle.native_selector) % 2 ^ 8)
    ]

unfoldable pub limits_for_profile : List ℕ → Option ProfileLimits
limits_for_profile profile_id =
    if not (bytes_eq profile_id (text "gog-05588140"))
      && not (bytes_eq profile_id (text "steam-8138acee"))
    then none
    else if bytes_eq profile_id (text "gog-05588140")
    then some (record default_limits { max_vehicle_type = 0; allowed_vehicle_types = 0 ∷ [] })
    else some (record default_limits {
      max_vehicle_type = 87;
      allowed_vehicle_types = map (λ vehicle. vehicle.selector) steam_vehicles;
    })
