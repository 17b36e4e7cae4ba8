-- ===== src/Protocol/Writer.antt =====
-- The Writer of src/protocol/codec.cpp. Each function gives the bytes that the method appends to
-- `bytes_`; a function that makes several calls appends their pieces in order.
use Prim.Native.Nat.{bit_or}
use ht2mp.Prelude.{ℕ, ◌*◌, ◌/◌, ◌%◌, ◌^◌, List, [], ◌∷◌, ◌++◌, length, ◌==◌, if◌then◌else◌}
use ht2mp.Protocol.Types.{Vec3, Quat, WorldLocation, VehicleState, EnvironmentState, PlayerState}

-- The calls of a function, one after the other.
abbrev pub written : List (List ℕ) → List ℕ
written [] = []
written (piece ∷ pieces) = piece ++ written pieces

unfoldable pub u8 : ℕ → List ℕ
u8 value = value % 2 ^ 8 ∷ []

unfoldable pub u16 : ℕ → List ℕ
u16 value = u8 value ++ u8 (value / 2 ^ 8)

unfoldable pub u32 : ℕ → List ℕ
u32 value = u16 (value % 2 ^ 16) ++ u16 (value / 2 ^ 16 % 2 ^ 16)

unfoldable pub u64 : ℕ → List ℕ
u64 value = u32 (value % 2 ^ 32) ++ u32 (value / 2 ^ 32 % 2 ^ 32)

-- std::bit_cast to the pattern, which is the value itself here.
unfoldable pub i32 : ℕ → List ℕ
i32 value = u32 value

unfoldable pub f32 : ℕ → List ℕ
f32 value = u32 value

unfoldable pub f64 : ℕ → List ℕ
f64 value = u64 value

unfoldable pub token : List ℕ → List ℕ
token value = value

-- The loop writes each character as it is.
unfoldable pub string8 : List ℕ → List ℕ
string8 value = u8 (length value) ++ value

-- `for (auto item : array) writer.put(item)`.
unfoldable pub array {ℓ} : {A : Type ℓ} → (A → List ℕ) → List A → List ℕ
array put [] = []
array put (item ∷ items) = put item ++ array put items

unfoldable pub write_vec3d : Vec3 → List ℕ
write_vec3d v = written (f64 v.x ∷ f64 v.y ∷ f64 v.z ∷ [])

unfoldable pub write_vec3f : Vec3 → List ℕ
write_vec3f v = written (f32 v.x ∷ f32 v.y ∷ f32 v.z ∷ [])

unfoldable pub write_quat : Quat → List ℕ
write_quat q = written (f32 q.x ∷ f32 q.y ∷ f32 q.z ∷ f32 q.w ∷ [])

unfoldable pub write_location : WorldLocation → List ℕ
write_location v = written (
    i32 v.room_id
    ∷ i32 v.road_id
    ∷ i32 v.node_id
    ∷ f64 v.road_distance
    ∷ i32 v.road_segment_vector_id
    ∷ i32 v.road_segment_id
    ∷ i32 v.aux0
    ∷ i32 v.aux1
    ∷ [])

-- The horn's byte: bit 0 is `active`, the tone stands above it.
unfoldable pub horn_flags : ℕ → ℕ → ℕ
horn_flags active tone = bit_or (if active == 0 then 0 else 1) (tone * 2 ^ 1) % 2 ^ 8

unfoldable pub write_vehicle : VehicleState → List ℕ
write_vehicle v = written (
    u8 (if v.valid == 0 then 0 else 1)
    ∷ u8 v.steering
    ∷ array u8 v.lights
    ∷ array f32 v.condition
    ∷ u8 v.wheels.count
    ∷ array f32 v.wheels.radians_per_second
    ∷ u8 (horn_flags v.horn.active v.horn.tone)
    ∷ u16 v.horn.press_sequence
    ∷ [])

unfoldable pub write_environment : EnvironmentState → List ℕ
write_environment e = written (
    u64 e.session_id
    ∷ f64 e.day_hours
    ∷ f64 e.weather_phase
    ∷ f64 e.variation_phase
    ∷ f32 e.day_duration_s
    ∷ f32 e.weather_duration_s
    ∷ f32 e.weather_bias
    ∷ u8 e.weather_preset
    ∷ [])

unfoldable pub write_state : PlayerState → List ℕ
write_state s = written (
    u64 s.session_id
    ∷ u64 s.player_id
    ∷ u64 s.incarnation_id
    ∷ u32 s.sequence
    ∷ u64 s.sample_time_ms
    ∷ u8 s.flags
    ∷ write_vec3d s.position
    ∷ write_quat s.orientation
    ∷ write_vec3f s.linear_velocity
    ∷ write_vec3f s.angular_velocity
    ∷ u16 s.vehicle_type
    ∷ u8 s.paint_variant
    ∷ write_location s.location
    ∷ write_vehicle s.vehicle
    ∷ [])
