-- ===== src/Protocol/Wire/Structs.antt =====
-- The structs: what is written is read back, field by field.
use ht2mp.Prelude.{
  ℕ, zero, suc, ◌/◌, ◌^◌, ◌≤◌, ◌≡◌, refl, arith, le→leb, subst, if◌then◌else◌, ◌==◌, List,
}
use Prim.Native.Nat.{bit_and}
use ht2mp.Protocol.Types.{Vec3, Quat, WorldLocation, VehicleState, EnvironmentState, PlayerState}
use ht2mp.Protocol.Ranges.{
  IsU8, IsU32, IsBool, IsArray, Vec3dFits, Vec3fFits, QuatFits, LocationFits, VehicleFits,
  EnvironmentFits, StateFits,
}
use ht2mp.Protocol.Writer
use ht2mp.Protocol.Reader
use ht2mp.Protocol.Reader.{Reader}
use ht2mp.Protocol.Wire.Reads.{Reads, Reads-bind, Reads-pure, Reads-require, Reads-array}
use ht2mp.Protocol.Wire.Words.{
  u8-Reads, u16-Reads, u32-Reads, u64-Reads, i32-Reads, f32-Reads, f64-Reads,
}

pub vec3d-Reads : (v : Vec3) → Vec3dFits v → Reads Reader.read_vec3d (Writer.write_vec3d v) v
unfolding Reader.read_vec3d Writer.write_vec3d
vec3d-Reads v h =
    Reads-bind _ (f64-Reads _ h.x)
      (Reads-bind _ (f64-Reads _ h.y) (Reads-bind _ (f64-Reads _ h.z) (Reads-pure _)))

pub vec3f-Reads : (v : Vec3) → Vec3fFits v → Reads Reader.read_vec3f (Writer.write_vec3f v) v
unfolding Reader.read_vec3f Writer.write_vec3f
vec3f-Reads v h =
    Reads-bind _ (f32-Reads _ h.x)
      (Reads-bind _ (f32-Reads _ h.y) (Reads-bind _ (f32-Reads _ h.z) (Reads-pure _)))

pub quat-Reads : (v : Quat) → QuatFits v → Reads Reader.read_quat (Writer.write_quat v) v
unfolding Reader.read_quat Writer.write_quat
quat-Reads v h = Reads-bind _ (f32-Reads _ h.x) (
    Reads-bind _ (f32-Reads _ h.y)
      (Reads-bind _ (f32-Reads _ h.z) (Reads-bind _ (f32-Reads _ h.w) (Reads-pure _))))

pub location-Reads :
    (v : WorldLocation) → LocationFits v → Reads Reader.read_location (Writer.write_location v) v
unfolding Reader.read_location Writer.write_location
location-Reads v h = Reads-bind _ (i32-Reads _ h.room_id) (
    Reads-bind _ (i32-Reads _ h.road_id) (
      Reads-bind _ (i32-Reads _ h.node_id) (
        Reads-bind _ (f64-Reads _ h.road_distance) (
          Reads-bind _ (i32-Reads _ h.road_segment_vector_id) (
            Reads-bind _ (i32-Reads _ h.road_segment_id) (
              Reads-bind _ (i32-Reads _ h.aux0)
                (Reads-bind _ (i32-Reads _ h.aux1) (Reads-pure _))))))))

pub environment-Reads :
    (v : EnvironmentState)
    → EnvironmentFits v
    → Reads Reader.read_environment (Writer.write_environment v) v
unfolding Reader.read_environment Writer.write_environment
environment-Reads v h = Reads-bind _ (u64-Reads _ h.session_id) (
    Reads-bind _ (f64-Reads _ h.day_hours) (
      Reads-bind _ (f64-Reads _ h.weather_phase) (
        Reads-bind _ (f64-Reads _ h.variation_phase) (
          Reads-bind _ (f32-Reads _ h.day_duration_s) (
            Reads-bind _ (f32-Reads _ h.weather_duration_s) (
              Reads-bind _ (f32-Reads _ h.weather_bias)
                (Reads-bind _ (u8-Reads _ h.weather_preset) (Reads-pure _))))))))

-- A bool is written as 0 or 1 and read back.
pub bool_byte : (b : ℕ) → IsBool b → (if (if b == 0 then 0 else 1) == 0 then 0 else 1) ≡ b
bool_byte zero h = refl
bool_byte (suc zero) h = refl
bool_byte (suc (suc b)) h = absurd (omega arith)

-- What the horn's byte holds.
pub horn_byte :
    (active tone : ℕ)
    → IsBool active
    → tone ≤ 2
    → (Writer.horn_flags active tone ≤ 5)
      × ((if bit_and (Writer.horn_flags active tone) 1 == 0 then 0 else 1) ≡ active)
      × (Writer.horn_flags active tone / 2 ^ 1 ≡ tone)
unfolding Writer.horn_flags
horn_byte zero zero h k = (omega arith, refl, refl)
horn_byte zero (suc zero) h k = (omega arith, refl, refl)
horn_byte zero (suc (suc zero)) h k = (omega arith, refl, refl)
horn_byte zero (suc (suc (suc tone))) h k = absurd (omega arith)
horn_byte (suc zero) zero h k = (omega arith, refl, refl)
horn_byte (suc zero) (suc zero) h k = (omega arith, refl, refl)
horn_byte (suc zero) (suc (suc zero)) h k = (omega arith, refl, refl)
horn_byte (suc zero) (suc (suc (suc tone))) h k = absurd (omega arith)
horn_byte (suc (suc active)) tone h k = absurd (omega arith)

pub array-Reads :
    (put : ℕ → List ℕ) (get : Reader ℕ) (P : ℕ → Type 0) (n : ℕ)
    → ((a : ℕ) → P a → Reads get (put a) a)
    → (items : List ℕ) → IsArray n P items
    → Reads (Reader.array n get) (Writer.array put items) items
array-Reads put get P n each items (e, h) =
    subst (λ k. Reads (Reader.array k get) (Writer.array put items) items) e
      (Reads-array put get P each items h)

-- The value that comes back, before its flags are seen to be the ones written.
abbrev pub reread : VehicleState → VehicleState
reread v =
    let flags = Writer.horn_flags v.horn.active v.horn.tone in
    record v {
      valid = if (if v.valid == 0 then 0 else 1) == 0 then 0 else 1;
      horn = record v.horn { active = if bit_and flags 1 == 0 then 0 else 1; tone = flags / 2 ^ 1 };
    }

pub reread-eq : (v : VehicleState) → VehicleFits v → reread v ≡ v
reread-eq v h =
    let (_, active, tone) = horn_byte v.horn.active v.horn.tone h.active h.tone in
    λ i. record v {
      valid = bool_byte v.valid h.valid i;
      horn = record v.horn { active = active i; tone = tone i };
    }

pub vehicle-Reads :
    (v : VehicleState) → VehicleFits v → Reads Reader.read_vehicle (Writer.write_vehicle v) v
unfolding Reader.read_vehicle Writer.write_vehicle
vehicle-Reads v h = subst (Reads Reader.read_vehicle (Writer.write_vehicle v)) (reread-eq v h) read
  where
    flags : ℕ
    flags = Writer.horn_flags v.horn.active v.horn.tone

    small : flags ≤ 5
    small = (horn_byte v.horn.active v.horn.tone h.active h.tone).0

    valid : ℕ
    valid = if v.valid == 0 then 0 else 1

    bool : valid ≤ 1
    bool = ground arith

    read : Reads Reader.read_vehicle (Writer.write_vehicle v) (reread v)
    read = Reads-bind _ (u8-Reads valid (ground arith)) (
        Reads-require (le→leb valid 1 bool) (
          Reads-bind _ (u8-Reads _ h.steering) (
            Reads-bind _ (array-Reads Writer.u8 Reader.u8 IsU8 4 u8-Reads _ h.lights) (
              Reads-bind _ (array-Reads Writer.f32 Reader.f32 IsU32 49 f32-Reads _ h.condition) (
                Reads-bind _ (u8-Reads _ h.count) (
                  Reads-bind _ (array-Reads Writer.f32 Reader.f32 IsU32 8 f32-Reads _ h.speeds) (
                    Reads-bind _ (u8-Reads flags (omega (arith, small))) (
                      Reads-require (le→leb flags 5 small)
                        (Reads-bind _ (u16-Reads _ h.press_sequence) (Reads-pure _))))))))))

pub state-Reads : (v : PlayerState) → StateFits v → Reads Reader.read_state (Writer.write_state v) v
unfolding Reader.read_state Writer.write_state
state-Reads v h = Reads-bind _ (u64-Reads _ h.session_id) (
    Reads-bind _ (u64-Reads _ h.player_id) (
      Reads-bind _ (u64-Reads _ h.incarnation_id) (
        Reads-bind _ (u32-Reads _ h.sequence) (
          Reads-bind _ (u64-Reads _ h.sample_time_ms) (
            Reads-bind _ (u8-Reads _ h.flags) (
              Reads-bind _ (vec3d-Reads _ h.position) (
                Reads-bind _ (quat-Reads _ h.orientation) (
                  Reads-bind _ (vec3f-Reads _ h.linear_velocity) (
                    Reads-bind _ (vec3f-Reads _ h.angular_velocity) (
                      Reads-bind _ (u16-Reads _ h.vehicle_type) (
                        Reads-bind _ (u8-Reads _ h.paint_variant) (
                          Reads-bind _ (location-Reads _ h.location)
                            (Reads-bind _ (vehicle-Reads _ h.vehicle) (Reads-pure _))))))))))))))
