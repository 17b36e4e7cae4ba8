-- ===== src/Protocol/Wire/CanonStructs.antt =====
-- The structs: a reader accepts only what the writer of the value it returns writes.
use Prim.Native.Nat.{bit_and}
use ht2mp.Prelude.{
  ℕ, zero, suc, ◌/◌, ◌^◌, ◌≤◌, ◌<◌, ◌≡◌, refl, arith, leb→le, if◌then◌else◌, ◌==◌, append_assoc,
  append-nil,
}
use ht2mp.Protocol.Ranges.{
  IsU8, IsU32, Vec3dFits, Vec3fFits, QuatFits, LocationFits, VehicleFits, EnvironmentFits,
  StateFits,
}
use ht2mp.Protocol.Writer
use ht2mp.Protocol.Reader
use ht2mp.Protocol.Wire.Canon.{Canon, Ends-bind, Ends-pure, Ends-require}
use ht2mp.Protocol.Wire.CanonWords.{
  u8-Canon, u16-Canon, u32-Canon, u64-Canon, i32-Canon, f32-Canon, f64-Canon, array-Canon,
}

pub vec3d-Canon : Canon Reader.read_vec3d Writer.write_vec3d Vec3dFits
unfolding Reader.read_vec3d Writer.write_vec3d
vec3d-Canon = Ends-bind _ f64-Canon λ x h_x. Ends-bind _ f64-Canon λ y h_y.
    Ends-bind _ f64-Canon
      λ z h_z. Ends-pure _ (simp (append_assoc, append-nil)) (record { x = h_x; y = h_y; z = h_z })

pub vec3f-Canon : Canon Reader.read_vec3f Writer.write_vec3f Vec3fFits
unfolding Reader.read_vec3f Writer.write_vec3f
vec3f-Canon = Ends-bind _ f32-Canon λ x h_x. Ends-bind _ f32-Canon λ y h_y.
    Ends-bind _ f32-Canon
      λ z h_z. Ends-pure _ (simp (append_assoc, append-nil)) (record { x = h_x; y = h_y; z = h_z })

pub quat-Canon : Canon Reader.read_quat Writer.write_quat QuatFits
unfolding Reader.read_quat Writer.write_quat
quat-Canon = Ends-bind _ f32-Canon λ x h_x. Ends-bind _ f32-Canon λ y h_y.
    Ends-bind _ f32-Canon λ z h_z. Ends-bind _ f32-Canon λ w h_w.
      Ends-pure _ (simp (append_assoc, append-nil)) (record { x = h_x; y = h_y; z = h_z; w = h_w })

pub location-Canon : Canon Reader.read_location Writer.write_location LocationFits
unfolding Reader.read_location Writer.write_location
location-Canon = Ends-bind _ i32-Canon λ room_id h_room_id.
    Ends-bind _ i32-Canon λ road_id h_road_id. Ends-bind _ i32-Canon λ node_id h_node_id.
      Ends-bind _ f64-Canon λ road_distance h_road_distance.
        Ends-bind _ i32-Canon λ road_segment_vector_id h_road_segment_vector_id.
          Ends-bind _ i32-Canon λ road_segment_id h_road_segment_id.
            Ends-bind _ i32-Canon λ aux0 h_aux0. Ends-bind _ i32-Canon λ aux1 h_aux1.
              Ends-pure _ (simp (append_assoc, append-nil)) (record {
                room_id = h_room_id;
                road_id = h_road_id;
                node_id = h_node_id;
                road_distance = h_road_distance;
                road_segment_vector_id = h_road_segment_vector_id;
                road_segment_id = h_road_segment_id;
                aux0 = h_aux0;
                aux1 = h_aux1;
              })

pub environment-Canon : Canon Reader.read_environment Writer.write_environment EnvironmentFits
unfolding Reader.read_environment Writer.write_environment
environment-Canon = Ends-bind _ u64-Canon λ session_id h_session_id.
    Ends-bind _ f64-Canon λ day_hours h_day_hours.
      Ends-bind _ f64-Canon λ weather_phase h_weather_phase.
        Ends-bind _ f64-Canon λ variation_phase h_variation_phase.
          Ends-bind _ f32-Canon λ day_duration_s h_day_duration_s.
            Ends-bind _ f32-Canon λ weather_duration_s h_weather_duration_s.
              Ends-bind _ f32-Canon λ weather_bias h_weather_bias.
                Ends-bind _ u8-Canon λ weather_preset h_weather_preset.
                  Ends-pure _ (simp (append_assoc, append-nil)) (record {
                    session_id = h_session_id;
                    day_hours = h_day_hours;
                    weather_phase = h_weather_phase;
                    variation_phase = h_variation_phase;
                    day_duration_s = h_day_duration_s;
                    weather_duration_s = h_weather_duration_s;
                    weather_bias = h_weather_bias;
                    weather_preset = h_weather_preset;
                  })

bool_canon : (b : ℕ) → b ≤ 1 → (if b == 0 then 0 else 1) ≡ b
bool_canon zero h = refl
bool_canon (suc zero) h = refl
bool_canon (suc (suc b)) h = absurd (omega arith)

-- A horn byte of at most 5 is the one that its two parts give.
horn_canon :
    (b : ℕ)
    → b ≤ 5
    → (Writer.horn_flags (if bit_and b 1 == 0 then 0 else 1) (b / 2 ^ 1) ≡ b)
      × ((if bit_and b 1 == 0 then 0 else 1) < 2)
      × (b / 2 ^ 1 ≤ 2)
unfolding Writer.horn_flags
horn_canon zero h = (refl, omega arith, omega arith)
horn_canon (suc zero) h = (refl, omega arith, omega arith)
horn_canon (suc (suc zero)) h = (refl, omega arith, omega arith)
horn_canon (suc (suc (suc zero))) h = (refl, omega arith, omega arith)
horn_canon (suc (suc (suc (suc zero)))) h = (refl, omega arith, omega arith)
horn_canon (suc (suc (suc (suc (suc zero))))) h = (refl, omega arith, omega arith)
horn_canon (suc (suc (suc (suc (suc (suc b)))))) h = absurd (omega arith)

pub vehicle-Canon : Canon Reader.read_vehicle Writer.write_vehicle VehicleFits
unfolding Reader.read_vehicle Writer.write_vehicle
vehicle-Canon = Ends-bind _ u8-Canon λ valid h_valid. Ends-require λ bool.
    Ends-bind _ u8-Canon λ steering h_steering.
      Ends-bind _ (array-Canon Writer.u8 Reader.u8 IsU8 u8-Canon 4) λ lights h_lights.
        Ends-bind _ (array-Canon Writer.f32 Reader.f32 IsU32 f32-Canon 49) λ condition h_condition.
          Ends-bind _ u8-Canon λ count h_count.
            Ends-bind _ (array-Canon Writer.f32 Reader.f32 IsU32 f32-Canon 8) λ speeds h_speeds.
              Ends-bind _ u8-Canon λ flags h_flags. Ends-require λ small.
                Ends-bind _ u16-Canon λ press_sequence h_press.
                  let is_bool = bool_canon valid (leb→le valid 1 bool) in
                  let (byte, active, tone) = horn_canon flags (leb→le flags 5 small) in
                  Ends-pure _ (rw (is_bool, is_bool, byte) (simp (append_assoc, append-nil)))
                    (record {
                      valid = rw is_bool (omega (arith, leb→le valid 1 bool));
                      steering = h_steering;
                      lights = h_lights;
                      condition = h_condition;
                      count = h_count;
                      speeds = h_speeds;
                      active = active;
                      tone = tone;
                      press_sequence = h_press;
                    })

pub state-Canon : Canon Reader.read_state Writer.write_state StateFits
unfolding Reader.read_state Writer.write_state
state-Canon = Ends-bind _ u64-Canon λ session_id h_session_id.
    Ends-bind _ u64-Canon λ player_id h_player_id.
      Ends-bind _ u64-Canon λ incarnation_id h_incarnation_id.
        Ends-bind _ u32-Canon λ sequence h_sequence.
          Ends-bind _ u64-Canon λ sample_time_ms h_sample_time_ms.
            Ends-bind _ u8-Canon λ flags h_flags. Ends-bind _ vec3d-Canon λ position h_position.
              Ends-bind _ quat-Canon λ orientation h_orientation.
                Ends-bind _ vec3f-Canon λ linear_velocity h_linear_velocity.
                  Ends-bind _ vec3f-Canon λ angular_velocity h_angular_velocity.
                    Ends-bind _ u16-Canon λ vehicle_type h_vehicle_type.
                      Ends-bind _ u8-Canon λ paint_variant h_paint_variant.
                        Ends-bind _ location-Canon λ location h_location.
                          Ends-bind _ vehicle-Canon λ vehicle h_vehicle.
                            Ends-pure _ (simp (append_assoc, append-nil)) (record {
                              session_id = h_session_id;
                              player_id = h_player_id;
                              incarnation_id = h_incarnation_id;
                              sequence = h_sequence;
                              sample_time_ms = h_sample_time_ms;
                              flags = h_flags;
                              position = h_position;
                              orientation = h_orientation;
                              linear_velocity = h_linear_velocity;
                              angular_velocity = h_angular_velocity;
                              vehicle_type = h_vehicle_type;
                              paint_variant = h_paint_variant;
                              location = h_location;
                              vehicle = h_vehicle;
                            })
