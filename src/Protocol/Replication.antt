-- ===== src/Protocol/Replication.antt =====
-- include/ht2mp/protocol/replication.hpp: the tests on vehicle and environment states, and the
-- advance of the environment clock. Literals are written as their bit patterns.
use ht2mp.Prelude.{
  ◌≡◌, refl, ℕ, ◌+◌, Bool, true, false, not, ◌&&◌, ◌||◌, List, [], ◌∷◌, all, ltb, leb, ◌==◌,
  if◌then◌else◌,
}
use ht2mp.Protocol.Float.{
  is_finite32, is_finite64, is_nan32, is_nan64, key32, key64, abs32, lt32, le32, eq32, lt64, le64,
  Arithmetic,
}
use ht2mp.Protocol.Types.{WheelSpeeds, VehicleState, EnvironmentState}

abbrev pub max_vehicle_wheels : ℕ
max_vehicle_wheels = 8

-- The loop of valid_wheel_speeds from index `i` on, over the speeds that are left.
unfoldable pub valid_speeds_from : ℕ → ℕ → List ℕ → Bool
valid_speeds_from count i [] = true
valid_speeds_from count i (speed ∷ speeds) =
    not (
      not (is_finite32 speed)
      || (lt32 0x44fa_0000 (abs32 speed) || (leb count i && not (eq32 speed 0))))
    && valid_speeds_from count (i + 1) speeds

unfoldable pub valid_wheel_speeds : WheelSpeeds → Bool
valid_wheel_speeds w =
    if ltb max_vehicle_wheels w.count || w.count == 1
    then false
    else valid_speeds_from w.count 0 w.radians_per_second

-- The loop over `condition` from index `i` on: field 41 may reach 1.0e9, the others 1.
unfoldable pub valid_condition_from : ℕ → List ℕ → Bool
valid_condition_from i [] = true
valid_condition_from i (field ∷ fields) =
    not (
      not (is_finite32 field)
      || (lt32 field 0 || lt32 (if i == 41 then 0x4e6e_6b28 else 0x3f80_0000) field))
    && valid_condition_from (i + 1) fields

unfoldable pub valid_vehicle_state : VehicleState → Bool
valid_vehicle_state v =
    not (not (valid_wheel_speeds v.wheels) || ltb 2 v.horn.tone)
    && (all (λ light. leb light 2) v.lights && valid_condition_from 0 v.condition)

unfoldable pub valid_environment : EnvironmentState → Bool
valid_environment e =
    is_finite64 e.day_hours
    && (le64 0 e.day_hours
        && (lt64 e.day_hours 0x4038_0000_0000_0000
            && (is_finite64 e.weather_phase
                && (le64 0 e.weather_phase
                    && (lt64 e.weather_phase 0x4019_21fb_5444_2d18
                        && (is_finite64 e.variation_phase
                            && (le64 0 e.variation_phase
                                && (lt64 e.variation_phase 0x4019_21fb_5444_2d18
                                    && (is_finite32 e.day_duration_s
                                        && (le32 0x4270_0000 e.day_duration_s
                                            && (le32 e.day_duration_s 0x47a8_c000
                                                && (is_finite32 e.weather_duration_s
                                                    && (le32 0x4270_0000 e.weather_duration_s
                                                        && (le32 e.weather_duration_s 0x47a8_c000
                                                            && (is_finite32 e.weather_bias
                                                            && (le32 0 e.weather_bias
                                                            && (le32 e.weather_bias 0x3f80_0000
                                                            && ltb e.weather_preset
                                                            8)))))))))))))))))

-- `EnvironmentState{}`: noon, a day of 1440 s, weather of 600 s, bias 0.5.
abbrev pub default_environment : EnvironmentState
default_environment = record {
  session_id = 0;
  day_hours = 0x4028_0000_0000_0000;
  weather_phase = 0;
  variation_phase = 0;
  day_duration_s = 0x44b4_0000;
  weather_duration_s = 0x4416_0000;
  weather_bias = 0x3f00_0000;
  weather_preset = 0;
}

default_environment_valid : valid_environment default_environment ≡ true
unfolding valid_environment is_finite32 is_finite64 le32 le64 lt64 is_nan32 is_nan64 key32 key64
default_environment_valid = refl

module _ (fp : Arithmetic) where
  open fp use {widen, add, multiply, divide, fmod}

  -- 24.0, tau and 3.0 as doubles.
  unfoldable pub advance_environment : EnvironmentState → ℕ → EnvironmentState
  advance_environment e elapsed_s =
      if not (valid_environment e) || (not (is_finite64 elapsed_s) || lt64 elapsed_s 0)
      then e
      else (let day = widen e.day_duration_s in
          let weather = widen e.weather_duration_s in
          let variation = multiply weather 0x4008_0000_0000_0000 in
          let tau : ℕ = 0x4019_21fb_5444_2d18 in
          let hours : ℕ = 0x4038_0000_0000_0000 in
          record e {
            day_hours =
                fmod (add e.day_hours (divide (multiply (fmod elapsed_s day) hours) day)) hours;
            weather_phase =
                fmod (add e.weather_phase (divide (multiply (fmod elapsed_s weather) tau) weather))
                  tau;
            variation_phase =
                fmod
                  (add e.variation_phase
                    (divide (multiply (fmod elapsed_s variation) tau) variation))
                  tau;
          })
