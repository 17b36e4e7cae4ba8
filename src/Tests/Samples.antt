-- ===== src/Tests/Samples.antt =====
-- Concrete messages and an arithmetic that is right on 0.0 and 1.0.
use ht2mp.Prelude.{ℕ, ◌≡◌, refl, ◌==◌, if◌then◌else◌, [], ◌∷◌, replicate, arith}
use ht2mp.Prelude.Text.{text}
use ht2mp.Protocol.Float.{
  Arithmetic, is_finite32, is_finite64, abs32, abs64, is_nan32, is_nan64, key32, key64, lt32, le32,
  eq32, lt64, le64, le_i32,
}
use ht2mp.Protocol.Types.{Message, ClientHello, PlayerState, VehicleState, WorldSnapshot}
use ht2mp.Protocol.Ranges.{Fits}
use ht2mp.Protocol.Replication.{
  default_environment, valid_speeds_from, valid_wheel_speeds, valid_condition_from,
  valid_vehicle_state, valid_environment,
}
use ht2mp.Protocol.Utf8.{classify, continue_with, is_scalar, decode_one, valid_from, is_valid_utf8}
use ht2mp.Protocol.Validation.{
  finite_vec3d, finite_vec3f, finite_quat, inside, magnitude_components, valid_location_id,
  valid_reason, is_control, validate_name, allowed_in_profile, validate_profile, validate_vehicle,
  validate_paint, validate_hello, norm_squared, not_normalized, validate_state, validate_players,
  validate_snapshot, validate_welcome, validate_peer, validate_left, validate_disconnect, validate,
  valid, default_limits,
}

abbrev pub zero_one : Arithmetic
zero_one = record {
  widen = λ a. if a == 0x3f80_0000 then 0x3ff0_0000_0000_0000 else 0;
  from_u64 = λ n. if n == 1 then 0x3ff0_0000_0000_0000 else 0;
  add = λ a b. if a == 0 then b else a;
  subtract = λ a b. if a == b then 0 else a;
  multiply = λ a b. if a == 0x3ff0_0000_0000_0000 then b else 0;
  divide = λ a b. if b == 0x3ff0_0000_0000_0000 then a else 0;
  fmod = λ a b. if a == b then 0 else a;
}

-- Names everything that a validation runs through.
unfoldable pub validating : ℕ
unfolding is_finite32 is_finite64 abs32 abs64 is_nan32 is_nan64 key32 key64 lt32 le32 eq32 lt64 le64
    le_i32 valid_speeds_from valid_wheel_speeds valid_condition_from valid_vehicle_state
    valid_environment classify continue_with is_scalar decode_one valid_from is_valid_utf8
    finite_vec3d finite_vec3f finite_quat inside magnitude_components valid_location_id valid_reason
    is_control validate_name allowed_in_profile validate_profile validate_vehicle validate_paint
    validate_hello norm_squared not_normalized validate_state validate_players validate_snapshot
    validate_welcome validate_peer validate_left validate_disconnect validate text
validating = 0

abbrev pub hello : ClientHello
hello = record {
  profile_id = 115 ∷ 45 ∷ 56 ∷ [];
  token = replicate 16 7;
  display_name = 0xd0 ∷ 0x9e ∷ 0xd0 ∷ 0xba ∷ 0xd0 ∷ 0xb0 ∷ [];
  incarnation_id = 5;
  vehicle_type = 62;
  paint_variant = 3;
}

abbrev pub vehicle : VehicleState
vehicle = record {
  valid = 1;
  steering = 250;
  lights = 0 ∷ 1 ∷ 2 ∷ 0 ∷ [];
  condition = replicate 49 0x3f00_0000;
  wheels = record { count = 4; radians_per_second = replicate 8 0 };
  horn = record { active = 1; tone = 2; press_sequence = 513 };
}

abbrev pub state : PlayerState
state = record {
  session_id = 9;
  player_id = 1;
  incarnation_id = 5;
  sequence = 77;
  sample_time_ms = 123_456;
  flags = 1;
  position = record { x = 0; y = 0x3ff0_0000_0000_0000; z = 0 };
  orientation = record { x = 0; y = 0; z = 0; w = 0x3f80_0000 };
  linear_velocity = record { x = 0; y = 0x3f80_0000; z = 0 };
  angular_velocity = record { x = 0; y = 0; z = 0 };
  vehicle_type = 62;
  paint_variant = 3;
  location = record {
    room_id = 0xffff_ffff;
    road_id = 4;
    node_id = 5;
    road_distance = 0x3ff0_0000_0000_0000;
    road_segment_vector_id = 6;
    road_segment_id = 7;
    aux0 = 8;
    aux1 = 9;
  };
  vehicle = vehicle;
}

abbrev pub snapshot : WorldSnapshot
snapshot = record {
  server_time_ms = 1000;
  players = state ∷ record state { player_id = 2 } ∷ [];
  environment = default_environment;
}

pub hello-Fits : Fits (Message.client_hello hello)
hello-Fits = omega arith

pub hello_valid : validate zero_one (Message.client_hello hello) default_limits ≡ valid
unfolding validating
hello_valid = refl

pub snapshot-Fits : Fits (Message.world_snapshot snapshot)
snapshot-Fits = omega arith

pub snapshot_valid : validate zero_one (Message.world_snapshot snapshot) default_limits ≡ valid
unfolding validating
snapshot_valid = refl
