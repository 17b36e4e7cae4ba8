-- ===== src/Ipc/Messages/Sample.antt =====
-- The player samples of src/ipc/codec.cpp: local_sample and remote_sample.
use Prim.Native.Nat.{bit_and}
use ht2mp.Prelude.{ℕ, ◌/◌, ◌^◌, not, none, some, List, [], ◌∷◌, ltb, ◌==◌, if◌then◌else◌, length}
use ht2mp.Protocol.Writer.{horn_flags}
use ht2mp.Protocol.Reader
use ht2mp.Protocol.Reader.{Reader, ◌>>=◌, ◌>>◌, pure, require}
use ht2mp.Protocol.Replication.{valid_vehicle_state}
use ht2mp.Protocol.Types.{VehicleState, WorldLocation}
use ht2mp.Ipc.Types.{FrameType, PlayerSample}
use ht2mp.Ipc.Payload.{
  truncated, trailing_bytes, Coded, failed, Put, put_u8, put_u16, put_u32, put_u64, put_i32,
  put_f32, put_f64, put_each, all_of, ensure, get_u8, get_u16, get_u32, get_u64, get_i32, get_f32,
  get_f64,
}
use ht2mp.Ipc.Messages.{encode_payload, finish_read, no_more}

abbrev pub player_sample_payload_size : ℕ
player_sample_payload_size = 378

unfoldable pub write_vehicle : VehicleState → Put
write_vehicle v =
    let valid : ℕ = if v.valid == 0 then 0 else 1 in
    all_of (
      put_u8 valid
      ∷ ensure (not (ltb 1 valid))
      ∷ put_u8 v.steering
      ∷ put_each put_u8 v.lights
      ∷ put_each put_f32 v.condition
      ∷ put_u8 v.wheels.count
      ∷ put_each put_f32 v.wheels.radians_per_second
      ∷ put_u8 (horn_flags v.horn.active v.horn.tone)
      ∷ put_u16 v.horn.press_sequence
      ∷ ensure (valid_vehicle_state v)
      ∷ [])

unfoldable pub write_location : WorldLocation → Put
write_location location = all_of (
    put_i32 location.room_id
    ∷ put_i32 location.road_id
    ∷ put_i32 location.node_id
    ∷ put_f64 location.road_distance
    ∷ put_i32 location.road_segment_vector_id
    ∷ put_i32 location.road_segment_id
    ∷ put_i32 location.aux0
    ∷ put_i32 location.aux1
    ∷ [])

unfoldable pub write_player_sample : PlayerSample → Put
write_player_sample m = all_of (
    put_u64 m.player_id
    ∷ put_u64 m.incarnation_id
    ∷ put_u64 m.sample_time_ms
    ∷ put_u64 m.receive_time_us
    ∷ put_u32 m.sequence
    ∷ put_u8 m.flags
    ∷ put_each put_f64 m.position
    ∷ put_each put_f32 m.orientation
    ∷ put_each put_f32 m.linear_velocity
    ∷ put_each put_f32 m.angular_velocity
    ∷ write_vehicle m.vehicle
    ∷ put_u16 m.vehicle_type
    ∷ put_u8 m.paint_variant
    ∷ write_location m.location
    ∷ [])

unfoldable pub read_vehicle : Reader VehicleState
read_vehicle = do
  valid ← get_u8
  require (not (ltb 1 valid))
  steering ← get_u8
  lights ← Reader.array 4 get_u8
  condition ← Reader.array 49 get_f32
  count ← get_u8
  speeds ← Reader.array 8 get_f32
  horn_flags ← get_u8
  require (not (ltb 5 horn_flags))
  press_sequence ← get_u16
  let vehicle : VehicleState = record {
    valid = if valid == 0 then 0 else 1;
    steering = steering;
    lights = lights;
    condition = condition;
    wheels = record { count = count; radians_per_second = speeds };
    horn = record {
      active = if bit_and horn_flags 1 == 0 then 0 else 1;
      tone = horn_flags / 2 ^ 1;
      press_sequence = press_sequence;
    };
  }
  require (valid_vehicle_state vehicle)
  pure vehicle

unfoldable pub read_location : Reader WorldLocation
read_location = do
  room_id ← get_i32
  road_id ← get_i32
  node_id ← get_i32
  road_distance ← get_f64
  road_segment_vector_id ← get_i32
  road_segment_id ← get_i32
  aux0 ← get_i32
  aux1 ← get_i32
  pure (record {
    room_id = room_id;
    road_id = road_id;
    node_id = node_id;
    road_distance = road_distance;
    road_segment_vector_id = road_segment_vector_id;
    road_segment_id = road_segment_id;
    aux0 = aux0;
    aux1 = aux1;
  })

unfoldable pub read_player_sample : Reader PlayerSample
read_player_sample = do
  player_id ← get_u64
  incarnation_id ← get_u64
  sample_time_ms ← get_u64
  receive_time_us ← get_u64
  sequence ← get_u32
  flags ← get_u8
  position ← Reader.array 3 get_f64
  orientation ← Reader.array 4 get_f32
  linear_velocity ← Reader.array 3 get_f32
  angular_velocity ← Reader.array 3 get_f32
  vehicle ← read_vehicle
  vehicle_type ← get_u16
  paint_variant ← get_u8
  location ← read_location
  pure (record {
    player_id = player_id;
    incarnation_id = incarnation_id;
    sample_time_ms = sample_time_ms;
    receive_time_us = receive_time_us;
    sequence = sequence;
    flags = flags;
    position = position;
    orientation = orientation;
    linear_velocity = linear_velocity;
    angular_velocity = angular_velocity;
    vehicle_type = vehicle_type;
    paint_variant = paint_variant;
    location = location;
    vehicle = vehicle;
  })

-- `writer.size() != payload.size()`.
unfoldable pub ensure_full : Put
ensure_full w = if length w.bytes == w.capacity then some w else none

unfoldable pub encode_player_sample_as : FrameType → PlayerSample → ℕ → Coded (List ℕ)
encode_player_sample_as type m =
    encode_payload type player_sample_payload_size
      (all_of (write_player_sample m ∷ ensure_full ∷ []))

unfoldable pub encode_local_sample : PlayerSample → ℕ → Coded (List ℕ)
encode_local_sample = encode_player_sample_as FrameType.local_sample

unfoldable pub encode_remote_sample : PlayerSample → ℕ → Coded (List ℕ)
encode_remote_sample = encode_player_sample_as FrameType.remote_sample

unfoldable pub decode_player_sample : List ℕ → Coded PlayerSample
decode_player_sample payload =
    if ltb (length payload) player_sample_payload_size
    then failed truncated
    else if ltb player_sample_payload_size (length payload)
    then failed trailing_bytes
    else finish_read (read_player_sample payload) no_more
