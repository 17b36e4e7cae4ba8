-- ===== src/Protocol/Reader.antt =====
-- The Reader of src/protocol/codec.cpp, as a monad over the bytes from `offset_` on. A failed
-- method clears `ok_` and the whole parse is then refused, so `none` stands for both.
use Prim.Native.Nat.{bit_and, bit_or}
use ht2mp.Prelude.{
  ℕ, zero, suc, ◌*◌, ◌/◌, ◌%◌, ◌^◌, Bool, true, false, Option, none, some, List, [], ◌∷◌, ltb, leb,
  ◌==◌, if◌then◌else◌, length, take, drop,
}
use ht2mp.Protocol.Types.{Vec3, Quat, WorldLocation, VehicleState, EnvironmentState, PlayerState}

abbrev pub Reader {ℓ} : Type ℓ → Type ℓ
Reader A = List ℕ → Option (A × List ℕ)

infixl 5 ◌>>=◌ ◌>>◌
unfoldable pub ◌>>=◌ {ℓ κ} : {A : Type ℓ} {B : Type κ} → Reader A → (A → Reader B) → Reader B
◌>>=◌ m f bytes = elim (m bytes) [ none ↦ none | some (a, rest) ↦ f a rest ]

unfoldable pub pure {ℓ} : {A : Type ℓ} → A → Reader A
pure a bytes = some (a, bytes)

unfoldable pub require : Bool → Reader (Unit {0})
require true bytes = some (tt, bytes)
require false bytes = none

unfoldable pub ◌>>◌ {ℓ} : {B : Type ℓ} → Reader (Unit {0}) → Reader B → Reader B
unfolding ◌>>=◌
m >> k = m >>= λ _. k

unfoldable pub u8 : Reader ℕ
u8 [] = none
u8 (b ∷ bytes) = some (b, bytes)

unfoldable pub u16 : Reader ℕ
u16 = do low ← u8; high ← u8; pure (bit_or low (high * 2 ^ 8) % 2 ^ 16)

unfoldable pub u32 : Reader ℕ
u32 = do low ← u16; high ← u16; pure (bit_or low (high * 2 ^ 16 % 2 ^ 32))

unfoldable pub u64 : Reader ℕ
u64 = do low ← u32; high ← u32; pure (bit_or low (high * 2 ^ 32 % 2 ^ 64))

unfoldable pub i32 : Reader ℕ
i32 = u32

unfoldable pub f32 : Reader ℕ
f32 = u32

unfoldable pub f64 : Reader ℕ
f64 = u64

-- `count` bytes off the front, if they are there.
unfoldable pub raw : ℕ → Reader (List ℕ)
raw count bytes =
    if ltb (length bytes) count then none else some (take count bytes, drop count bytes)

unfoldable pub token : Reader (List ℕ)
token = raw 16

unfoldable pub string8 : ℕ → Reader (List ℕ)
string8 maximum = do size ← u8; require (leb size maximum); raw size

-- `for (auto& item : array) if (!reader.get(item)) return false;`
unfoldable pub array {ℓ} : {A : Type ℓ} → ℕ → Reader A → Reader (List A)
array zero get = pure []
array (suc count) get = do item ← get; items ← array count get; pure (item ∷ items)

unfoldable pub read_vec3d : Reader Vec3
read_vec3d = do x ← f64; y ← f64; z ← f64; pure (record { x = x; y = y; z = z })

unfoldable pub read_vec3f : Reader Vec3
read_vec3f = do x ← f32; y ← f32; z ← f32; pure (record { x = x; y = y; z = z })

unfoldable pub read_quat : Reader Quat
read_quat = do x ← f32; y ← f32; z ← f32; w ← f32; pure (record { x = x; y = y; z = z; w = w })

unfoldable pub read_location : Reader WorldLocation
read_location = do
  room_id ← i32
  road_id ← i32
  node_id ← i32
  road_distance ← f64
  road_segment_vector_id ← i32
  road_segment_id ← i32
  aux0 ← i32
  aux1 ← i32
  pure (record {
    room_id = room_id;
    road_id = road_id;
    node_id = node_id;
    road_distance = road_distance;
    road_segment_vector_id = road_segment_vector_id;
    road_segment_id = road_segment_id;
    aux0 = aux0;
    aux1 = aux1;
  })

unfoldable pub read_vehicle : Reader VehicleState
read_vehicle = do
  valid ← u8
  require (leb valid 1)
  steering ← u8
  lights ← array 4 u8
  condition ← array 49 f32
  count ← u8
  speeds ← array 8 f32
  horn_flags ← u8
  require (leb horn_flags 5)
  press_sequence ← u16
  pure (record {
    valid = if valid == 0 then 0 else 1;
    steering = steering;
    lights = lights;
    condition = condition;
    wheels = record { count = count; radians_per_second = speeds };
    horn = record {
      active = if bit_and horn_flags 1 == 0 then 0 else 1;
      tone = horn_flags / 2 ^ 1;
      press_sequence = press_sequence;
    };
  })

unfoldable pub read_environment : Reader EnvironmentState
read_environment = do
  session_id ← u64
  day_hours ← f64
  weather_phase ← f64
  variation_phase ← f64
  day_duration_s ← f32
  weather_duration_s ← f32
  weather_bias ← f32
  weather_preset ← u8
  pure (record {
    session_id = session_id;
    day_hours = day_hours;
    weather_phase = weather_phase;
    variation_phase = variation_phase;
    day_duration_s = day_duration_s;
    weather_duration_s = weather_duration_s;
    weather_bias = weather_bias;
    weather_preset = weather_preset;
  })

unfoldable pub read_state : Reader PlayerState
read_state = do
  session_id ← u64
  player_id ← u64
  incarnation_id ← u64
  sequence ← u32
  sample_time_ms ← u64
  flags ← u8
  position ← read_vec3d
  orientation ← read_quat
  linear_velocity ← read_vec3f
  angular_velocity ← read_vec3f
  vehicle_type ← u16
  paint_variant ← u8
  location ← read_location
  vehicle ← read_vehicle
  pure (record {
    session_id = session_id;
    player_id = player_id;
    incarnation_id = incarnation_id;
    sequence = sequence;
    sample_time_ms = sample_time_ms;
    flags = flags;
    position = position;
    orientation = orientation;
    linear_velocity = linear_velocity;
    angular_velocity = angular_velocity;
    vehicle_type = vehicle_type;
    paint_variant = paint_variant;
    location = location;
    vehicle = vehicle;
  })
