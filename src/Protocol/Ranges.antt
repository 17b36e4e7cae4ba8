-- ===== src/Protocol/Ranges.antt =====
-- The ranges that the C++ types give the fields of a message.
use ht2mp.Prelude.{ℕ, ◌^◌, ◌≤◌, ◌<◌, ◌≡◌, List, All, length}
use ht2mp.Protocol.Types.{
  Vec3, Quat, WorldLocation, VehicleState, EnvironmentState, PlayerState, ClientHello,
  ServerWelcome, PeerDescription, PeerLeft, Ping, Pong, Disconnect, WorldSnapshot, Message,
}

abbrev pub IsU8 : ℕ → Type 0
IsU8 n = n < 2 ^ 8

abbrev pub IsU16 : ℕ → Type 0
IsU16 n = n < 2 ^ 16

abbrev pub IsU32 : ℕ → Type 0
IsU32 n = n < 2 ^ 32

abbrev pub IsU64 : ℕ → Type 0
IsU64 n = n < 2 ^ 64

abbrev pub IsBool : ℕ → Type 0
IsBool n = n < 2

abbrev pub AreBytes : List ℕ → Type 0
AreBytes = All IsU8

-- A std::array of `n` items.
abbrev pub IsArray {ℓ κ} : {A : Type ℓ} → ℕ → (A → Type κ) → List A → Type κ
IsArray n P items = (length items ≡ n) × All P items

-- A std::string that the wire can hold: its length goes into one byte.
abbrev pub IsText : List ℕ → Type 0
IsText value = (length value < 2 ^ 8) × AreBytes value

pub record Vec3dFits (v : Vec3) : Type 0 where
  pub x : IsU64 v.x
  pub y : IsU64 v.y
  pub z : IsU64 v.z

pub record Vec3fFits (v : Vec3) : Type 0 where
  pub x : IsU32 v.x
  pub y : IsU32 v.y
  pub z : IsU32 v.z

pub record QuatFits (q : Quat) : Type 0 where
  pub x : IsU32 q.x
  pub y : IsU32 q.y
  pub z : IsU32 q.z
  pub w : IsU32 q.w

pub record LocationFits (v : WorldLocation) : Type 0 where
  pub room_id : IsU32 v.room_id
  pub road_id : IsU32 v.road_id
  pub node_id : IsU32 v.node_id
  pub road_distance : IsU64 v.road_distance
  pub road_segment_vector_id : IsU32 v.road_segment_vector_id
  pub road_segment_id : IsU32 v.road_segment_id
  pub aux0 : IsU32 v.aux0
  pub aux1 : IsU32 v.aux1

-- The wire also wants a horn tone of at most 2, which validation guarantees.
pub record VehicleFits (v : VehicleState) : Type 0 where
  pub valid : IsBool v.valid
  pub steering : IsU8 v.steering
  pub lights : IsArray 4 IsU8 v.lights
  pub condition : IsArray 49 IsU32 v.condition
  pub count : IsU8 v.wheels.count
  pub speeds : IsArray 8 IsU32 v.wheels.radians_per_second
  pub active : IsBool v.horn.active
  pub tone : v.horn.tone ≤ 2
  pub press_sequence : IsU16 v.horn.press_sequence

pub record EnvironmentFits (e : EnvironmentState) : Type 0 where
  pub session_id : IsU64 e.session_id
  pub day_hours : IsU64 e.day_hours
  pub weather_phase : IsU64 e.weather_phase
  pub variation_phase : IsU64 e.variation_phase
  pub day_duration_s : IsU32 e.day_duration_s
  pub weather_duration_s : IsU32 e.weather_duration_s
  pub weather_bias : IsU32 e.weather_bias
  pub weather_preset : IsU8 e.weather_preset

pub record StateFits (s : PlayerState) : Type 0 where
  pub session_id : IsU64 s.session_id
  pub player_id : IsU64 s.player_id
  pub incarnation_id : IsU64 s.incarnation_id
  pub sequence : IsU32 s.sequence
  pub sample_time_ms : IsU64 s.sample_time_ms
  pub flags : IsU8 s.flags
  pub position : Vec3dFits s.position
  pub orientation : QuatFits s.orientation
  pub linear_velocity : Vec3fFits s.linear_velocity
  pub angular_velocity : Vec3fFits s.angular_velocity
  pub vehicle_type : IsU16 s.vehicle_type
  pub paint_variant : IsU8 s.paint_variant
  pub location : LocationFits s.location
  pub vehicle : VehicleFits s.vehicle

pub record HelloFits (m : ClientHello) : Type 0 where
  pub incarnation_id : IsU64 m.incarnation_id
  pub token : IsArray 16 IsU8 m.token
  pub vehicle_type : IsU16 m.vehicle_type
  pub paint_variant : IsU8 m.paint_variant
  pub profile_id : AreBytes m.profile_id
  pub display_name : AreBytes m.display_name

pub record WelcomeFits (m : ServerWelcome) : Type 0 where
  pub session_id : IsU64 m.session_id
  pub player_id : IsU64 m.player_id
  pub server_time_ms : IsU64 m.server_time_ms
  pub max_players : IsU8 m.max_players
  pub state_hz : IsU8 m.state_hz
  pub profile_id : AreBytes m.profile_id

pub record PeerFits (m : PeerDescription) : Type 0 where
  pub player_id : IsU64 m.player_id
  pub incarnation_id : IsU64 m.incarnation_id
  pub vehicle_type : IsU16 m.vehicle_type
  pub paint_variant : IsU8 m.paint_variant
  pub display_name : AreBytes m.display_name

pub record LeftFits (m : PeerLeft) : Type 0 where
  pub player_id : IsU64 m.player_id
  pub incarnation_id : IsU64 m.incarnation_id
  pub reason : IsU8 m.reason

pub record PingFits (m : Ping) : Type 0 where
  pub nonce : IsU64 m.nonce
  pub client_time_ms : IsU64 m.client_time_ms

pub record PongFits (m : Pong) : Type 0 where
  pub nonce : IsU64 m.nonce
  pub client_time_ms : IsU64 m.client_time_ms
  pub server_time_ms : IsU64 m.server_time_ms

pub record DisconnectFits (m : Disconnect) : Type 0 where
  pub reason : IsU8 m.reason
  pub detail : AreBytes m.detail

pub record SnapshotFits (m : WorldSnapshot) : Type 0 where
  pub server_time_ms : IsU64 m.server_time_ms
  pub environment : EnvironmentFits m.environment
  pub players : All StateFits m.players

abbrev pub Fits : Message → Type 0
Fits (Message.client_hello m) = HelloFits m
Fits (Message.server_welcome m) = WelcomeFits m
Fits (Message.peer_joined m) = PeerFits m
Fits (Message.peer_left m) = LeftFits m
Fits (Message.spawn_metadata m) = PeerFits m
Fits (Message.ping m) = PingFits m
Fits (Message.pong m) = PongFits m
Fits (Message.disconnect m) = DisconnectFits m
Fits (Message.player_state s) = StateFits s
Fits (Message.world_snapshot m) = SnapshotFits m
