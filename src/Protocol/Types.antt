-- ===== src/Protocol/Types.antt =====
-- include/ht2mp/protocol/types.hpp, and the state structs of include/ht2mp/protocol/replication.hpp.
-- A fixed-width integer is its bit pattern, a natural number: the two's complement pattern where
-- the type is signed. A float or a double is its IEEE 754 pattern, which is what the codec writes.
-- A std::string, a token and a std::array are lists; an enumerator is its underlying value.
use ht2mp.Prelude.{ℕ, List}

abbrev pub protocol_version : ℕ
protocol_version = 6

abbrev pub packet_header_size : ℕ
packet_header_size = 12

abbrev pub max_packet_size : ℕ
max_packet_size = 1200

abbrev pub max_display_name_bytes : ℕ
max_display_name_bytes = 32

abbrev pub max_profile_id_bytes : ℕ
max_profile_id_bytes = 32

abbrev pub max_disconnect_text_bytes : ℕ
max_disconnect_text_bytes = 96

-- kMaxPlayers = kMaxSessionPlayers.
abbrev pub max_players_limit : ℕ
max_players_limit = 64

abbrev pub max_snapshot_players : ℕ
max_snapshot_players = 3

abbrev pub reliable_channel : ℕ
reliable_channel = 0

abbrev pub state_channel : ℕ
state_channel = 1

pub record Vec3 : Type 0 where
  pub x : ℕ
  pub y : ℕ
  pub z : ℕ

pub record Quat : Type 0 where
  pub x : ℕ
  pub y : ℕ
  pub z : ℕ
  pub w : ℕ

pub record WorldLocation : Type 0 where
  pub room_id : ℕ
  pub road_id : ℕ
  pub node_id : ℕ
  pub road_distance : ℕ
  pub road_segment_vector_id : ℕ
  pub road_segment_id : ℕ
  pub aux0 : ℕ
  pub aux1 : ℕ

pub record WheelSpeeds : Type 0 where
  pub count : ℕ
  pub radians_per_second : List ℕ

pub record HornState : Type 0 where
  pub active : ℕ
  pub tone : ℕ
  pub press_sequence : ℕ

-- `valid` and `active` are bools, kept as 0 or 1.
pub record VehicleState : Type 0 where
  pub valid : ℕ
  pub steering : ℕ
  pub lights : List ℕ
  pub condition : List ℕ
  pub wheels : WheelSpeeds
  pub horn : HornState

pub record EnvironmentState : Type 0 where
  pub session_id : ℕ
  pub day_hours : ℕ
  pub weather_phase : ℕ
  pub variation_phase : ℕ
  pub day_duration_s : ℕ
  pub weather_duration_s : ℕ
  pub weather_bias : ℕ
  pub weather_preset : ℕ

-- PlayerStateFlag.
abbrev pub flag_in_world : ℕ
flag_in_world = 1

abbrev pub flag_paused : ℕ
flag_paused = 2

abbrev pub flag_teleport : ℕ
flag_teleport = 4

pub record PlayerState : Type 0 where
  pub session_id : ℕ
  pub player_id : ℕ
  pub incarnation_id : ℕ
  pub sequence : ℕ
  pub sample_time_ms : ℕ
  pub flags : ℕ
  pub position : Vec3
  pub orientation : Quat
  pub linear_velocity : Vec3
  pub angular_velocity : Vec3
  pub vehicle_type : ℕ
  pub paint_variant : ℕ
  pub location : WorldLocation
  pub vehicle : VehicleState

pub data MessageType : Type 0 where
  client_hello server_welcome peer_joined peer_left spawn_metadata : MessageType
  ping pong disconnect player_state world_snapshot : MessageType

-- DisconnectReason. A decoded reason is a cast of any byte until it is validated.
abbrev pub DisconnectReason : Type 0
DisconnectReason = ℕ

abbrev pub normal : DisconnectReason
normal = 0

abbrev pub protocol_error : DisconnectReason
protocol_error = 1

abbrev pub profile_mismatch : DisconnectReason
profile_mismatch = 2

abbrev pub token_mismatch : DisconnectReason
token_mismatch = 3

abbrev pub session_full : DisconnectReason
session_full = 4

abbrev pub duplicate_name : DisconnectReason
duplicate_name = 5

abbrev pub server_shutdown : DisconnectReason
server_shutdown = 7

pub record ClientHello : Type 0 where
  pub profile_id : List ℕ
  pub token : List ℕ
  pub display_name : List ℕ
  pub incarnation_id : ℕ
  pub vehicle_type : ℕ
  pub paint_variant : ℕ

pub record ServerWelcome : Type 0 where
  pub profile_id : List ℕ
  pub session_id : ℕ
  pub player_id : ℕ
  pub server_time_ms : ℕ
  pub max_players : ℕ
  pub state_hz : ℕ

-- PeerJoined and SpawnMetadata have the same fields; the message's constructor tells them apart.
pub record PeerDescription : Type 0 where
  pub player_id : ℕ
  pub incarnation_id : ℕ
  pub vehicle_type : ℕ
  pub display_name : List ℕ
  pub paint_variant : ℕ

pub record PeerLeft : Type 0 where
  pub player_id : ℕ
  pub incarnation_id : ℕ
  pub reason : DisconnectReason

pub record Ping : Type 0 where
  pub nonce : ℕ
  pub client_time_ms : ℕ

pub record Pong : Type 0 where
  pub nonce : ℕ
  pub client_time_ms : ℕ
  pub server_time_ms : ℕ

pub record Disconnect : Type 0 where
  pub reason : DisconnectReason
  pub detail : List ℕ

pub record WorldSnapshot : Type 0 where
  pub server_time_ms : ℕ
  pub players : List PlayerState
  pub environment : EnvironmentState

pub data Message : Type 0 where
  client_hello : ClientHello → Message
  server_welcome : ServerWelcome → Message
  peer_joined : PeerDescription → Message
  peer_left : PeerLeft → Message
  spawn_metadata : PeerDescription → Message
  ping : Ping → Message
  pong : Pong → Message
  disconnect : Disconnect → Message
  player_state : PlayerState → Message
  world_snapshot : WorldSnapshot → Message

-- The value of a MessageType on the wire.
unfoldable pub type_code : MessageType → ℕ
type_code MessageType.client_hello = 1
type_code MessageType.server_welcome = 2
type_code MessageType.peer_joined = 3
type_code MessageType.peer_left = 4
type_code MessageType.spawn_metadata = 5
type_code MessageType.ping = 6
type_code MessageType.pong = 7
type_code MessageType.disconnect = 8
type_code MessageType.player_state = 32
type_code MessageType.world_snapshot = 33

unfoldable pub message_type : Message → MessageType
message_type (Message.client_hello m) = MessageType.client_hello
message_type (Message.server_welcome m) = MessageType.server_welcome
message_type (Message.peer_joined m) = MessageType.peer_joined
message_type (Message.peer_left m) = MessageType.peer_left
message_type (Message.spawn_metadata m) = MessageType.spawn_metadata
message_type (Message.ping m) = MessageType.ping
message_type (Message.pong m) = MessageType.pong
message_type (Message.disconnect m) = MessageType.disconnect
message_type (Message.player_state m) = MessageType.player_state
message_type (Message.world_snapshot m) = MessageType.world_snapshot
