-- ===== src/Ipc/Types.antt =====
-- include/ht2mp/ipc/protocol.hpp and the constants of include/ht2mp/ipc/bootstrap.hpp. An enum
-- that a payload carries is its number, since a decoder casts any number and tests it.
use ht2mp.Prelude.{ℕ, List}
use ht2mp.Protocol.Types.{WorldLocation, VehicleState, EnvironmentState}

abbrev pub frame_magic : ℕ
frame_magic = 0x5049_3248

abbrev pub ipc_version : ℕ
ipc_version = 6

abbrev pub max_payload_size : ℕ
max_payload_size = 4096

abbrev pub frame_header_size : ℕ
frame_header_size = 16

abbrev pub bootstrap_abi_version : ℕ
bootstrap_abi_version = 2

abbrev pub profile_id_capacity : ℕ
profile_id_capacity = 32

abbrev pub nonce_size : ℕ
nonce_size = 16

pub data FrameType : Type 0 where
  bridge_hello bridge_ready bridge_status local_sample spawn_remote : FrameType
  remote_sample despawn_remote set_observer_mode enter_safe_mode environment : FrameType

unfoldable pub frame_code : FrameType → ℕ
frame_code FrameType.bridge_hello = 1
frame_code FrameType.bridge_ready = 2
frame_code FrameType.bridge_status = 3
frame_code FrameType.local_sample = 4
frame_code FrameType.spawn_remote = 5
frame_code FrameType.remote_sample = 6
frame_code FrameType.despawn_remote = 7
frame_code FrameType.set_observer_mode = 8
frame_code FrameType.enter_safe_mode = 9
frame_code FrameType.environment = 10

-- BridgeMode.
abbrev pub mode_observer : ℕ
mode_observer = 1

abbrev pub mode_safe : ℕ
mode_safe = 3

-- The last BridgeStatusCode and the last BootstrapResult.
abbrev pub background_tick_stalled : ℕ
background_tick_stalled = 11

abbrev pub internal_error : ℕ
internal_error = 8

pub record FrameHeader : Type 0 where
  pub type : FrameType
  pub payload_size : ℕ
  pub sequence : ℕ

pub record BridgeHello : Type 0 where
  pub abi_version : ℕ
  pub run_id : ℕ
  pub nonce : List ℕ
  pub profile_id : List ℕ

pub record BridgeReady : Type 0 where
  pub result : ℕ
  pub mode : ℕ
  pub capabilities : ℕ

pub record BridgeStatus : Type 0 where
  pub code : ℕ
  pub mode : ℕ
  pub detail : List ℕ

pub record SetObserverMode : Type 0 where
  pub enabled : ℕ

pub record EnterSafeMode : Type 0 where
  pub reason : ℕ

-- Its WorldLocationV1 has the fields of the network's.
pub record PlayerSample : Type 0 where
  pub player_id : ℕ
  pub incarnation_id : ℕ
  pub sample_time_ms : ℕ
  pub receive_time_us : ℕ
  pub sequence : ℕ
  pub flags : ℕ
  pub position : List ℕ
  pub orientation : List ℕ
  pub linear_velocity : List ℕ
  pub angular_velocity : List ℕ
  pub vehicle_type : ℕ
  pub paint_variant : ℕ
  pub location : WorldLocation
  pub vehicle : VehicleState

pub record Environment : Type 0 where
  pub server_time_ms : ℕ
  pub receive_time_us : ℕ
  pub state : EnvironmentState

pub record SpawnRemote : Type 0 where
  pub player_id : ℕ
  pub incarnation_id : ℕ
  pub vehicle_type : ℕ
  pub paint_variant : ℕ
  pub display_name : List ℕ

pub record DespawnRemote : Type 0 where
  pub player_id : ℕ
  pub incarnation_id : ℕ
