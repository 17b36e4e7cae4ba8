-- ===== src/Ipc/Messages/Fits.antt =====
-- What the C++ types and the decoders allow of a message.
use ht2mp.Prelude.{◌≤◌, ◌≡◌, true, length}
use ht2mp.Protocol.Ranges.{
  IsU8, IsU16, IsU32, IsU64, IsBool, IsArray, LocationFits, VehicleFits, EnvironmentFits,
}
use ht2mp.Protocol.Replication.{valid_vehicle_state, valid_environment}
use ht2mp.Ipc.Types.{
  FrameType, BridgeHello, BridgeReady, BridgeStatus, SetObserverMode, EnterSafeMode, PlayerSample,
  Environment, SpawnRemote, DespawnRemote, mode_observer, mode_safe, background_tick_stalled,
  internal_error,
}
use ht2mp.Ipc.Messages.{is_terminated}

pub record BridgeHelloFits (m : BridgeHello) : Type 0 where
  pub abi_version : IsU32 m.abi_version
  pub run_id : IsU64 m.run_id
  pub nonce : length m.nonce ≡ 16
  pub profile_id : length m.profile_id ≡ 32

pub record BridgeReadyFits (m : BridgeReady) : Type 0 where
  pub result : m.result ≤ internal_error
  pub mode_low : mode_observer ≤ m.mode
  pub mode_high : m.mode ≤ mode_safe
  pub capabilities : IsU32 m.capabilities

pub record BridgeStatusFits (m : BridgeStatus) : Type 0 where
  pub code : m.code ≤ background_tick_stalled
  pub mode_low : mode_observer ≤ m.mode
  pub mode_high : m.mode ≤ mode_safe
  pub detail : length m.detail ≡ 160

pub record PlayerSampleFits (m : PlayerSample) : Type 0 where
  pub player_id : IsU64 m.player_id
  pub incarnation_id : IsU64 m.incarnation_id
  pub sample_time_ms : IsU64 m.sample_time_ms
  pub receive_time_us : IsU64 m.receive_time_us
  pub sequence : IsU32 m.sequence
  pub flags : IsU8 m.flags
  pub position : IsArray 3 IsU64 m.position
  pub orientation : IsArray 4 IsU32 m.orientation
  pub linear_velocity : IsArray 3 IsU32 m.linear_velocity
  pub angular_velocity : IsArray 3 IsU32 m.angular_velocity
  pub vehicle_type : IsU16 m.vehicle_type
  pub paint_variant : IsU8 m.paint_variant
  pub location : LocationFits m.location
  pub vehicle : VehicleFits m.vehicle
  pub vehicle_valid : valid_vehicle_state m.vehicle ≡ true

pub record SpawnRemoteFits (m : SpawnRemote) : Type 0 where
  pub player_id : IsU64 m.player_id
  pub incarnation_id : IsU64 m.incarnation_id
  pub vehicle_type : IsU16 m.vehicle_type
  pub paint_variant : IsU8 m.paint_variant
  pub display_name : length m.display_name ≡ 33
  pub terminated : is_terminated m.display_name ≡ true

pub record DespawnRemoteFits (m : DespawnRemote) : Type 0 where
  pub player_id : IsU64 m.player_id
  pub incarnation_id : IsU64 m.incarnation_id

pub record EnvironmentMessageFits (m : Environment) : Type 0 where
  pub server_time_ms : IsU64 m.server_time_ms
  pub receive_time_us : IsU64 m.receive_time_us
  pub state : EnvironmentFits m.state
  pub state_valid : valid_environment m.state ≡ true

-- The message that each kind of frame carries.
abbrev pub Content : FrameType → Type 0
Content FrameType.bridge_hello = BridgeHello
Content FrameType.bridge_ready = BridgeReady
Content FrameType.bridge_status = BridgeStatus
Content FrameType.local_sample = PlayerSample
Content FrameType.spawn_remote = SpawnRemote
Content FrameType.remote_sample = PlayerSample
Content FrameType.despawn_remote = DespawnRemote
Content FrameType.set_observer_mode = SetObserverMode
Content FrameType.enter_safe_mode = EnterSafeMode
Content FrameType.environment = Environment

abbrev pub ContentFits : (type : FrameType) → Content type → Type 0
ContentFits FrameType.bridge_hello m = BridgeHelloFits m
ContentFits FrameType.bridge_ready m = BridgeReadyFits m
ContentFits FrameType.bridge_status m = BridgeStatusFits m
ContentFits FrameType.local_sample m = PlayerSampleFits m
ContentFits FrameType.spawn_remote m = SpawnRemoteFits m
ContentFits FrameType.remote_sample m = PlayerSampleFits m
ContentFits FrameType.despawn_remote m = DespawnRemoteFits m
ContentFits FrameType.set_observer_mode m = IsBool m.enabled
ContentFits FrameType.enter_safe_mode m = IsU32 m.reason
ContentFits FrameType.environment m = EnvironmentMessageFits m
