-- ===== src/Coordinator/Session/State.antt =====
-- The configuration and the state of a Session, and the answers it gives: apps/coordinator/session.hpp,
-- and the constructor of session.cpp.
use ht2mp.Prelude.{ℕ, Bool, not, Option, none, List, [], ltb, ◌==◌, if◌then◌else◌, max}
use ht2mp.Protocol.Replication.{valid_environment, default_environment}
use ht2mp.Protocol.Types.{
  Message, PlayerState, EnvironmentState, DisconnectReason, max_players_limit,
}
use ht2mp.Protocol.Validation.{ProfileLimits}

pub data AuthenticationMode : Type 0 where
  token public_access : AuthenticationMode

pub record SessionConfig : Type 0 where
  pub profile_id : List ℕ
  pub token : List ℕ
  pub authentication : AuthenticationMode
  pub session_id : ℕ
  pub max_players : ℕ
  pub state_hz : ℕ
  pub max_state_updates_per_second : ℕ
  pub stale_state_ms : ℕ
  pub limits : ProfileLimits
  pub environment : EnvironmentState

pub record Route : Type 0 where
  pub target : ℕ
  pub message : Message

pub record DispatchResult : Type 0 where
  pub accepted : Bool
  pub reason : DisconnectReason
  pub detail : List ℕ
  pub routes : List Route

pub record PeerInfo : Type 0 where
  pub connection_id : ℕ
  pub player_id : ℕ
  pub incarnation_id : ℕ
  pub vehicle_type : ℕ
  pub paint_variant : ℕ
  pub display_name : List ℕ

pub record Peer : Type 0 where
  pub info : PeerInfo
  pub latest : Option PlayerState
  pub latest_received_ms : ℕ
  pub accepted_update_times_ms : List ℕ

pub record Session : Type 0 where
  pub config : SessionConfig
  pub peers : List (ℕ × Peer)
  pub next_player_id : ℕ
  pub next_snapshot_ms : ℕ
  pub environment_epoch_ms : Option ℕ

-- std::clamp.
abbrev pub clamp : ℕ → ℕ → ℕ → ℕ
clamp value low high = if ltb value low then low else if ltb high value then high else value

unfoldable pub make_session : SessionConfig → Session
make_session c =
    let session_id = if c.session_id == 0 then 1 else c.session_id in
    let environment =
      if not (valid_environment c.environment) then default_environment else c.environment in
    record {
      config = record c {
        max_players = clamp c.max_players 1 max_players_limit;
        state_hz = clamp c.state_hz 1 40;
        max_state_updates_per_second = max c.max_state_updates_per_second 1;
        session_id = session_id;
        environment = record environment { session_id = session_id };
      };
      peers = [];
      next_player_id = 1;
      next_snapshot_ms = 0;
      environment_epoch_ms = none;
    }
