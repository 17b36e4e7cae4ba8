-- ===== src/Sim/Server.antt =====
-- accept_server_message of apps/sim/server_protocol.cpp: what a client takes from the coordinator.
-- A violation has a detail, whose texts are kept; a result without one is accepted or terminal.
pub mod Phases
use ht2mp.Prelude.{
  ℕ, Bool, true, false, not, ◌&&◌, ◌||◌, List, [], ◌∷◌, ◌++◌, any, ◌==◌, if◌then◌else◌, bytes_eq,
}
use ht2mp.Prelude.Text.{text}
use ht2mp.Protocol.Float.{Arithmetic}
use ht2mp.Protocol.Types.{
  Message, ServerWelcome, WorldSnapshot, PlayerState, PeerDescription, PeerLeft, max_players_limit,
}
use ht2mp.Protocol.Validation.{ProfileLimits, valid, invalid, validate}

pub record ServerState : Type 0 where
  pub welcomed : Bool
  pub session_id : ℕ
  pub player_id : ℕ

pub record ServerResult : Type 0 where
  pub detail : List ℕ
  pub terminal : Bool

unfoldable pub reject : List ℕ → ServerResult
reject detail = record { detail = detail; terminal = false }

abbrev pub accepted : ServerResult
accepted = record { detail = []; terminal = false }

unfoldable pub accept_welcome : ServerWelcome → List ℕ → ServerState → ServerResult × ServerState
accept_welcome welcome expected_profile state =
    if state.welcomed
    then (reject (text "coordinator sent a repeated ServerWelcome"), state)
    else if not (bytes_eq welcome.profile_id expected_profile)
    then (reject (text "ServerWelcome selected a different game profile"), state)
    else if not (welcome.max_players == max_players_limit) || not (welcome.state_hz == 20)
    then (reject (text "ServerWelcome selected unsupported session limits"), state)
    else (
      accepted,
      record { welcomed = true; session_id = welcome.session_id; player_id = welcome.player_id },
    )

unfoldable pub check_state : PlayerState → ServerState → ServerResult
check_state remote_state state =
    if not (remote_state.session_id == state.session_id)
    then reject (text "relayed PlayerState crossed session boundaries")
    else if remote_state.player_id == state.player_id
    then reject (text "coordinator reflected the simulator's own PlayerState")
    else accepted

-- The loop over a snapshot's players, with the set of those before.
unfoldable pub check_players : ServerState → List ℕ → List PlayerState → ServerResult
check_players state seen [] = accepted
check_players state seen (player ∷ players) =
    let rest = check_players state (player.player_id ∷ seen) players in
    if not (player.session_id == state.session_id)
    then reject (text "WorldSnapshot crossed session boundaries")
    else if any (λ id. id == player.player_id) seen
    then reject (text "WorldSnapshot contains a duplicate player")
    else rest

unfoldable pub check_peer : ℕ → List ℕ → ServerState → ServerResult
check_peer player_id detail state = if player_id == state.player_id then reject detail else accepted

-- The tests on session data.
unfoldable pub check_session : Message → ServerState → ServerResult
check_session (Message.client_hello m) state = accepted
check_session (Message.server_welcome m) state = accepted
check_session (Message.peer_joined m) state =
    check_peer m.player_id (text "PeerJoined advertised the simulator as a remote peer") state
check_session (Message.peer_left m) state =
    check_peer m.player_id (text "PeerLeft targeted the admitted simulator") state
check_session (Message.spawn_metadata m) state =
    check_peer m.player_id (text "SpawnMetadata advertised the simulator as a remote peer") state
check_session (Message.ping m) state = accepted
check_session (Message.pong m) state = accepted
check_session (Message.disconnect m) state = accepted
check_session (Message.player_state s) state = check_state s state
check_session (Message.world_snapshot m) state = check_players state [] m.players

unfoldable pub session_data : Message → ServerState → ServerResult × ServerState
session_data message state =
    if not state.welcomed
    then (reject (text "coordinator sent session data before ServerWelcome"), state)
    else (check_session message state, state)

unfoldable pub accept_valid : Message → List ℕ → ServerState → ServerResult × ServerState
accept_valid (Message.client_hello m) expected_profile state =
    (reject (text "coordinator sent a client-only message"), state)
accept_valid (Message.server_welcome m) expected_profile state =
    accept_welcome m expected_profile state
accept_valid (Message.disconnect m) expected_profile state =
    (record { detail = []; terminal = true }, state)
accept_valid (Message.peer_joined m) expected_profile state =
    session_data (Message.peer_joined m) state
accept_valid (Message.peer_left m) expected_profile state = session_data (Message.peer_left m) state
accept_valid (Message.spawn_metadata m) expected_profile state =
    session_data (Message.spawn_metadata m) state
accept_valid (Message.ping m) expected_profile state = session_data (Message.ping m) state
accept_valid (Message.pong m) expected_profile state = session_data (Message.pong m) state
accept_valid (Message.player_state m) expected_profile state =
    session_data (Message.player_state m) state
accept_valid (Message.world_snapshot m) expected_profile state =
    session_data (Message.world_snapshot m) state

unfoldable pub accept_server_message :
    Arithmetic → Message → List ℕ → ProfileLimits → ServerState → ServerResult × ServerState
accept_server_message a message expected_profile limits state = elim (validate a message limits) [
  | invalid code detail ↦ (reject (text "invalid HT2MP/6 data: " ++ detail), state)
  | valid ↦ accept_valid message expected_profile state
]
