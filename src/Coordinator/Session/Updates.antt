-- ===== src/Coordinator/Session/Updates.antt =====
-- Session::receive of apps/coordinator/session.cpp, and sequence_newer of src/protocol/interpolation.cpp.
use ht2mp.Prelude.{
  ℕ, ◌+◌, ◌-◌, ◌%◌, ◌^◌, Bool, false, not, ◌&&◌, ◌||◌, none, some, List, [], ◌∷◌, ◌++◌, ltb, leb,
  ◌==◌, if◌then◌else◌, length,
}
use ht2mp.Prelude.Text.{text}
use ht2mp.Protocol.Float.{Arithmetic}
use ht2mp.Protocol.Types.{Message, PlayerState, normal, protocol_error}
use ht2mp.Protocol.Validation.{valid, invalid, validate_state}
use ht2mp.Coordinator.Peers.{find, assign}
use ht2mp.Coordinator.Session.State.{Route, DispatchResult, Peer, Session}
use ht2mp.Coordinator.Session.Joining.{route, accepted_with, rejected}

-- RFC 1982 half-range order of 32-bit sequence numbers.
unfoldable pub sequence_newer : ℕ → ℕ → Bool
sequence_newer candidate baseline =
    let delta = (candidate + 2 ^ 32 - baseline) % 2 ^ 32 in
    not (delta == 0) && ltb delta 0x8000_0000

-- The while loop that forgets updates of a second ago and before; the list is oldest first.
unfoldable pub expire : ℕ → List ℕ → List ℕ
expire now [] = []
expire now (t ∷ times) =
    let rest = expire now times in if leb t now && leb 1000 (now - t) then rest else t ∷ times

unfoldable pub spoofs : Session → Peer → PlayerState → Bool
spoofs s peer state =
    not (state.session_id == s.config.session_id)
    || (not (state.player_id == peer.info.player_id)
        || (not (state.incarnation_id == peer.info.incarnation_id)
            || (not (state.vehicle_type == peer.info.vehicle_type)
                || not (state.paint_variant == peer.info.paint_variant))))

unfoldable pub is_stale : Peer → PlayerState → Bool
is_stale peer state = elim peer.latest [
  | none ↦ false
  | some latest ↦ not (sequence_newer state.sequence latest.sequence)
]

-- The fan-out of an accepted state to everybody else.
unfoldable pub fan_out : ℕ → Message → List (ℕ × Peer) → List Route
fan_out connection message [] = []
fan_out connection message ((other_connection, other) ∷ peers) =
    let rest = fan_out connection message peers in
    if not (other_connection == connection) then route other_connection message ∷ rest else rest

-- What receive does with a state that names its sender rightly.
unfoldable pub update_state : Session → ℕ → Peer → PlayerState → ℕ → DispatchResult × Session
update_state s connection peer state now =
    let recent = expire now peer.accepted_update_times_ms in
    let expired = record peer { accepted_update_times_ms = recent } in
    let updated = record peer {
      latest = some state;
      latest_received_ms = now;
      accepted_update_times_ms = recent ++ now ∷ [];
    } in
    if leb s.config.max_state_updates_per_second (length recent) || is_stale peer state
    then (accepted_with [], record s { peers = assign connection expired s.peers })
    else (let peers = assign connection updated s.peers in
        (
          accepted_with (fan_out connection (Message.player_state state) peers),
          record s { peers = peers },
        ))

module _ (fp : Arithmetic) where
  unfoldable pub receive_state : Session → ℕ → Peer → PlayerState → ℕ → DispatchResult × Session
  receive_state s connection peer state now = elim (validate_state fp state s.config.limits) [
    | invalid code detail ↦ (rejected connection protocol_error detail, s)
    | valid ↦
        if spoofs s peer state
        then (
          rejected connection protocol_error (text "player state attempts to spoof identity"),
          s,
        )
        else update_state s connection peer state now
  ]

  -- The dispatch on the message of a registered peer.
  unfoldable pub receive_from : Session → ℕ → Peer → Message → ℕ → DispatchResult × Session
  receive_from s connection peer (Message.ping m) now = (
    accepted_with (
        route connection (
          Message.pong
            (record { nonce = m.nonce; client_time_ms = m.client_time_ms; server_time_ms = now }))
        ∷ []),
    s,
  )
  receive_from s connection peer (Message.disconnect m) now = (
    record {
      accepted = false;
      reason = normal;
      detail = text "client requested disconnect";
      routes = [];
    },
    s,
  )
  receive_from s connection peer (Message.player_state state) now =
      receive_state s connection peer state now
  receive_from s connection peer other now =
      (rejected connection protocol_error (text "message is not valid client traffic"), s)

  unfoldable pub receive : Session → ℕ → Message → ℕ → DispatchResult × Session
  receive s connection message now = elim (find connection s.peers) [
    | none ↦ (rejected connection protocol_error (text "ClientHello is required first"), s)
    | some peer ↦ receive_from s connection peer message now
  ]
