-- ===== src/Coordinator/Session/Periodic.antt =====
-- Session::disconnect and Session::tick of apps/coordinator/session.cpp.
use ht2mp.Prelude.{
  ℕ, zero, suc, ◌+◌, ◌-◌, ◌/◌, ◌%◌, ◌^◌, not, ◌&&◌, Option, none, some, List, [], ◌∷◌, ◌++◌, ltb,
  leb, ◌==◌, if◌then◌else◌, length, take, drop,
}
use ht2mp.Protocol.Float.{Arithmetic}
use ht2mp.Protocol.Replication.{advance_environment}
use ht2mp.Protocol.Types.{
  Message, PlayerState, EnvironmentState, DisconnectReason, max_snapshot_players,
}
use ht2mp.Coordinator.Peers.{find, erase}
use ht2mp.Coordinator.Session.State.{Route, Peer, Session}
use ht2mp.Coordinator.Session.Joining.{route}

-- One message to each peer.
unfoldable pub broadcast : Message → List (ℕ × Peer) → List Route
broadcast message [] = []
broadcast message ((connection, peer) ∷ peers) = route connection message ∷ broadcast message peers

unfoldable pub disconnect : Session → ℕ → DisconnectReason → List Route × Session
disconnect s connection reason = elim (find connection s.peers) [
  | none ↦ ([], s)
  | some peer ↦
      let left = Message.peer_left (record {
        player_id = peer.info.player_id;
        incarnation_id = peer.info.incarnation_id;
        reason = reason;
      }) in
      let peers = erase connection s.peers in (broadcast left peers, record s { peers = peers })
]

-- The states that go into a snapshot: each peer's latest, unless it is stale.
unfoldable pub fresh_state : ℕ → ℕ → Peer → Option PlayerState
fresh_state now stale_after peer = elim peer.latest [
  | none ↦ none
  | some state ↦
      if leb peer.latest_received_ms now && ltb (now - peer.latest_received_ms) stale_after
      then some state
      else none
]

unfoldable pub fresh_states : ℕ → ℕ → List (ℕ × Peer) → List PlayerState
fresh_states now stale_after [] = []
fresh_states now stale_after ((connection, peer) ∷ peers) =
    let rest = fresh_states now stale_after peers in
    elim (fresh_state now stale_after peer) [ none ↦ rest | some state ↦ state ∷ rest ]

-- std::sort by the player's number.
unfoldable pub insert_state : PlayerState → List PlayerState → List PlayerState
insert_state s [] = s ∷ []
insert_state s (t ∷ states) =
    let rest = insert_state s states in
    if ltb t.player_id s.player_id then t ∷ rest else s ∷ t ∷ states

unfoldable pub sort_states : List PlayerState → List PlayerState
sort_states [] = []
sort_states (s ∷ states) = insert_state s (sort_states states)

-- The loop that cuts the players into chunks of max_snapshot_players; an empty list is one chunk.
unfoldable pub chunks : ℕ → List PlayerState → List (List PlayerState)
chunks zero players = []
chunks (suc fuel) players =
    let chunk = take max_snapshot_players players in
    let players_left = drop max_snapshot_players players in
    let later = chunks fuel players_left in
    if length players_left == 0 then chunk ∷ [] else chunk ∷ later

unfoldable pub snapshot_routes :
    ℕ → EnvironmentState → List (ℕ × Peer) → List (List PlayerState) → List Route
snapshot_routes now environment peers [] = []
snapshot_routes now environment peers (chunk ∷ later) =
    broadcast
      (Message.world_snapshot
        (record { server_time_ms = now; players = chunk; environment = environment }))
      peers
    ++ snapshot_routes now environment peers later

unfoldable pub snapshot_players : Session → ℕ → List PlayerState
snapshot_players s now = sort_states (fresh_states now s.config.stale_state_ms s.peers)

abbrev pub epoch_or : Option ℕ → ℕ → ℕ
epoch_or none now = now
epoch_or (some epoch) now = epoch

module _ (fp : Arithmetic) where
  open fp use {divide, from_u64}

  -- The environment at `now`: 1000.0 is the divisor.
  unfoldable pub current_environment : Session → ℕ → EnvironmentState
  current_environment s now =
      let epoch = epoch_or s.environment_epoch_ms now in
      let elapsed = if leb epoch now then now - epoch else 0 in
      advance_environment fp s.config.environment (divide (from_u64 elapsed) 0x408f_4000_0000_0000)

  unfoldable pub tick : Session → ℕ → List Route × Session
  tick s now =
      let players = snapshot_players s now in
      if not (s.next_snapshot_ms == 0) && ltb now s.next_snapshot_ms then ([], s) else (
        snapshot_routes now (current_environment s now) s.peers
            (chunks (suc (length players)) players),
        record s {
          next_snapshot_ms = (now + 1000 / s.config.state_hz) % 2 ^ 64;
          environment_epoch_ms = some (epoch_or s.environment_epoch_ms now);
        },
      )
