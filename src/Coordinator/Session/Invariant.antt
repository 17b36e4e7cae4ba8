-- ===== src/Coordinator/Session/Invariant.antt =====
-- What every operation of a session keeps.
use ht2mp.Prelude.{
  ℕ, ◌≤◌, ◌<◌, ◌≡◌, refl, ap, ◌∙◌, ◌≢◌, false, Option, none, some, List, [], ◌∷◌, length,
  length-append, All, arith, leb, Option-cases, ◌||◌, inl, inr, Bool-cases,
}
use ht2mp.Protocol.Float.{Arithmetic}
use ht2mp.Protocol.Types.{Message, PlayerState}
use ht2mp.Coordinator.Peers.{
  find, erase, assign, UniqueBy, find-All, erase-All, assign-All, length-assign, length-erase,
  erase-UniqueBy, assign-UniqueBy,
}
use ht2mp.Coordinator.Session.{
  SessionConfig, PeerInfo, Peer, Session, make_session, expire, spoofs, is_stale, update_state,
  receive_state, receive_from, receive, disconnect, tick,
}

-- A state that was relayed for a peer bears the identity that the peer was admitted with.
abbrev pub OwnState : SessionConfig → PeerInfo → Option PlayerState → Type 0
OwnState c info none = Unit {0}
OwnState c info (some state) =
    (state.session_id ≡ c.session_id)
    × (state.player_id ≡ info.player_id)
    × (state.incarnation_id ≡ info.incarnation_id)
    × (state.vehicle_type ≡ info.vehicle_type)
    × (state.paint_variant ≡ info.paint_variant)

pub record EntryOk (c : SessionConfig) (next : ℕ) (e : ℕ × Peer) : Type 0 where
  pub keyed : e.1.info.connection_id ≡ e.0
  pub connected : e.0 ≢ 0
  pub id_nonzero : 1 ≤ e.1.info.player_id
  pub id_below : e.1.info.player_id < next
  pub limited : length e.1.accepted_update_times_ms ≤ c.max_state_updates_per_second
  pub own : OwnState c e.1.info e.1.latest

pub record ConfigOk (c : SessionConfig) : Type 0 where
  pub some_players : 1 ≤ c.max_players
  pub most_players : c.max_players ≤ 64
  pub some_hz : 1 ≤ c.state_hz
  pub most_hz : c.state_hz ≤ 40
  pub some_updates : 1 ≤ c.max_state_updates_per_second
  pub session_nonzero : c.session_id ≢ 0

pub record WellFormed (s : Session) : Type 0 where
  pub config_ok : ConfigOk s.config
  pub next_nonzero : 1 ≤ s.next_player_id
  pub keys_unique : UniqueBy (λ e. e.0) s.peers
  pub names_unique : UniqueBy (λ e. e.1.info.display_name) s.peers
  pub ids_unique : UniqueBy (λ e. e.1.info.player_id) s.peers
  pub entries : All (EntryOk s.config s.next_player_id) s.peers
  pub room : length s.peers ≤ s.config.max_players

pub make_session-WellFormed : (c : SessionConfig) → WellFormed (make_session c)
unfolding make_session
make_session-WellFormed c = ground arith

length-expire : (now : ℕ) (times : List ℕ) → length (expire now times) ≤ length times
unfolding expire
length-expire now [] = omega arith
length-expire now (t ∷ times) = ground (arith, length-expire now times)

-- A peer's record may change, but not who the peer is.
replace-WellFormed :
    (s : Session) (connection : ℕ) (old peer : Peer)
    → WellFormed s
    → find connection s.peers ≡ some old
    → peer.info ≡ old.info
    → length peer.accepted_update_times_ms ≤ s.config.max_state_updates_per_second
    → OwnState s.config peer.info peer.latest
    → WellFormed (record s { peers = assign connection peer s.peers })
replace-WellFormed s connection old peer w found same limited own =
    let ok = find-All (EntryOk s.config s.next_player_id) connection s.peers w.entries found in
    record {
      config_ok = w.config_ok;
      next_nonzero = w.next_nonzero;
      keys_unique = assign-UniqueBy (λ e. e.0) connection peer old s.peers found refl w.keys_unique;
      names_unique =
          assign-UniqueBy (λ e. e.1.info.display_name) connection peer old s.peers found
            (ap (λ t. t.display_name) same) w.names_unique;
      ids_unique =
          assign-UniqueBy (λ e. e.1.info.player_id) connection peer old s.peers found
            (ap (λ t. t.player_id) same) w.ids_unique;
      entries =
          assign-All (EntryOk s.config s.next_player_id) connection peer s.peers
            (record {
              keyed = ap (λ t. t.connection_id) same ∙ ok.keyed;
              connected = ok.connected;
              id_nonzero = rw (ap (λ t. t.player_id) same) ok.id_nonzero;
              id_below = rw (ap (λ t. t.player_id) same) ok.id_below;
              limited = limited;
              own = own;
            })
            w.entries;
      room = rw (length-assign connection peer s.peers) w.room;
    }

spoofs-OwnState :
    (s : Session) (peer : Peer) (state : PlayerState)
    → spoofs s peer state ≡ false
    → OwnState s.config peer.info (some state)
unfolding spoofs
spoofs-OwnState s peer state h = ground arith

update_state-WellFormed :
    (s : Session) (connection : ℕ) (peer : Peer) (state : PlayerState) (now : ℕ)
    → WellFormed s
    → find connection s.peers ≡ some peer
    → spoofs s peer state ≡ false
    → WellFormed (update_state s connection peer state now).1
unfolding update_state
update_state-WellFormed s connection peer state now w found own =
    let ok = find-All (EntryOk s.config s.next_player_id) connection s.peers w.entries found in
    let recent = expire now peer.accepted_update_times_ms in
    let shorter = length-expire now peer.accepted_update_times_ms in
    let excess = leb s.config.max_state_updates_per_second (length recent) || is_stale peer state in
    elim (Bool-cases excess) [
      | inl dropped ↦
          rw (update_state, dropped)
            (replace-WellFormed s connection peer _ w found refl
              (omega (arith, shorter, ok.limited)) ok.own)
      | inr taken ↦
          rw (update_state, taken)
            (replace-WellFormed s connection peer _ w found refl
              (ground (arith, length-append recent (now ∷ []), taken))
              (spoofs-OwnState s peer state own))
    ]

module _ (fp : Arithmetic) where
  receive_state-WellFormed :
      (s : Session) (connection : ℕ) (peer : Peer) (state : PlayerState) (now : ℕ)
      → WellFormed s
      → find connection s.peers ≡ some peer
      → WellFormed (receive_state fp s connection peer state now).1
  unfolding receive_state
  receive_state-WellFormed s connection peer state now w found =
      ground (arith, update_state-WellFormed s connection peer state now w found)

  receive_from-WellFormed :
      (s : Session) (connection : ℕ) (peer : Peer) (message : Message) (now : ℕ)
      → WellFormed s
      → find connection s.peers ≡ some peer
      → WellFormed (receive_from fp s connection peer message now).1
  unfolding receive_from
  receive_from-WellFormed s connection peer (Message.player_state state) now w found =
      receive_state-WellFormed s connection peer state now w found
  receive_from-WellFormed s connection peer _ now w found = w

  -- So does receive, on every message and from every connection.
  pub receive-WellFormed :
      (s : Session) (connection : ℕ) (message : Message) (now : ℕ)
      → WellFormed s
      → WellFormed (receive fp s connection message now).1
  unfolding receive
  receive-WellFormed s connection message now w = elim (Option-cases (find connection s.peers)) [
    | inl absent ↦ rw (receive, absent) w
    | inr (peer, found) ↦
        rw (receive, found) (receive_from-WellFormed s connection peer message now w found)
  ]

  -- And tick.
  pub tick-WellFormed : (s : Session) (now : ℕ) → WellFormed s → WellFormed (tick fp s now).1
  unfolding tick
  tick-WellFormed s now w = ground arith

erase-WellFormed :
    (s : Session) (connection : ℕ)
    → WellFormed s
    → WellFormed (record s { peers = erase connection s.peers })
erase-WellFormed s connection w = record {
  config_ok = w.config_ok;
  next_nonzero = w.next_nonzero;
  keys_unique = erase-UniqueBy (λ e. e.0) connection s.peers w.keys_unique;
  names_unique = erase-UniqueBy (λ e. e.1.info.display_name) connection s.peers w.names_unique;
  ids_unique = erase-UniqueBy (λ e. e.1.info.player_id) connection s.peers w.ids_unique;
  entries = erase-All (EntryOk s.config s.next_player_id) connection s.peers w.entries;
  room = omega (arith, length-erase connection s.peers, w.room);
}

-- And disconnect.
pub disconnect-WellFormed :
    (s : Session) (connection reason : ℕ)
    → WellFormed s
    → WellFormed (disconnect s connection reason).1
unfolding disconnect
disconnect-WellFormed s connection reason w = elim (Option-cases (find connection s.peers)) [
  | inl absent ↦ rw (disconnect, absent) w
  | inr (peer, found) ↦ rw (disconnect, found) (erase-WellFormed s connection w)
]
