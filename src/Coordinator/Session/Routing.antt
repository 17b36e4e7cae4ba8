-- ===== src/Coordinator/Session/Routing.antt =====
-- To whom the session sends what.
use ht2mp.Prelude.{
  ℕ, ◌+◌, ◌-◌, ◌%◌, ◌^◌, ◌≤◌, ◌<◌, ◌≡◌, refl, ◌≢◌, true, false, Option, not, none, some, List, [],
  ◌∷◌, ◌++◌, All, arith, ◌==◌, if◌then◌else◌, Bool-cases, inl, inr, length, ==_iff, ◌||◌, leb,
}
use ht2mp.Protocol.Float.{Arithmetic}
use ht2mp.Protocol.Types.{Message, PlayerState}
use ht2mp.Protocol.Validation.{valid, validate_state}
use ht2mp.Coordinator.Peers.{
  find, assign, erase, contains, UniqueBy, find-assign, find-erase, assign-UniqueBy, erase-UniqueBy,
}
use ht2mp.Coordinator.Session.{
  Route, Peer, Session, fan_out, broadcast, expire, spoofs, is_stale, sequence_newer, accepted_with,
  rejected, update_state, receive_state, receive_from, receive, disconnect,
}
use ht2mp.Coordinator.Session.Invariant.{WellFormed}

-- The messages of the routes that lead to a connection, in their order.
abbrev pub messages_to : ℕ → List Route → List Message
messages_to k [] = []
messages_to k (r ∷ routes) =
    if r.target == k then r.message ∷ messages_to k routes else messages_to k routes

contains_absent :
    (k : ℕ) (peers : List (ℕ × Peer)) → All (λ e. e.0 ≢ k) peers → contains k peers ≡ false
unfolding contains find
contains_absent k [] h = refl
contains_absent k ((c, p) ∷ peers) h = ground (arith, contains_absent k peers h.1)

-- Each peer but the sender gets the message, and nobody else gets any.
pub messages_to-fan_out :
    (k connection : ℕ) (message : Message) (peers : List (ℕ × Peer))
    → UniqueBy (λ e. e.0) peers
    → messages_to k (fan_out connection message peers)
      ≡ (if k == connection then [] else if contains k peers then message ∷ [] else [])
unfolding fan_out contains find
messages_to-fan_out k connection message [] u = ground arith
messages_to-fan_out k connection message ((c, p) ∷ peers) u = elim (Bool-cases (c == k)) [
  | inl here ↦
      let same : c ≡ k = (==_iff c k).0 here in
      let absent = contains_absent k peers (rw same at u.0) in
      ground (arith, messages_to-fan_out k connection message peers u.1, absent)
  | inr other ↦ ground (arith, messages_to-fan_out k connection message peers u.1)
]

pub messages_to-broadcast :
    (k : ℕ) (message : Message) (peers : List (ℕ × Peer))
    → UniqueBy (λ e. e.0) peers
    → messages_to k (broadcast message peers) ≡ (if contains k peers then message ∷ [] else [])
unfolding broadcast contains find
messages_to-broadcast k message [] u = refl
messages_to-broadcast k message ((c, p) ∷ peers) u = elim (Bool-cases (c == k)) [
  | inl here ↦
      let same : c ≡ k = (==_iff c k).0 here in
      let absent = contains_absent k peers (rw same at u.0) in
      ground (arith, messages_to-broadcast k message peers u.1, absent)
  | inr other ↦ ground (arith, messages_to-broadcast k message peers u.1)
]

-- A sequence number ahead of another by less than half of the circle of 2^32.
abbrev pub Ahead : ℕ → ℕ → Type 0
Ahead candidate baseline =
    (1 ≤ (candidate + 2 ^ 32 - baseline) % 2 ^ 32)
    × ((candidate + 2 ^ 32 - baseline) % 2 ^ 32 < 2 ^ 31)

-- The first state of a peer may have any number.
abbrev pub Newer : Option PlayerState → PlayerState → Type 0
Newer none state = Unit {0}
Newer (some latest) state = Ahead state.sequence latest.sequence

-- A state that bears the identity its peer was admitted with.
pub record Own (s : Session) (peer : Peer) (state : PlayerState) : Type 0 where
  pub session : state.session_id ≡ s.config.session_id
  pub player : state.player_id ≡ peer.info.player_id
  pub incarnation : state.incarnation_id ≡ peer.info.incarnation_id
  pub vehicle : state.vehicle_type ≡ peer.info.vehicle_type
  pub paint : state.paint_variant ≡ peer.info.paint_variant

spoofs-Own :
    (s : Session) (peer : Peer) (state : PlayerState)
    → spoofs s peer state ≡ false
    → Own s peer state
unfolding spoofs
spoofs-Own s peer state h = ground arith

Own-spoofs :
    (s : Session) (peer : Peer) (state : PlayerState)
    → Own s peer state
    → spoofs s peer state ≡ false
unfolding spoofs
Own-spoofs s peer state own = ground arith

is_stale-Newer :
    (peer : Peer) (state : PlayerState) → is_stale peer state ≡ false → Newer peer.latest state
unfolding is_stale sequence_newer
is_stale-Newer peer state h = by_latest peer.latest h
  where
    by_latest :
        (latest : Option PlayerState)
        → (elim latest [ none ↦ false | some l ↦ not (sequence_newer state.sequence l.sequence) ])
          ≡ false
        → Newer latest state
    by_latest none h = tt
    by_latest (some l) h = ground arith

Newer-is_stale :
    (peer : Peer) (state : PlayerState) → Newer peer.latest state → is_stale peer state ≡ false
unfolding is_stale sequence_newer
Newer-is_stale peer state h = by_latest peer.latest h
  where
    by_latest :
        (latest : Option PlayerState)
        → Newer latest state
        → (elim latest [ none ↦ false | some l ↦ not (sequence_newer state.sequence l.sequence) ])
          ≡ false
    by_latest none h = refl
    by_latest (some l) h = ground arith

-- When the state of a registered peer is relayed.
pub record Relayable (fp : Arithmetic) (s : Session) (peer : Peer) (state : PlayerState) (now : ℕ)
    : Type 0 where
  pub well_formed : validate_state fp state s.config.limits ≡ valid
  pub own : Own s peer state
  pub within_rate :
      length (expire now peer.accepted_update_times_ms) < s.config.max_state_updates_per_second
  pub newer : Newer peer.latest state

abbrev pub updated_peer : Peer → PlayerState → ℕ → Peer
updated_peer peer state now = record peer {
  latest = some state;
  latest_received_ms = now;
  accepted_update_times_ms = expire now peer.accepted_update_times_ms ++ now ∷ [];
}

module _ (fp : Arithmetic) where
  receive-Relayable :
      (s : Session) (connection : ℕ) (peer : Peer) (state : PlayerState) (now : ℕ)
      → find connection s.peers ≡ some peer
      → Relayable fp s peer state now
      → let peers = assign connection (updated_peer peer state now) s.peers in
        receive fp s connection (Message.player_state state) now ≡ (
          accepted_with (fan_out connection (Message.player_state state) peers),
          record s { peers = peers },
        )
  unfolding receive receive_from receive_state update_state
  receive-Relayable s connection peer state now found r =
      ground (arith, Own-spoofs s peer state r.own, Newer-is_stale peer state r.newer)

  -- In a well-formed session, for a state of a registered peer that is Relayable, every other peer
  -- is sent that state and nothing else, nobody else is sent anything, and the state is stored as
  -- the latest of its sender; the entries of the other peers do not change.
  pub receive_relays :
      (s : Session) (connection : ℕ) (peer : Peer) (state : PlayerState) (now k : ℕ)
      → WellFormed s
      → find connection s.peers ≡ some peer
      → Relayable fp s peer state now
      → let (answer, after) = receive fp s connection (Message.player_state state) now in
        (messages_to k answer.routes ≡ (
          if k == connection
          then []
          else if contains k s.peers
          then Message.player_state state ∷ []
          else []))
        × (find k after.peers
            ≡ (if k == connection then some (updated_peer peer state now) else find k s.peers))
  unfolding contains
  receive_relays s connection peer state now k w found r =
      let new = updated_peer peer state now in
      let kept = find-assign k connection new peer s.peers found in
      let unique =
        assign-UniqueBy (λ e. e.0) connection new peer s.peers found refl w.keys_unique in
      let sent =
        messages_to-fan_out k connection (Message.player_state state)
          (assign connection new s.peers) unique in
      rw (receive-Relayable s connection peer state now found r) (ground (arith, kept, sent), kept)

  -- What the other peers see of a state that is stopped.
  receive_stopped :
      (s : Session) (connection : ℕ) (peer : Peer) (state : PlayerState) (now k : ℕ)
      → find connection s.peers ≡ some peer
      → k ≢ connection
      → ((validate_state fp state s.config.limits ≡ valid)
          → (spoofs s peer state ≡ false)
          → (leb s.config.max_state_updates_per_second
                (length (expire now peer.accepted_update_times_ms))
              || is_stale peer state)
            ≡ true)
      → let (answer, after) = receive_state fp s connection peer state now in
        (messages_to k answer.routes ≡ []) × (find k after.peers ≡ find k s.peers)
  unfolding receive_state update_state rejected
  receive_stopped s connection peer state now k found other stop =
      let recent = expire now peer.accepted_update_times_ms in
      let expired = record peer { accepted_update_times_ms = recent } in
      ground (arith, find-assign k connection expired peer s.peers found)

  -- A state of a registered peer that is not Relayable is sent to nobody but its sender, and
  -- changes the entry of no other peer.
  pub receive_drops :
      (s : Session) (connection : ℕ) (peer : Peer) (state : PlayerState) (now k : ℕ)
      → find connection s.peers ≡ some peer
      → ¬ Relayable fp s peer state now
      → k ≢ connection
      → let (answer, after) = receive fp s connection (Message.player_state state) now in
        (messages_to k answer.routes ≡ []) × (find k after.peers ≡ find k s.peers)
  unfolding receive receive_from
  receive_drops s connection peer state now k found no_relay other =
      rw (receive, found)
        (receive_stopped s connection peer state now k found other λ ok honest.
          elim (Bool-cases (is_stale peer state)) [
            | inl stale ↦ ground arith
            | inr newer ↦
                elim (Bool-cases (
                  leb s.config.max_state_updates_per_second
                    (length (expire now peer.accepted_update_times_ms)))) [
                      | inl full ↦ ground arith
                      | inr room ↦ absurd (
                          no_relay (record {
                            well_formed = ok;
                            own = spoofs-Own s peer state honest;
                            within_rate = ground arith;
                            newer = is_stale-Newer peer state newer;
                          }))
                    ]
          ])

-- The message of disconnect to those who stay.
abbrev pub departure : Peer → ℕ → Message
departure peer reason = Message.peer_left (record {
  player_id = peer.info.player_id;
  incarnation_id = peer.info.incarnation_id;
  reason = reason;
})

-- In a well-formed session, disconnect of a registered peer removes its entry and no other, and
-- sends every other peer one message, that this player left for this reason, and nobody else any.
pub disconnect_notifies :
    (s : Session) (connection reason k : ℕ) (peer : Peer)
    → WellFormed s
    → find connection s.peers ≡ some peer
    → let (routes, after) = disconnect s connection reason in
      (messages_to k routes ≡ (
        if k == connection
        then []
        else if contains k s.peers
        then departure peer reason ∷ []
        else []))
      × (find k after.peers ≡ (if k == connection then none else find k s.peers))
unfolding disconnect contains
disconnect_notifies s connection reason k peer w found =
    let gone = find-erase k connection s.peers w.keys_unique in
    let unique = erase-UniqueBy (λ e. e.0) connection s.peers w.keys_unique in
    let sent = messages_to-broadcast k (departure peer reason) (erase connection s.peers) unique in
    rw (disconnect, found) (ground (arith, gone, sent), gone)
