-- ===== src/Coordinator/Session/Snapshots.antt =====
-- The periodic snapshot: what tick sends to each peer.
use ht2mp.Prelude.{
  none, some, leb, ℕ, zero, suc, ◌+◌, ◌≤◌, ◌<◌, ◌≡◌, refl, ◌⊎◌, ◌/◌, ◌^◌, ◌%◌, true, false, not,
  ◌&&◌, List, [], ◌∷◌, ◌++◌, length, take, drop, All, arith, ltb, ◌==◌, if◌then◌else◌, Bool-cases,
  inl, inr, length-take, length-drop, take-append-drop,
}
use ht2mp.Protocol.Float.{Arithmetic}
use ht2mp.Protocol.Types.{Message, PlayerState, max_snapshot_players}
use ht2mp.Coordinator.Session.{Route, Peer, Session, chunks, tick}

abbrev pub flatten : List (List PlayerState) → List PlayerState
flatten [] = []
flatten (chunk ∷ later) = chunk ++ flatten later

none_left : (players : List PlayerState) → length players ≡ 0 → players ≡ []
none_left [] e = refl
none_left (s ∷ players) e = absurd (omega arith)

-- Enough fuel: the chunks hold the players in order, and each holds three at most.
pub chunks_lem :
    (fuel : ℕ) (players : List PlayerState)
    → length players < fuel
    → (flatten (chunks fuel players) ≡ players)
      × All (λ chunk. length chunk ≤ max_snapshot_players) (chunks fuel players)
      × (1 ≤ length (chunks fuel players))
unfolding chunks
chunks_lem zero players h = absurd (omega arith)
chunks_lem (suc fuel) players h =
    let few = length-take max_snapshot_players players in
    let rest = length-drop max_snapshot_players players in
    let joined = take-append-drop max_snapshot_players players in
    elim (Bool-cases (length (drop max_snapshot_players players) == 0)) [
      | inl last ↦
          let none_more = none_left (drop max_snapshot_players players) (ground (arith, last)) in
          let whole : take max_snapshot_players players ++ [] ≡ players = rw none_more at joined in
          rw last (whole, (omega arith, tt), omega arith)
      | inr more ↦
          let later = chunks_lem fuel (drop max_snapshot_players players) (ground arith) in
          rw more (rw later.0 joined, (omega arith, later.1), omega arith)
    ]

-- The players of the snapshots that go to a connection, in the order of the routes.
abbrev players_of : Message → List PlayerState
players_of (Message.world_snapshot m) = m.players
players_of other = []

abbrev pub received : ℕ → List Route → List (List PlayerState)
received k [] = []
received k (r ∷ routes) =
    if r.target == k then players_of r.message ∷ received k routes else received k routes

-- The snapshots that `tick` sends a peer.
abbrev pub parts_for : ℕ → List Route × Session → List (List PlayerState)
parts_for k result = received k result.0

-- The states of the peers that were heard of less than `stale_after` ago.
abbrev pub recent_states : ℕ → ℕ → List (ℕ × Peer) → List PlayerState
recent_states now stale_after [] = []
recent_states now stale_after ((connection, peer) ∷ peers) =
    let heard = peer.latest_received_ms in
    let rest = recent_states now stale_after peers in
    elim peer.latest [
      | none ↦ rest
      | some state ↦ if leb heard now && ltb now (heard + stale_after) then state ∷ rest else rest
    ]

-- After a tick that is due, a tick before the period of state_hz is over sends nothing and leaves
-- the session as it is, if the time of the next snapshot is below 2^64.
pub tick-tick :
    (fp : Arithmetic) (s : Session) (now later : ℕ)
    → (s.next_snapshot_ms ≡ 0) ⊎ (s.next_snapshot_ms ≤ now)
    → now + 1000 / s.config.state_hz < 2 ^ 64
    → later < now + 1000 / s.config.state_hz
    → tick fp (tick fp s now).1 later ≡ ([], (tick fp s now).1)
unfolding tick
tick-tick fp s now later due fits soon =
    let start : (not (s.next_snapshot_ms == 0) && ltb now s.next_snapshot_ms) ≡ false =
      ground arith in
    let exact : (now + 1000 / s.config.state_hz) % 2 ^ 64 ≡ now + 1000 / s.config.state_hz =
      omega (arith, fits) in
    let waits : (not (now + 1000 / s.config.state_hz == 0)
          && ltb later (now + 1000 / s.config.state_hz))
        ≡ true =
      ground arith in
    rw (start, exact, waits) refl
