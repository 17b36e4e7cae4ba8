-- ===== src/Coordinator/Session/Runs.antt =====
-- Histories of calls on one session.
use ht2mp.Prelude.{
  ℕ, ◌+◌, ◌-◌, ◌^◌, ◌≤◌, ◌<◌, ◌≡◌, refl, List, [], ◌∷◌, length, arith, inl, inr, Option-cases,
}
use ht2mp.Protocol.Float.{Arithmetic}
use ht2mp.Protocol.Types.{Message, ClientHello, DisconnectReason}
use ht2mp.Coordinator.Session.{
  SessionConfig, Session, Peer, make_session, admit, accept, update_state, receive_state,
  receive_from, receive, disconnect, tick,
}
use ht2mp.Coordinator.Peers.{find}
use ht2mp.Coordinator.Session.Admission.{accept_outcome}
use ht2mp.Coordinator.Session.Admitted.{accept-WellFormed}
use ht2mp.Coordinator.Session.Invariant.{
  WellFormed, make_session-WellFormed, receive-WellFormed, tick-WellFormed, disconnect-WellFormed,
}

-- A call of the transport loop, with the server's time.
pub data Call : Type 0 where
  accepts : ℕ → ClientHello → ℕ → Call
  receives : ℕ → Message → ℕ → Call
  disconnects : ℕ → DisconnectReason → Call
  ticks : ℕ → Call

accept_next :
    (s : Session) (connection : ℕ) (hello : ClientHello) (now : ℕ)
    → s.next_player_id + 1 < 2 ^ 64
    → (accept s connection hello now).1.next_player_id ≤ s.next_player_id + 1
unfolding admit
accept_next s connection hello now h = elim (accept_outcome s connection hello now) [
  | inl (_, e) ↦ rw e (omega arith)
  | inr r ↦ rw r.unchanged (omega arith)
]

module _ (fp : Arithmetic) where
  unfoldable pub step : Session → Call → Session
  step s (accepts connection hello now) = (accept s connection hello now).1
  step s (receives connection message now) = (receive fp s connection message now).1
  step s (disconnects connection reason) = (disconnect s connection reason).1
  step s (ticks now) = (tick fp s now).1

  unfoldable pub run : Session → List Call → Session
  run s [] = s
  run s (call ∷ calls) = run (step s call) calls

  receive_from_next :
      (s : Session) (connection : ℕ) (peer : Peer) (message : Message) (now : ℕ)
      → (receive_from fp s connection peer message now).1.next_player_id ≡ s.next_player_id
  unfolding receive_from receive_state update_state
  receive_from_next s connection peer (Message.player_state state) now = ground arith
  receive_from_next s connection peer _ now = refl

  receive_next :
      (s : Session) (connection : ℕ) (message : Message) (now : ℕ)
      → (receive fp s connection message now).1.next_player_id ≡ s.next_player_id
  unfolding receive
  receive_next s connection message now = elim (Option-cases (find connection s.peers)) [
    | inl absent ↦ rw (receive, absent)
    | inr (peer, found) ↦ rw (receive, found) (receive_from_next s connection peer message now)
  ]

  -- One call admits one player at most.
  step_next :
      (s : Session) (call : Call)
      → s.next_player_id + 1 < 2 ^ 64
      → (step s call).next_player_id ≤ s.next_player_id + 1
  unfolding step disconnect tick
  step_next s (accepts connection hello now) h = accept_next s connection hello now h
  step_next s (receives connection message now) h =
      omega (arith, receive_next s connection message now)
  step_next s (disconnects connection reason) h = ground arith
  step_next s (ticks now) h = ground arith

  step-WellFormed :
      (s : Session) (call : Call)
      → WellFormed s
      → s.next_player_id + 1 < 2 ^ 64
      → WellFormed (step s call)
  unfolding step
  step-WellFormed s (accepts connection hello now) w h =
      accept-WellFormed s connection hello now w h
  step-WellFormed s (receives connection message now) w h =
      receive-WellFormed fp s connection message now w
  step-WellFormed s (disconnects connection reason) w h =
      disconnect-WellFormed s connection reason w
  step-WellFormed s (ticks now) w h = tick-WellFormed fp s now w

  run-WellFormed :
      (s : Session) (calls : List Call)
      → WellFormed s
      → s.next_player_id + length calls < 2 ^ 64
      → WellFormed (run s calls)
  unfolding run
  run-WellFormed s [] w h = w
  run-WellFormed s (call ∷ calls) w h =
      run-WellFormed (step s call) calls (step-WellFormed s call w (omega arith))
        (omega (arith, step_next s call (omega arith)))

  -- After any history of fewer than 2^64 - 1 calls of accept, receive, disconnect and tick on a
  -- new session, the session is well-formed: its configuration and its counts keep to their
  -- limits, no two peers share a connection, a name or a player number, and a peer's stored state
  -- has the identity that the peer was admitted with.
  pub run-make_session-WellFormed :
      (c : SessionConfig) (calls : List Call)
      → length calls < 2 ^ 64 - 1
      → WellFormed (run (make_session c) calls)
  unfolding make_session
  run-make_session-WellFormed c calls h =
      run-WellFormed (make_session c) calls (make_session-WellFormed c) (omega arith)
