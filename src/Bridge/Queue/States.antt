-- ===== src/Bridge/Queue/States.antt =====
-- PushState on the queue: every way it can end.
use ht2mp.Prelude.{
  ℕ, suc, ◌+◌, ◌%◌, ◌^◌, ◌≡◌, ◌≢◌, refl, ap, ◌∙◌, arith, true, false, none, some, List, [], ◌∷◌,
  ◌++◌, length, drop, ◌==◌, if◌then◌else◌, Bool-cases, inl, inr, ◌⊎◌,
}
use ht2mp.Protocol.Float.{Arithmetic}
use ht2mp.Ipc.Types.{PlayerSample}
use ht2mp.Bridge.Queue.{
  fifo_depth, StateFifo, samples, push_sample, QueueResult, stale, queued, dropped_oldest, overflow,
}
use ht2mp.Bridge.Queue.Commands.{
  empty_sample, CommandQueue, push_state, valid_state, valid_identity,
}
use ht2mp.Bridge.Queue.Pending.{Apart, pending, last_pushed, pending_found, pending_same}
use ht2mp.Bridge.Queue.Invariant.{QueueOk}
use ht2mp.Bridge.Queue.Pushing.{Pushed, Taken}
use ht2mp.Bridge.Queue.Accepted.{accepts, PushCase, push_fifos_lem}

-- The oldest sample goes if the FIFO is full.
abbrev pub lost : List PlayerSample → ℕ
lost held = if length held == fifo_depth then 1 else 0

-- A sample that the queue took: it is the player's last.
pub record Accepted (q : CommandQueue) (command : PlayerSample) (result : QueueResult)
    (after : CommandQueue) : Type 0 where
  pub result_is :
      let held = pending command.player_id command.incarnation_id q.fifos in
      result ≡ (if length held == fifo_depth then dropped_oldest else queued)
  pub own_pending :
      let held = pending command.player_id command.incarnation_id q.fifos in
      pending command.player_id command.incarnation_id after.fifos
      ≡ drop (lost held) held ++ command ∷ []
  pub own_last :
      last_pushed command.player_id command.incarnation_id after.fifos ≡ some command.sequence
  pub counted :
      let held = pending command.player_id command.incarnation_id q.fifos in
      after.dropped_states ≡ (q.dropped_states + lost held) % 2 ^ 32

-- The result for a sample that the queue does not take.
unfoldable pub refusal : PlayerSample → List StateFifo → QueueResult
refusal command fifos = elim (last_pushed command.player_id command.incarnation_id fifos) [
  | none ↦ overflow
  | some last ↦ stale
]

valid_state-player :
    (a : Arithmetic) (command : PlayerSample) → valid_state a command ≡ true → command.player_id ≢ 0
unfolding valid_state valid_identity
valid_state-player a command valid none_there =
    let refused : false ≡ true = rw (valid_state, none_there) at valid in absurd cc

-- A player whose samples a call leaves alone.
pub record Unchanged (q after : CommandQueue) (p i : ℕ) : Type 0 where
  pub same_pending : pending p i after.fifos ≡ pending p i q.fifos
  pub same_last : last_pushed p i after.fifos ≡ last_pushed p i q.fifos

pub Unchanged-refl : (q : CommandQueue) (p i : ℕ) → Unchanged q q p i
Unchanged-refl q p i = record { same_pending = refl; same_last = refl }

-- How a push can end, for its player and for another.
abbrev pub PushEnds : CommandQueue → PlayerSample → ℕ → ℕ → QueueResult × CommandQueue → Type 0
PushEnds q command p i ended =
    QueueOk ended.1
    × Unchanged q ended.1 p i
    × (ended.1.controls ≡ q.controls)
    × (((accepts command q.fifos ≡ true) × Accepted q command ended.0 ended.1)
        ⊎ ((accepts command q.fifos ≡ false) × (ended.0 ≡ refusal command q.fifos) × (ended.1 ≡ q)))

-- The queue after a push that changed its FIFOs.
abbrev with_fifos : CommandQueue → List StateFifo → ℕ → CommandQueue
with_fifos q after dropped = record q {
  fifos = after;
  dropped_states = (q.dropped_states + dropped) % 2 ^ 32;
}

Taken-PushEnds :
    (q : CommandQueue) (command : PlayerSample) (f : StateFifo) (after : List StateFifo) (p i : ℕ)
    → p ≢ 0
    → Apart command.player_id command.incarnation_id p i
    → QueueOk q
    → accepts command q.fifos ≡ true
    → pending command.player_id command.incarnation_id q.fifos ≡ samples empty_sample f
    → Pushed f command
    → Taken q.fifos command f after
    → PushEnds q command p i
        ((push_sample f command).0, with_fifos q after (push_sample f command).2)
Taken-PushEnds q command f after p i used apart ok accepted before pushed t =
    let (held, last) =
      pending_found command.player_id command.incarnation_id after (push_sample f command).1
        t.own in
    let (same_pending, same_last) = pending_same p i q.fifos after (t.others p i used apart) in
    (
      record {
        players = t.as_many ∙ ok.players;
        entries = t.entries;
        no_clash = t.no_clash;
        controls = ok.controls;
        counter = omega arith;
      },
      record { same_pending = same_pending; same_last = same_last },
      refl,
      inl (
        accepted,
        record {
          result_is = rw before pushed.result;
          own_pending = held ∙ rw before pushed.held;
          own_last = last ∙ ap some pushed.last;
          counted = rw (before, pushed.drops) refl;
        },
      ),
    )

same_queue : (q : CommandQueue) → QueueOk q → with_fifos q q.fifos 0 ≡ q
same_queue q ok =
    let same : (q.dropped_states + 0) % 2 ^ 32 ≡ q.dropped_states = omega (arith, ok.counter) in
    ap (λ n. record q { dropped_states = n }) same

-- In a well-formed queue PushState of a valid sample takes it exactly if it is newer than the last
-- one of its player and incarnation, or this one has no FIFO and one is free. If it does, the
-- sample becomes the last pending one of its player, after the ones of before without the oldest
-- exactly if there were eight, which is then counted and the result; otherwise the queue is as
-- before and the result is stale or overflow. It stays well-formed, its control commands stay, and
-- so do the pending samples and the last sequence of any other identity whose player is not 0.
pub push_state_lem :
    (a : Arithmetic) (q : CommandQueue) (command : PlayerSample) (p i : ℕ)
    → QueueOk q
    → valid_state a command ≡ true
    → p ≢ 0
    → Apart command.player_id command.incarnation_id p i
    → PushEnds q command p i (push_state a q command)
unfolding push_state accepts refusal
push_state_lem a q command p i ok valid used apart =
    elim (push_fifos_lem command q.fifos (valid_state-player a command valid) ok.entries
      ok.no_clash) [
        | PushCase.no_room none_last full e ↦
            rw (valid, e)
              (
                ok,
                Unchanged-refl q p i,
                refl,
                inr (rw (accepts, none_last) full, rw (refusal, none_last) refl, refl),
              )
        | PushCase.too_old last is_last older e ↦
            rw (valid, e, same_queue q ok)
              (
                ok,
                Unchanged-refl q p i,
                refl,
                inr (rw (accepts, is_last) older, rw (refusal, is_last) refl, refl),
              )
        | PushCase.taken f after accepted before pushed t e ↦
            rw (valid, e)
              (Taken-PushEnds q command f after p i used apart ok accepted before pushed t)
      ]

pub push_state-QueueOk :
    (a : Arithmetic) (q : CommandQueue) (command : PlayerSample)
    → QueueOk q
    → QueueOk (push_state a q command).1
unfolding push_state
push_state-QueueOk a q command ok = elim (Bool-cases (valid_state a command)) [
  | inl valid ↦
      (push_state_lem a q command 1 (suc command.incarnation_id) ok valid (omega arith)
        (λ same. absurd (omega (arith, same.1)))).0
  | inr refused ↦ rw refused ok
]
