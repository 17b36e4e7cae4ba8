-- ===== src/Bridge/Queue/Runs.antt =====
-- Histories of calls of RemoteCommandQueue.
use ht2mp.Prelude.{
  ℕ, zero, suc, replicate, refl, arith, ◌∙◌, Bool, true, false, none, some, List, [], ◌∷◌,
  length-map, All, inr,
}
use ht2mp.Protocol.Float.{Arithmetic}
use ht2mp.Ipc.Types.{PlayerSample}
use ht2mp.Bridge.Registry.{max_remote_players}
use ht2mp.Bridge.Queue.Commands.{
  empty_fifo, empty_queue, CommandQueue, RemoteControl, push_state, try_drain, clear,
}
use ht2mp.Bridge.Queue.Invariant.{
  QueueOk, Clash, NoClash, EntryOk, map-All, map-NoClash, empty_fifo-EntryOk,
}
use ht2mp.Bridge.Queue.States.{push_state-QueueOk}
use ht2mp.Bridge.Queue.Controls.{push_control, push_control-QueueOk}
use ht2mp.Bridge.Queue.Drains.{try_drain_lem}

pub data Call : Type 0 where
  pushes_state : PlayerSample → Call
  pushes_control : RemoteControl → Call
  drains : Bool → Call
  clears : Call

unfoldable pub step : Arithmetic → CommandQueue → Call → CommandQueue
step a q (Call.pushes_state command) = (push_state a q command).1
step a q (Call.pushes_control control) = (push_control q control).1
step a q (Call.drains lock_free) = elim (try_drain lock_free q) [
  | none ↦ q
  | some (batch, after) ↦ after
]
step a q Call.clears = clear q

unfoldable pub run : Arithmetic → CommandQueue → List Call → CommandQueue
run a q [] = q
run a q (call ∷ calls) = run a (step a q call) calls

free-Clash : (count : ℕ) → All (λ g. ¬ Clash empty_fifo g) (replicate count empty_fifo)
free-Clash zero = tt
free-Clash (suc count) = ((λ clash. clash.0 refl), free-Clash count)

free-NoClash : (count : ℕ) → NoClash (replicate count empty_fifo)
free-NoClash zero = tt
free-NoClash (suc count) = (free-Clash count, free-NoClash count)

empty_queue-QueueOk : QueueOk empty_queue
empty_queue-QueueOk =
    let e = empty_fifo-EntryOk in
    record {
      players = refl;
      entries = (e, (e, (e, (e, (e, (e, (e, tt)))))));
      no_clash = free-NoClash max_remote_players;
      controls = omega arith;
      counter = omega arith;
    }

clear-QueueOk : (q : CommandQueue) → QueueOk q → QueueOk (clear q)
unfolding clear
clear-QueueOk q ok = record {
  players = length-map q.fifos (λ f. empty_fifo) ∙ ok.players;
  entries = map-All EntryOk (λ f. empty_fifo) (λ f h. empty_fifo-EntryOk) q.fifos ok.entries;
  no_clash = map-NoClash (λ f. empty_fifo) (λ f. inr refl) q.fifos ok.no_clash;
  controls = omega arith;
  counter = omega arith;
}

drains-QueueOk :
    (a : Arithmetic) (q : CommandQueue) (lock_free : Bool)
    → QueueOk q
    → QueueOk (step a q (Call.drains lock_free))
unfolding step
drains-QueueOk a q true ok =
    let (batch, after, e, kept, d) = try_drain_lem q 1 0 ok (omega arith) in rw (step, e) kept
drains-QueueOk a q false ok = unfold try_drain in ok

step-QueueOk :
    (a : Arithmetic) (q : CommandQueue) (call : Call) → QueueOk q → QueueOk (step a q call)
unfolding step
step-QueueOk a q (Call.pushes_state command) ok = push_state-QueueOk a q command ok
step-QueueOk a q (Call.pushes_control control) ok = push_control-QueueOk q control ok
step-QueueOk a q (Call.drains lock_free) ok = drains-QueueOk a q lock_free ok
step-QueueOk a q Call.clears ok = clear-QueueOk q ok

run-keeps :
    (a : Arithmetic) (q : CommandQueue) (calls : List Call) → QueueOk q → QueueOk (run a q calls)
unfolding run
run-keeps a q [] ok = ok
run-keeps a q (call ∷ calls) ok = run-keeps a (step a q call) calls (step-QueueOk a q call ok)

-- After any calls of PushState, PushSpawn, PushDespawn, TryDrain and Clear on a new queue there
-- are seven FIFOs, no two for the same player and incarnation, each with its head and count within
-- its ring and only samples of its own player, a free one is empty, at most 32 control commands
-- wait, and the count of dropped samples is below 2^32.
pub run-QueueOk : (a : Arithmetic) (calls : List Call) → QueueOk (run a empty_queue calls)
run-QueueOk a calls = run-keeps a empty_queue calls empty_queue-QueueOk
