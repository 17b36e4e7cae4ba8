-- ===== src/Tests/Queue.antt =====
-- The command queue at concrete samples: one player whose first sample waits.
use ht2mp.Prelude.{◌≡◌, refl, arith, true, List, [], ◌∷◌, some}
use ht2mp.Protocol.Float.{
  is_finite32, is_finite64, abs32, abs64, is_nan32, is_nan64, key32, key64, lt32, le32, eq32, lt64,
  le64,
}
use ht2mp.Protocol.Replication.{
  valid_speeds_from, valid_wheel_speeds, valid_condition_from, valid_vehicle_state,
}
use ht2mp.Ipc.Types.{DespawnRemote}
use ht2mp.Bridge.Queue.Commands.{
  CommandQueue, CommandBatch, RemoteControl, empty_queue, push_state, valid_state, valid_identity,
  norm_from, try_drain,
}
use ht2mp.Bridge.Queue.Invariant.{QueueOk}
use ht2mp.Bridge.Queue.States.{PushEnds, push_state_lem}
use ht2mp.Bridge.Queue.Controls.{ControlEnds, valid_control, push_control, push_control_lem}
use ht2mp.Bridge.Queue.Drains.{Drained, try_drain_lem}
use ht2mp.Bridge.Queue.Runs
use ht2mp.Bridge.Queue.Runs.{run-QueueOk}
use ht2mp.Tests.Samples.{zero_one}
use ht2mp.Tests.Bridge.{sample}

valid_sample : valid_state zero_one (sample 6) ≡ true
unfolding valid_state valid_identity norm_from is_finite32 is_finite64 abs32 abs64 is_nan32 is_nan64
    key32 key64 lt32 le32 eq32 lt64 le64 valid_speeds_from valid_wheel_speeds valid_condition_from
    valid_vehicle_state
valid_sample = refl

abbrev one_waits : List Runs.Call
one_waits = Runs.Call.pushes_state (sample 5) ∷ []

abbrev waiting : CommandQueue
waiting = Runs.run zero_one empty_queue one_waits

run-QueueOk_example : QueueOk (Runs.run zero_one empty_queue one_waits)
run-QueueOk_example = run-QueueOk zero_one one_waits

push_state_lem_example : PushEnds waiting (sample 6) 9 40 (push_state zero_one waiting (sample 6))
push_state_lem_example =
    push_state_lem zero_one waiting (sample 6) 9 40 (run-QueueOk zero_one one_waits) valid_sample
      (omega arith) (λ same. absurd (omega (arith, same.0)))

abbrev leaves : DespawnRemote
leaves = record { player_id = 4; incarnation_id = 40 }

leaves_valid : valid_control (RemoteControl.despawn leaves) ≡ true
unfolding valid_control valid_identity
leaves_valid = refl

push_control_lem_example :
    ControlEnds waiting
      (RemoteControl.despawn leaves)
      4
      40
      (push_control waiting (RemoteControl.despawn leaves))
push_control_lem_example =
    push_control_lem waiting (RemoteControl.despawn leaves) 4 40 (run-QueueOk zero_one one_waits)
      leaves_valid (omega arith)

try_drain_lem_example :
    (batch : CommandBatch) × (after : CommandQueue) × (try_drain true waiting ≡ some (batch, after))
    × QueueOk after
    × Drained waiting 4 40 batch after
try_drain_lem_example = try_drain_lem waiting 4 40 (run-QueueOk zero_one one_waits) (omega arith)
