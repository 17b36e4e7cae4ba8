-- ===== src/Bridge/Queue.antt =====
-- The FIFO of one player in RemoteCommandQueue: bridge/remote_command_queue.hpp and
-- remote_command_queue.cpp. The sample is PlayerSampleV1 of include/ht2mp/ipc/protocol.hpp.
pub mod Order
pub mod Commands
pub mod Pending
pub mod Invariant
pub mod Pushing
pub mod Accepted
pub mod States
pub mod Controls
pub mod Drains
pub mod Runs
use ht2mp.Prelude.{
  ℕ, zero, suc, ◌+◌, ◌-◌, ◌%◌, ◌^◌, Bool, true, false, not, ◌&&◌, List, [], ◌∷◌, ◌==◌,
  if◌then◌else◌, set, get_or, replicate,
}
use ht2mp.Ipc.Types.{PlayerSample}
use ht2mp.Coordinator.Session.{sequence_newer}

abbrev pub fifo_depth : ℕ
fifo_depth = 8

pub data QueueResult : Type 0 where
  queued dropped_oldest stale invalid overflow : QueueResult

pub record StateFifo : Type 0 where
  pub player_id : ℕ
  pub incarnation_id : ℕ
  pub ring : List PlayerSample
  pub head : ℕ
  pub count : ℕ
  pub last_sequence : ℕ
  pub has_sequence : Bool

-- What PushState does with the FIFO of the sample's player: the result, the FIFO, and by how much
-- dropped_states_ grows.
unfoldable pub push_sample : StateFifo → PlayerSample → QueueResult × StateFifo × ℕ
push_sample fifo command =
    let full = fifo.count == fifo_depth in
    let head = if full then (fifo.head + 1) % fifo_depth else fifo.head in
    let count = if full then fifo.count - 1 else fifo.count in
    let pushed = record fifo {
      ring = set fifo.ring ((head + count) % fifo_depth) command;
      head = head;
      count = count + 1;
      last_sequence = command.sequence;
      has_sequence = true;
    } in
    if fifo.has_sequence && not (sequence_newer command.sequence fifo.last_sequence)
    then (stale, fifo, 0)
    else (if full then dropped_oldest else queued, pushed, if full then 1 else 0)

-- The loop of TryDrain over the samples of one FIFO, from `index` on. The array has an element at
-- each index; `none_there` stands for one that a list would lack.
unfoldable pub samples_from : PlayerSample → List PlayerSample → ℕ → ℕ → ℕ → List PlayerSample
samples_from none_there ring head index zero = []
samples_from none_there ring head index (suc count) =
    get_or ring ((head + index) % fifo_depth) none_there
    ∷ samples_from none_there ring head (index + 1) count

unfoldable pub samples : PlayerSample → StateFifo → List PlayerSample
samples none_there fifo = samples_from none_there fifo.ring fifo.head 0 fifo.count

-- What TryDrain leaves of a FIFO.
unfoldable pub drained : StateFifo → StateFifo
drained fifo = record fifo { head = 0; count = 0 }
