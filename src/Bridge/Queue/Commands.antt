-- ===== src/Bridge/Queue/Commands.antt =====
-- RemoteCommandQueue: every operation of bridge/remote_command_queue.cpp. The control commands are
-- the first control_count_ of the array; a call is what happens while its thread holds the lock.
use Prim.Native.Nat.{bit_and}
use ht2mp.Prelude.{
  ℕ, ◌+◌, ◌%◌, ◌^◌, Bool, false, not, ◌&&◌, ◌||◌, Option, none, some, List, [], ◌∷◌, ◌++◌, length,
  map, all, leb, ◌==◌, if◌then◌else◌, replicate,
}
use ht2mp.Protocol.Float.{Arithmetic, is_finite32, is_finite64, abs64, le64}
use ht2mp.Protocol.Replication.{valid_vehicle_state}
use ht2mp.Ipc.Types.{PlayerSample, SpawnRemote, DespawnRemote}
use ht2mp.Ipc.Messages.{is_terminated}
use ht2mp.Bridge.Registry.{max_remote_players}
use ht2mp.Bridge.Queue.{
  fifo_depth, QueueResult, queued, invalid, overflow, StateFifo, push_sample, samples, drained,
}

abbrev pub max_controls : ℕ
max_controls = 32

pub data RemoteControl : Type 0 where
  spawn : SpawnRemote → RemoteControl
  despawn : DespawnRemote → RemoteControl

pub record CommandBatch : Type 0 where
  pub controls : List RemoteControl
  pub states : List PlayerSample
  pub dropped_states : ℕ

pub record CommandQueue : Type 0 where
  pub controls : List RemoteControl
  pub fifos : List StateFifo
  pub dropped_states : ℕ

-- `PlayerSampleV1{}`.
abbrev pub empty_sample : PlayerSample
empty_sample = record {
  player_id = 0;
  incarnation_id = 0;
  sample_time_ms = 0;
  receive_time_us = 0;
  sequence = 0;
  flags = 0;
  position = replicate 3 0;
  orientation = replicate 4 0;
  linear_velocity = replicate 3 0;
  angular_velocity = replicate 3 0;
  vehicle_type = 0;
  paint_variant = 0;
  location = record {
    room_id = 0;
    road_id = 0;
    node_id = 0;
    road_distance = 0;
    road_segment_vector_id = 0;
    road_segment_id = 0;
    aux0 = 0;
    aux1 = 0;
  };
  vehicle = record {
    valid = 0;
    steering = 0;
    lights = replicate 4 0;
    condition = replicate 49 0;
    wheels = record { count = 0; radians_per_second = replicate 8 0 };
    horn = record { active = 0; tone = 0; press_sequence = 0 };
  };
}

-- `StateFifo{}`.
abbrev pub empty_fifo : StateFifo
empty_fifo = record {
  player_id = 0;
  incarnation_id = 0;
  ring = replicate fifo_depth empty_sample;
  head = 0;
  count = 0;
  last_sequence = 0;
  has_sequence = false;
}

abbrev pub empty_queue : CommandQueue
empty_queue = record {
  controls = [];
  fifos = replicate max_remote_players empty_fifo;
  dropped_states = 0;
}

unfoldable pub valid_identity : ℕ → ℕ → Bool
valid_identity player_id incarnation_id = not (player_id == 0) && not (incarnation_id == 0)

unfoldable pub valid_spawn : SpawnRemote → Bool
valid_spawn command =
    valid_identity command.player_id command.incarnation_id
    && (leb command.paint_variant 3 && is_terminated command.display_name)

-- The loop over the orientation's components, from a sum on.
unfoldable pub norm_from : Arithmetic → ℕ → List ℕ → ℕ
norm_from a total [] = total
norm_from a total (c ∷ components) =
    norm_from a (a.add total (a.multiply (a.widen c) (a.widen c))) components

unfoldable pub valid_state : Arithmetic → PlayerSample → Bool
valid_state a command =
    if not (valid_identity command.player_id command.incarnation_id)
      || (not (bit_and command.flags 0xf8 == 0)
          || (not (leb command.paint_variant 3) || not (valid_vehicle_state command.vehicle)))
    then false
    else if not (all is_finite64 command.position)
        || (not (all is_finite32 command.orientation)
            || (not (all is_finite32 command.linear_velocity)
                || (not (all is_finite32 command.angular_velocity)
                    || not (is_finite64 command.location.road_distance))))
    then false
    else le64 (abs64 (a.subtract (norm_from a 0 command.orientation) 0x3ff0_0000_0000_0000))
        0x3fa9_9999_9999_999a

unfoldable pub same_player : ℕ → ℕ → StateFifo → Bool
same_player player_id incarnation_id fifo =
    fifo.player_id == player_id && fifo.incarnation_id == incarnation_id

unfoldable pub is_free : StateFifo → Bool
is_free fifo = fifo.player_id == 0

-- What a call did to one FIFO: its result, the FIFO, and by how much dropped_states_ grows.
abbrev pub Push : Type 0
Push = StateFifo → QueueResult × StateFifo × ℕ

-- A loop that finds the first FIFO of a kind, and what is then done to it in place.
unfoldable pub push_first :
    (StateFifo → Bool) → Push → List StateFifo → Option (QueueResult × List StateFifo × ℕ)
push_first test push [] = none
push_first test push (fifo ∷ fifos) =
    let rest = push_first test push fifos in
    let (result, after, dropped) = push fifo in
    if test fifo then some (result, after ∷ fifos, dropped) else elim rest [
      | none ↦ none
      | some (result', fifos', dropped') ↦ some (result', fifo ∷ fifos', dropped')
    ]

-- FindFifo, or a free FIFO that becomes the player's, and the push.
unfoldable pub push_fifos :
    PlayerSample → List StateFifo → Option (QueueResult × List StateFifo × ℕ)
push_fifos command fifos =
    let fresh = record empty_fifo {
      player_id = command.player_id;
      incarnation_id = command.incarnation_id;
    } in
    elim (push_first (same_player command.player_id command.incarnation_id)
      (λ fifo. push_sample fifo command) fifos) [
        | some pushed ↦ some pushed
        | none ↦ push_first is_free (λ fifo. push_sample fresh command) fifos
      ]

unfoldable pub push_state : Arithmetic → CommandQueue → PlayerSample → QueueResult × CommandQueue
push_state a queue command =
    if not (valid_state a command)
    then (invalid, queue)
    else elim (push_fifos command queue.fifos) [
      | none ↦ (overflow, queue)
      | some (result, fifos, dropped) ↦ (
        result,
        record queue { fifos = fifos; dropped_states = (queue.dropped_states + dropped) % 2 ^ 32 },
      )
    ]

-- The test of RemoveStatesForPlayer.
unfoldable pub removes : ℕ → ℕ → StateFifo → Bool
removes player_id except_incarnation fifo =
    fifo.player_id == player_id
    && (except_incarnation == 0 || not (fifo.incarnation_id == except_incarnation))

unfoldable pub kept_or_reset : ℕ → ℕ → StateFifo → StateFifo
kept_or_reset player_id except_incarnation fifo =
    if removes player_id except_incarnation fifo then empty_fifo else fifo

unfoldable pub remove_states : ℕ → ℕ → List StateFifo → List StateFifo
remove_states player_id except_incarnation = map (kept_or_reset player_id except_incarnation)

unfoldable pub push_spawn : CommandQueue → SpawnRemote → QueueResult × CommandQueue
push_spawn queue command =
    if not (valid_spawn command)
    then (invalid, queue)
    else if length queue.controls == max_controls
    then (overflow, queue)
    else (
      queued,
      record queue {
        controls = queue.controls ++ RemoteControl.spawn command ∷ [];
        fifos = remove_states command.player_id command.incarnation_id queue.fifos;
      },
    )

unfoldable pub push_despawn : CommandQueue → DespawnRemote → QueueResult × CommandQueue
push_despawn queue command =
    if not (valid_identity command.player_id command.incarnation_id)
    then (invalid, queue)
    else if length queue.controls == max_controls
    then (overflow, queue)
    else (
      queued,
      record queue {
        controls = queue.controls ++ RemoteControl.despawn command ∷ [];
        fifos = remove_states command.player_id 0 queue.fifos;
      },
    )

-- The samples that the loop over the FIFOs emits.
unfoldable pub all_samples : List StateFifo → List PlayerSample
all_samples [] = []
all_samples (fifo ∷ fifos) = samples empty_sample fifo ++ all_samples fifos

-- `none`: another thread has the lock.
unfoldable pub try_drain : Bool → CommandQueue → Option (CommandBatch × CommandQueue)
try_drain lock_free queue =
    if not lock_free
    then none
    else some (
      record {
        controls = queue.controls;
        states = all_samples queue.fifos;
        dropped_states = queue.dropped_states;
      },
      record queue { controls = []; fifos = map drained queue.fifos },
    )

unfoldable pub clear : CommandQueue → CommandQueue
clear queue = record {
  controls = [];
  fifos = map (λ fifo. empty_fifo) queue.fifos;
  dropped_states = 0;
}
