-- ===== src/Tests/Bridge.antt =====
-- The registry, the queue, the horn and the world's life cycle at concrete actors.
use ht2mp.Protocol.Types.{HornState}
use ht2mp.Bridge.Horn.{
  HornPlayback, is_fresh, new_press, observe, playing, Observation, observe_all, Kept,
  observe_all-pulse, playing-observe,
}
use ht2mp.Bridge.World
use ht2mp.Bridge.World.{
  begin_sanitization, observe_world_ready, notify_registry_reset, begin_sanitization_once,
}
use ht2mp.Ipc.Types.{PlayerSample}
use ht2mp.Bridge.Queue.{StateFifo, push_sample, samples, fifo_depth}
use ht2mp.Bridge.Queue.Order.{FifoOk, push_sample-samples}
use ht2mp.Coordinator.Session.{sequence_newer}
use ht2mp.Tests.Samples.{state, vehicle}
use ht2mp.Prelude.{
  ℕ, true, false, not, ◌&&◌, ◌++◌, drop, length, ◌≡◌, ◌≢◌, ◌⊎◌, refl, List, [], ◌∷◌, some, none,
  arith, if◌then◌else◌, ◌==◌,
}
use ht2mp.Bridge.Registry.{
  ActorKey, ActorBinding, Registry, inserted, removed, empty_registry, insert, erase, find, find_in,
  erase_from, is_valid, is_plausible_pointer, conflict, take_generation,
}
use ht2mp.Bridge.Registry.Invariant.{WellBound, Insertable, insert_lem, bound_of, added}
use ht2mp.Bridge.Registry.Runs.{Call, step, run, run-WellBound, insert_fresh}
use ht2mp.Bridge.Registry.Lookup.{erase_removes, erase_refuses}

abbrev key : ActorKey
key = record { player_id = 4; incarnation_id = 40 }

abbrev truck : ActorBinding
truck = record {
  remote = key;
  game_player_id = 0x0010_0000;
  generation = 0;
  vehicle_instance = 0x0020_0000;
  moving_item = 0x0030_0000;
  physics = 0x0040_0000;
}

-- The same actor with the generation that it was bound with.
abbrev bound_truck : ActorBinding
bound_truck = record truck { generation = 6 }

abbrev other_truck : ActorBinding
other_truck = record {
  remote = record { player_id = 5; incarnation_id = 50 };
  game_player_id = 0x0011_0000;
  generation = 0;
  vehicle_instance = 0x0021_0000;
  moving_item = 0x0031_0000;
  physics = 0x0041_0000;
}

abbrev one_actor : Registry
one_actor = record { bindings = bound_truck ∷ []; next_generation = 7 }

one_actor-WellBound : WellBound one_actor
unfolding is_plausible_pointer
one_actor-WellBound = ground arith

run-WellBound_example :
    WellBound
      (run empty_registry (Call.inserts truck ∷ Call.erases key 1 ∷ Call.inserts truck ∷ []))
run-WellBound_example =
    run-WellBound (Call.inserts truck ∷ Call.erases key 1 ∷ Call.inserts truck ∷ [])

insert_lem_example :
    (Insertable one_actor other_truck
      × (insert one_actor other_truck
          ≡ (inserted, bound_of one_actor other_truck, added one_actor other_truck)))
    ⊎ (¬ Insertable one_actor other_truck
        × ((insert one_actor other_truck).0 ≢ inserted)
        × ((insert one_actor other_truck).2 ≡ one_actor))
insert_lem_example = insert_lem one_actor other_truck one_actor-WellBound

-- The truck is bound, unbound and bound again.
first_bound : (insert empty_registry truck).0 ≡ inserted
unfolding insert is_valid is_plausible_pointer conflict take_generation
first_bound = refl

empty-WellBound : WellBound empty_registry
empty-WellBound = ground arith

abbrev rebinding : List Call
rebinding = Call.erases key 1 ∷ []

bound_again : (insert (run (insert empty_registry truck).2 rebinding) truck).0 ≡ inserted
unfolding insert is_valid is_plausible_pointer conflict take_generation run step erase erase_from
bound_again = refl

insert_fresh_example :
    (insert (run (insert empty_registry truck).2 rebinding) truck).1.generation
    ≢ (insert empty_registry truck).1.generation
insert_fresh_example =
    insert_fresh empty_registry truck truck rebinding empty-WellBound (omega arith) first_bound
      bound_again

truck_found : find one_actor key ≡ some bound_truck
unfolding find find_in
truck_found = refl

erase_removes_example :
    ((erase one_actor key 6).0 ≡ removed)
    × (find (erase one_actor key 6).1 other_truck.remote
        ≡ (if 5 == 4 then none else find one_actor other_truck.remote))
erase_removes_example =
    erase_removes one_actor key other_truck.remote bound_truck one_actor-WellBound truck_found

only_generation : (b : ActorBinding) → find one_actor key ≡ some b → b.generation ≢ 5
unfolding find find_in
only_generation b e same = ground arith

erase_refuses_example :
    ((erase one_actor key 5).0 ≢ removed) × ((erase one_actor key 5).1 ≡ one_actor)
erase_refuses_example = erase_refuses one_actor key 5 one_actor-WellBound only_generation

abbrev pub sample : ℕ → PlayerSample
sample sequence = record {
  player_id = 4;
  incarnation_id = 40;
  sample_time_ms = 1000;
  receive_time_us = 5;
  sequence = sequence;
  flags = 1;
  position = 0 ∷ 0 ∷ 0 ∷ [];
  orientation = 0 ∷ 0 ∷ 0 ∷ 0x3f80_0000 ∷ [];
  linear_velocity = 0 ∷ 0 ∷ 0 ∷ [];
  angular_velocity = 0 ∷ 0 ∷ 0 ∷ [];
  vehicle_type = 62;
  paint_variant = 3;
  location = state.location;
  vehicle = vehicle;
}

-- A full ring whose oldest sample is at index 3.
abbrev full_fifo : StateFifo
full_fifo = record {
  player_id = 4;
  incarnation_id = 40;
  ring = sample 6 ∷ sample 7 ∷ sample 8 ∷ sample 1 ∷ sample 2 ∷ sample 3 ∷ sample 4 ∷ sample 5 ∷ [];
  head = 3;
  count = 8;
  last_sequence = 8;
  has_sequence = true;
}

nine_newer : (true && not (sequence_newer 9 8)) ≡ false
unfolding sequence_newer
nine_newer = refl

push_sample-samples_example :
    let (result, after, dropped) = push_sample full_fifo (sample 9) in
    FifoOk after
    × (samples (sample 0) after ≡ drop dropped (samples (sample 0) full_fifo) ++ sample 9 ∷ [])
    × (dropped ≡ (if length (samples (sample 0) full_fifo) == fifo_depth then 1 else 0))
push_sample-samples_example =
    push_sample-samples (sample 0) full_fifo (sample 9)
      (record { whole = refl; head_within = omega arith; count_within = omega arith }) nine_newer

-- A horn that was released at press 512, and the tap after it.
abbrev quiet : HornPlayback
quiet = record {
  state = record { active = 0; tone = 2; press_sequence = 512 };
  received_us = 1_000_000;
  pulse_until_us = 0;
  initialized = true;
}

abbrev tap : HornState
tap = record { active = 0; tone = 2; press_sequence = 513 }

-- The tap itself, then two more snapshots of it while the pulse lasts and after it.
abbrev tapping : HornPlayback
tapping = record {
  state = tap;
  received_us = 1_050_000;
  pulse_until_us = 1_180_000;
  initialized = true;
}

abbrev repeats : List Observation
repeats =
    record { state = tap; received_us = 1_100_000; now_us = 1_110_000 }
    ∷ record { state = tap; received_us = 1_150_000; now_us = 1_160_000 }
    ∷ []

observe_all-pulse_example :
    Kept tapping (observe_all tapping repeats) repeats
    × (playing (observe_all tapping repeats) 1_180_000 ≡ (
        (observe_all tapping repeats).initialized
        && (is_fresh (observe_all tapping repeats).received_us 1_180_000
            && not ((observe_all tapping repeats).state.active == 0))))
observe_all-pulse_example =
    observe_all-pulse tapping repeats 1_180_000 refl (refl, (refl, tt)) (omega arith)

tap_fresh : is_fresh 1_050_000 1_060_000 ≡ true
unfolding is_fresh
tap_fresh = refl

tap_new : new_press quiet tap ≡ true
unfolding new_press
tap_new = refl

playing-observe_example :
    playing (observe quiet tap 1_050_000 1_060_000) 1_170_000 ≡ is_fresh 1_050_000 1_170_000
playing-observe_example =
    playing-observe quiet tap 1_050_000 1_060_000 1_170_000 (omega arith) (omega arith)
      (omega arith) tap_fresh tap_new (omega arith) (omega arith) (omega arith)

-- A world that has just become ready.
abbrev ready_world : World.Lifecycle
ready_world = record { world_ready = true; sanitization_armed = true; generation = 1 }

abbrev frames : List World.Call
frames = World.Call.observes true ∷ World.Call.begins ∷ World.Call.observes true ∷ []

first_frame : (begin_sanitization ready_world).0 ≡ true
unfolding begin_sanitization
first_frame = refl

begin_sanitization_once_example :
    let later = World.run (begin_sanitization ready_world).1 frames in
    ((begin_sanitization later).0 ≡ false)
    × ((begin_sanitization (observe_world_ready (notify_registry_reset later) true)).0 ≡ true)
    × ((begin_sanitization (observe_world_ready (observe_world_ready later false) true)).0 ≡ true)
begin_sanitization_once_example =
    begin_sanitization_once ready_world frames first_frame (refl, (tt, (refl, tt)))
