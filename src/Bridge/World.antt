-- ===== src/Bridge/World.antt =====
-- OnlineWorldLifecycle and ClassifyOnlineActor of bridge/online_world_policy.hpp and
-- online_world_policy.cpp.
use ht2mp.Prelude.{
  ℕ, ◌+◌, ◌%◌, ◌^◌, ◌≡◌, refl, arith, Bool, true, false, not, ◌||◌, List, [], ◌∷◌, All, any, ◌==◌,
  if◌then◌else◌,
}

pub data ActorOwnership : Type 0 where
  local remote_owned stock : ActorOwnership

unfoldable pub classify_actor : ℕ → ℕ → List ℕ → ActorOwnership
classify_actor player_id local_player_id remote_player_ids =
    if player_id == local_player_id
    then local
    else if any (λ remote. remote == player_id) remote_player_ids
    then remote_owned
    else stock

pub record Lifecycle : Type 0 where
  pub world_ready : Bool
  pub sanitization_armed : Bool
  pub generation : ℕ

unfoldable pub observe_world_ready : Lifecycle → Bool → Lifecycle
observe_world_ready world ready =
    if not ready
    then record world { world_ready = false; sanitization_armed = true }
    else if not world.world_ready
    then record {
      world_ready = true;
      sanitization_armed = true;
      generation = (world.generation + 1) % 2 ^ 32;
    }
    else world

unfoldable pub notify_registry_reset : Lifecycle → Lifecycle
notify_registry_reset world = record world { world_ready = false; sanitization_armed = true }

unfoldable pub begin_sanitization : Lifecycle → Bool × Lifecycle
begin_sanitization world =
    if not world.world_ready || not world.sanitization_armed
    then (false, world)
    else (true, record world { sanitization_armed = false })

pub data Call : Type 0 where
  observes : Bool → Call
  resets : Call
  begins : Call

unfoldable pub step : Lifecycle → Call → Lifecycle
step world (observes ready) = observe_world_ready world ready
step world resets = notify_registry_reset world
step world begins = (begin_sanitization world).1

unfoldable pub run : Lifecycle → List Call → Lifecycle
run world [] = world
run world (call ∷ calls) = run (step world call) calls

-- A call that keeps the world ready.
abbrev pub KeepsReady : Call → Type 0
KeepsReady (observes ready) = ready ≡ true
KeepsReady resets = ⊥
KeepsReady begins = Unit

abbrev IsSanitized : Lifecycle → Type 0
IsSanitized world = (world.world_ready ≡ true) × (world.sanitization_armed ≡ false)

step-IsSanitized :
    (world : Lifecycle) (call : Call)
    → KeepsReady call
    → IsSanitized world
    → IsSanitized (step world call)
unfolding step observe_world_ready begin_sanitization
step-IsSanitized world (observes ready) h ok = ground (arith, h)
step-IsSanitized world resets h ok = absurd h
step-IsSanitized world begins h ok = ground arith

run-IsSanitized :
    (world : Lifecycle) (calls : List Call)
    → All KeepsReady calls
    → IsSanitized world
    → IsSanitized (run world calls)
unfolding run
run-IsSanitized world [] h ok = ok
run-IsSanitized world (call ∷ calls) h ok =
    run-IsSanitized (step world call) calls h.1 (step-IsSanitized world call h.0 ok)

-- Once a sanitization has begun, no other one begins as long as the world is neither reset nor
-- observed not to be ready; after such a reset or observation, one begins when the world is
-- observed ready again.
pub begin_sanitization_once :
    (world : Lifecycle) (calls : List Call)
    → (begin_sanitization world).0 ≡ true
    → All KeepsReady calls
    → let later = run (begin_sanitization world).1 calls in
      ((begin_sanitization later).0 ≡ false)
      × ((begin_sanitization (observe_world_ready (notify_registry_reset later) true)).0 ≡ true)
      × ((begin_sanitization (observe_world_ready (observe_world_ready later false) true)).0 ≡ true)
unfolding begin_sanitization observe_world_ready notify_registry_reset
begin_sanitization_once world calls begun h =
    let after : IsSanitized (begin_sanitization world).1 = ground arith in
    let ok = run-IsSanitized (begin_sanitization world).1 calls h after in
    (ground (arith, ok), refl, refl)
