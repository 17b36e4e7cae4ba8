-- ===== src/Bridge/Registry.antt =====
-- RemoteActorRegistry of bridge/remote_actor_registry.hpp and remote_actor_registry.cpp. The
-- first size_ bindings of the array are a list; the others are empty.
pub mod Invariant
pub mod Generations
pub mod Lookup
pub mod Runs
use Prim.Native.Nat.{bit_and}
use ht2mp.Prelude.{
  ℕ, zero, suc, ◌+◌, ◌%◌, ◌^◌, Bool, true, false, not, ◌&&◌, ◌||◌, Option, none, some, List, [],
  ◌∷◌, ◌++◌, ltb, leb, ◌==◌, if◌then◌else◌, length,
}

abbrev pub max_remote_players : ℕ
max_remote_players = 7

pub record ActorKey : Type 0 where
  pub player_id : ℕ
  pub incarnation_id : ℕ

pub record ActorBinding : Type 0 where
  pub remote : ActorKey
  pub game_player_id : ℕ
  pub generation : ℕ
  pub vehicle_instance : ℕ
  pub moving_item : ℕ
  pub physics : ℕ

pub data RegistryResult : Type 0 where
  inserted removed not_found stale_incarnation stale_generation : RegistryResult
  remote_player_conflict game_identity_conflict invalid full : RegistryResult

abbrev pub empty_binding : ActorBinding
empty_binding = record {
  remote = record { player_id = 0; incarnation_id = 0 };
  game_player_id = 0;
  generation = 0;
  vehicle_instance = 0;
  moving_item = 0;
  physics = 0;
}

pub record Registry : Type 0 where
  pub bindings : List ActorBinding
  pub next_generation : ℕ

abbrev pub empty_registry : Registry
empty_registry = record { bindings = []; next_generation = 1 }

unfoldable pub is_plausible_pointer : ℕ → Bool
is_plausible_pointer value =
    leb 0x0001_0000 value && (ltb value 0x8000_0000 && bit_and value 0x3 == 0)

unfoldable pub is_valid : ActorBinding → Bool
is_valid value =
    not (value.remote.player_id == 0)
    && (not (value.remote.incarnation_id == 0)
        && (value.generation == 0
            && (is_plausible_pointer value.game_player_id
                && (is_plausible_pointer value.vehicle_instance
                    && (is_plausible_pointer value.moving_item
                        && is_plausible_pointer value.physics)))))

-- The result, and next_generation_ after it.
unfoldable pub take_generation : ℕ → ℕ × ℕ
take_generation next =
    let first = (next + 1) % 2 ^ 32 in
    let (result, later) = if next == 0 then (first, (first + 1) % 2 ^ 32) else (next, first) in
    (result, if later == 0 then 1 else later)

unfoldable pub shares_identity : ActorBinding → ActorBinding → Bool
shares_identity existing candidate =
    existing.game_player_id == candidate.game_player_id
    || (existing.vehicle_instance == candidate.vehicle_instance
        || (existing.moving_item == candidate.moving_item || existing.physics == candidate.physics))

-- The loop of Insert: the first conflict with a binding that is there.
unfoldable pub conflict : ActorBinding → List ActorBinding → Option RegistryResult
conflict candidate [] = none
conflict candidate (existing ∷ bindings) =
    let rest = conflict candidate bindings in
    if existing.remote.player_id == candidate.remote.player_id
    then some remote_player_conflict
    else if shares_identity existing candidate
    then some game_identity_conflict
    else rest

-- The result, the binding that `inserted` is set to, and the registry.
unfoldable pub insert : Registry → ActorBinding → RegistryResult × ActorBinding × Registry
insert s candidate =
    let (generation, later) = take_generation s.next_generation in
    let bound = record candidate { generation = generation } in
    if not (is_valid candidate)
    then (invalid, empty_binding, s)
    else elim (conflict candidate s.bindings) [
      | some problem ↦ (problem, empty_binding, s)
      | none ↦ if length s.bindings == max_remote_players then (full, empty_binding, s) else (
        inserted,
        bound,
        record { bindings = s.bindings ++ bound ∷ []; next_generation = later },
      )
    ]

-- The loop of Erase; the bindings behind the one that goes move up.
unfoldable pub erase_from : ActorKey → ℕ → List ActorBinding → RegistryResult × List ActorBinding
erase_from key generation [] = (not_found, [])
erase_from key generation (existing ∷ bindings) =
    let (result, kept) = erase_from key generation bindings in
    if not (existing.remote.player_id == key.player_id)
    then (result, existing ∷ kept)
    else if not (existing.remote.incarnation_id == key.incarnation_id)
    then (stale_incarnation, existing ∷ bindings)
    else if not (existing.generation == generation)
    then (stale_generation, existing ∷ bindings)
    else (removed, bindings)

unfoldable pub erase : Registry → ActorKey → ℕ → RegistryResult × Registry
erase s key generation =
    let (result, kept) = erase_from key generation s.bindings in
    if key.player_id == 0 || (key.incarnation_id == 0 || generation == 0)
    then (invalid, s)
    else (result, record s { bindings = kept })

unfoldable pub find_in : ActorKey → List ActorBinding → Option ActorBinding
find_in key [] = none
find_in key (b ∷ bindings) =
    if b.remote.player_id == key.player_id && b.remote.incarnation_id == key.incarnation_id
    then some b
    else find_in key bindings

unfoldable pub find : Registry → ActorKey → Option ActorBinding
find s key = find_in key s.bindings

unfoldable pub clear : Registry → Registry
clear s = record s { bindings = [] }
