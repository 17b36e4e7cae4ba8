-- ===== src/Bridge/Registry/Invariant.antt =====
-- What a registry keeps, and what Insert, Find and Erase promise each other.
use ht2mp.Prelude.{
  ℕ, ◌+◌, ◌-◌, ◌^◌, ◌≤◌, ◌<◌, ◌≡◌, ◌≢◌, ◌⊎◌, refl, arith, UniqueBy, All, true, none, some, List, [],
  ◌∷◌, ◌++◌, length, if◌then◌else◌, ◌==◌, length-append, All-append, sym, Bool-cases, Option-cases,
  inl, inr,
}
use ht2mp.Bridge.Registry.{
  ActorKey, ActorBinding, Registry, RegistryResult, inserted, max_remote_players,
  is_plausible_pointer, is_valid, shares_identity, conflict, insert, erase_from, erase,
}
use ht2mp.Bridge.Registry.Generations.{IsGeneration, take_generation_lem}

-- A binding that was inserted.
pub record Bound (b : ActorBinding) : Type 0 where
  pub player_nonzero : b.remote.player_id ≢ 0
  pub incarnation_nonzero : b.remote.incarnation_id ≢ 0
  pub generated : IsGeneration b.generation
  pub game_player : is_plausible_pointer b.game_player_id ≡ true
  pub vehicle : is_plausible_pointer b.vehicle_instance ≡ true
  pub item : is_plausible_pointer b.moving_item ≡ true
  pub body : is_plausible_pointer b.physics ≡ true

pub record WellBound (s : Registry) : Type 0 where
  pub room : length s.bindings ≤ max_remote_players
  pub next : IsGeneration s.next_generation
  pub bound : All Bound s.bindings
  pub players_unique : UniqueBy (λ b. b.remote.player_id) s.bindings
  pub game_players_unique : UniqueBy (λ b. b.game_player_id) s.bindings
  pub vehicles_unique : UniqueBy (λ b. b.vehicle_instance) s.bindings
  pub items_unique : UniqueBy (λ b. b.moving_item) s.bindings
  pub bodies_unique : UniqueBy (λ b. b.physics) s.bindings

-- What no conflict means.
pub record Apart (c b : ActorBinding) : Type 0 where
  pub player : b.remote.player_id ≢ c.remote.player_id
  pub game_player : b.game_player_id ≢ c.game_player_id
  pub vehicle : b.vehicle_instance ≢ c.vehicle_instance
  pub item : b.moving_item ≢ c.moving_item
  pub body : b.physics ≢ c.physics

conflict-none :
    (c : ActorBinding) (bindings : List ActorBinding)
    → conflict c bindings ≡ none
    → All (Apart c) bindings
unfolding conflict shares_identity
conflict-none c [] h = tt
conflict-none c (b ∷ bindings) h = (ground arith, conflict-none c bindings (ground arith))

erase_from-All {κ} :
    (Q : ActorBinding → Type κ) (key : ActorKey) (generation : ℕ) (bindings : List ActorBinding)
    → All Q bindings
    → All Q (erase_from key generation bindings).1
unfolding erase_from
erase_from-All Q key generation [] h = tt
erase_from-All Q key generation (b ∷ bindings) h =
    ground (arith, erase_from-All Q key generation bindings h.1)

module _ (f : ActorBinding → ℕ) where
  append-UniqueBy :
      (c : ActorBinding) (bindings : List ActorBinding)
      → All (λ b. f b ≢ f c) bindings
      → UniqueBy f bindings
      → UniqueBy f (bindings ++ c ∷ [])
  append-UniqueBy c [] h u = (tt, tt)
  append-UniqueBy c (b ∷ bindings) h u = (
    All-append (λ other. f other ≢ f b) bindings (c ∷ []) u.0 ((λ e. h.0 (sym e)), tt),
    append-UniqueBy c bindings h.1 u.1,
  )

  erase_from-UniqueBy :
      (key : ActorKey) (generation : ℕ) (bindings : List ActorBinding)
      → UniqueBy f bindings
      → UniqueBy f (erase_from key generation bindings).1
  unfolding erase_from
  erase_from-UniqueBy key generation [] u = tt
  erase_from-UniqueBy key generation (b ∷ bindings) u = ground (
    arith,
    erase_from-UniqueBy key generation bindings u.1,
    erase_from-All (λ other. f other ≢ f b) key generation bindings u.0,
  )

module _ (c : ActorBinding) where
  each {κ} :
      {Q : ActorBinding → Type κ} (bindings : List ActorBinding)
      → ((b : ActorBinding) → Apart c b → Q b)
      → All (Apart c) bindings
      → All Q bindings
  each [] step h = tt
  each (b ∷ bindings) step h = (step b h.0, each bindings step h.1)

abbrev pub bound_of : Registry → ActorBinding → ActorBinding
bound_of s c = record c { generation = s.next_generation }

abbrev pub added : Registry → ActorBinding → Registry
added s c = record {
  bindings = s.bindings ++ bound_of s c ∷ [];
  next_generation = if s.next_generation == 2 ^ 32 - 1 then 1 else s.next_generation + 1;
}

-- A binding with a player, an incarnation and four plausible pointers, and no generation yet.
pub record Acceptable (c : ActorBinding) : Type 0 where
  pub player_nonzero : c.remote.player_id ≢ 0
  pub incarnation_nonzero : c.remote.incarnation_id ≢ 0
  pub no_generation : c.generation ≡ 0
  pub game_player : is_plausible_pointer c.game_player_id ≡ true
  pub vehicle : is_plausible_pointer c.vehicle_instance ≡ true
  pub item : is_plausible_pointer c.moving_item ≡ true
  pub body : is_plausible_pointer c.physics ≡ true

is_valid-Acceptable : (c : ActorBinding) → is_valid c ≡ true → Acceptable c
unfolding is_valid
is_valid-Acceptable c h = ground arith

Acceptable-is_valid : (c : ActorBinding) → Acceptable c → is_valid c ≡ true
unfolding is_valid
Acceptable-is_valid c a = ground arith

-- What Insert asks of a candidate.
pub record Insertable (s : Registry) (c : ActorBinding) : Type 0 where
  pub acceptable : Acceptable c
  pub apart : All (Apart c) s.bindings
  pub room : length s.bindings < max_remote_players

conflict-Apart :
    (c : ActorBinding) (bindings : List ActorBinding)
    → All (Apart c) bindings
    → conflict c bindings ≡ none
unfolding conflict shares_identity
conflict-Apart c [] h = refl
conflict-Apart c (b ∷ bindings) h = ground (arith, conflict-Apart c bindings h.1)

conflict-some :
    (c : ActorBinding) (bindings : List ActorBinding) (problem : RegistryResult)
    → conflict c bindings ≡ some problem
    → problem ≢ inserted
unfolding conflict
conflict-some c [] problem h e = cc h
conflict-some c (b ∷ bindings) problem h e = ground (arith, conflict-some c bindings problem)

-- In a well-formed registry a candidate is inserted, with the next generation and behind the other
-- bindings, exactly when it has a player, an incarnation, no generation and four plausible
-- pointers, shares no player and no pointer with a binding and there is room; otherwise the
-- registry is unchanged and the result is not inserted.
pub insert_lem :
    (s : Registry) (c : ActorBinding)
    → WellBound s
    → (Insertable s c × (insert s c ≡ (inserted, bound_of s c, added s c)))
      ⊎ (¬ Insertable s c × ((insert s c).0 ≢ inserted) × ((insert s c).2 ≡ s))
unfolding insert
insert_lem s c w =
    let next = take_generation_lem s.next_generation w.next in
    elim (Bool-cases (is_valid c)) [
      | inr bad ↦
          inr
            ((λ i. ground (arith, Acceptable-is_valid c i.acceptable)), ground arith, ground arith)
      | inl ok ↦ elim (Option-cases (conflict c s.bindings)) [
        | inr (problem, e) ↦ inr (
          (λ i. ground (arith, conflict-Apart c s.bindings i.apart)),
          ground (arith, conflict-some c s.bindings problem e),
          ground arith,
        )
        | inl clear_of ↦ elim (Bool-cases (length s.bindings == max_remote_players)) [
          | inl no_room ↦ inr ((λ i. ground (arith, i.room)), ground arith, ground arith)
          | inr room ↦ inl (
            record {
              acceptable = is_valid-Acceptable c ok;
              apart = conflict-none c s.bindings clear_of;
              room = ground (arith, w.room);
            },
            rw (ok, clear_of, room, next) refl,
          )
        ]
      ]
    ]

added-WellBound :
    (s : Registry) (c : ActorBinding) → WellBound s → Insertable s c → WellBound (added s c)
added-WellBound s c w i = record {
  room = omega (arith, length-append s.bindings (bound_of s c ∷ []), i.room);
  next = ground (arith, w.next);
  bound = All-append Bound s.bindings (bound_of s c ∷ []) w.bound (ground arith, tt);
  players_unique =
      append-UniqueBy (λ b. b.remote.player_id) (bound_of s c) s.bindings
        (each c s.bindings (λ b a. a.player) i.apart) w.players_unique;
  game_players_unique =
      append-UniqueBy (λ b. b.game_player_id) (bound_of s c) s.bindings
        (each c s.bindings (λ b a. a.game_player) i.apart) w.game_players_unique;
  vehicles_unique =
      append-UniqueBy (λ b. b.vehicle_instance) (bound_of s c) s.bindings
        (each c s.bindings (λ b a. a.vehicle) i.apart) w.vehicles_unique;
  items_unique =
      append-UniqueBy (λ b. b.moving_item) (bound_of s c) s.bindings
        (each c s.bindings (λ b a. a.item) i.apart) w.items_unique;
  bodies_unique =
      append-UniqueBy (λ b. b.physics) (bound_of s c) s.bindings
        (each c s.bindings (λ b a. a.body) i.apart) w.bodies_unique;
}

pub insert-WellBound : (s : Registry) (c : ActorBinding) → WellBound s → WellBound (insert s c).2
insert-WellBound s c w = elim (insert_lem s c w) [
  | inl (i, e) ↦ rw e (added-WellBound s c w i)
  | inr (_, _, same) ↦ rw same w
]

length-erase_from :
    (key : ActorKey) (generation : ℕ) (bindings : List ActorBinding)
    → length (erase_from key generation bindings).1 ≤ length bindings
unfolding erase_from
length-erase_from key generation [] = omega arith
length-erase_from key generation (b ∷ bindings) =
    ground (arith, length-erase_from key generation bindings)

kept-WellBound :
    (s : Registry) (key : ActorKey) (generation : ℕ)
    → WellBound s
    → WellBound (record s { bindings = (erase_from key generation s.bindings).1 })
kept-WellBound s key generation w = record {
  room = omega (arith, length-erase_from key generation s.bindings, w.room);
  next = w.next;
  bound = erase_from-All Bound key generation s.bindings w.bound;
  players_unique =
      erase_from-UniqueBy (λ b. b.remote.player_id) key generation s.bindings w.players_unique;
  game_players_unique =
      erase_from-UniqueBy (λ b. b.game_player_id) key generation s.bindings w.game_players_unique;
  vehicles_unique =
      erase_from-UniqueBy (λ b. b.vehicle_instance) key generation s.bindings w.vehicles_unique;
  items_unique = erase_from-UniqueBy (λ b. b.moving_item) key generation s.bindings w.items_unique;
  bodies_unique = erase_from-UniqueBy (λ b. b.physics) key generation s.bindings w.bodies_unique;
}

pub erase-WellBound :
    (s : Registry) (key : ActorKey) (generation : ℕ)
    → WellBound s
    → WellBound (erase s key generation).1
unfolding erase
erase-WellBound s key generation w = ground (arith, kept-WellBound s key generation w)
