-- ===== src/Bridge/Registry/Lookup.antt =====
-- What Find sees after Erase.
use ht2mp.Prelude.{
  ℕ, ◌≡◌, ◌≢◌, refl, sym, ap, arith, List, [], ◌∷◌, All, UniqueBy, none, some, ◌&&◌, ◌==◌, ==_iff,
  inl, inr, Bool-cases, if◌then◌else◌,
}
use ht2mp.Bridge.Registry.{
  ActorKey, ActorBinding, Registry, removed, erase, erase_from, find, find_in,
}
use ht2mp.Bridge.Registry.Invariant.{Bound, WellBound}

find_in-absent :
    (key : ActorKey) (bindings : List ActorBinding)
    → All (λ b. b.remote.player_id ≢ key.player_id) bindings
    → find_in key bindings ≡ none
unfolding find_in
find_in-absent key [] h = refl
find_in-absent key (b ∷ bindings) h = ground (arith, find_in-absent key bindings h.1)

-- The binding of a key is in the list, so that what holds of all the list holds of it.
find_in-All {κ} :
    (Q : ActorBinding → Type κ) (key : ActorKey) (bindings : List ActorBinding) (b : ActorBinding)
    → All Q bindings
    → find_in key bindings ≡ some b
    → Q b × (b.remote.player_id ≡ key.player_id) × (b.remote.incarnation_id ≡ key.incarnation_id)
unfolding find_in
find_in-All Q key [] b h e = cc e
find_in-All Q key (c ∷ bindings) b h e =
    elim (Bool-cases
      (c.remote.player_id == key.player_id && c.remote.incarnation_id == key.incarnation_id)) [
        | inl hit ↦
            let same : c ≡ b = ground (arith, hit) in rw (← same) (h.0, ground arith, ground arith)
        | inr miss ↦ find_in-All Q key bindings b h.1 (ground (arith, miss))
      ]

removed_from :
    (key k : ActorKey) (bindings : List ActorBinding) (b : ActorBinding)
    → UniqueBy (λ b. b.remote.player_id) bindings
    → find_in key bindings ≡ some b
    → let (result, kept) = erase_from key b.generation bindings in
      (result ≡ removed)
      × (find_in k kept ≡ (if k.player_id == key.player_id then none else find_in k bindings))
unfolding erase_from find_in
removed_from key k [] b u e = cc e
removed_from key k (c ∷ bindings) b u e = elim (Bool-cases (c.remote.player_id == key.player_id)) [
  | inl here ↦
      let at : c.remote.player_id ≡ key.player_id = (==_iff _ _).0 here in
      let no_other = rw at at u.0 in
      let no_later = find_in-absent key bindings no_other in
      let same : c ≡ b = ground (arith, here, no_later) in
      let generation : c.generation ≡ b.generation = ap (λ t. t.generation) same in
      elim (Bool-cases (k.player_id == key.player_id)) [
        | inl gone ↦
            let player : k.player_id ≡ key.player_id = (==_iff _ _).0 gone in
            let gone_later = find_in-absent k bindings (rw (sym player) at no_other) in
            ground (arith, here, gone_later, generation)
        | inr stays ↦ ground (arith, here, generation, no_later)
      ]
  | inr other ↦ ground (arith, other, removed_from key k bindings b u.1)
]

-- In a well-formed registry, Erase with a key that Find finds and the generation of its binding
-- removes the binding: no key of its player is found any more, and every other key finds what it
-- found.
pub erase_removes :
    (s : Registry) (key k : ActorKey) (b : ActorBinding)
    → WellBound s
    → find s key ≡ some b
    → ((erase s key b.generation).0 ≡ removed)
      × (find (erase s key b.generation).1 k
          ≡ (if k.player_id == key.player_id then none else find s k))
unfolding erase find
erase_removes s key k b w found =
    let (good, player, incarnation) = find_in-All Bound key s.bindings b w.bound found in
    ground (
      arith,
      removed_from key k s.bindings b w.players_unique found,
      good.player_nonzero,
      good.incarnation_nonzero,
      good.generated,
    )

kept_from :
    (key : ActorKey) (generation : ℕ) (bindings : List ActorBinding)
    → UniqueBy (λ b. b.remote.player_id) bindings
    → ((b : ActorBinding) → find_in key bindings ≡ some b → b.generation ≢ generation)
    → let (result, kept) = erase_from key generation bindings in
      (result ≢ removed) × (kept ≡ bindings)
unfolding erase_from find_in
kept_from key generation [] u h = ground arith
kept_from key generation (c ∷ bindings) u h =
    elim (Bool-cases (c.remote.player_id == key.player_id)) [
      | inl here ↦ ground (arith, here, h c)
      | inr other ↦ ground (
        arith,
        other,
        kept_from key generation bindings u.1 λ b e. h b (ground (arith, other, e)),
      )
    ]

-- In a well-formed registry, Erase with a generation that is not that of the binding that Find
-- finds for the key, if any, leaves the registry as it is, and its result is not removed.
pub erase_refuses :
    (s : Registry) (key : ActorKey) (generation : ℕ)
    → WellBound s
    → ((b : ActorBinding) → find s key ≡ some b → b.generation ≢ generation)
    → ((erase s key generation).0 ≢ removed) × ((erase s key generation).1 ≡ s)
unfolding erase find
erase_refuses s key generation w other =
    ground (arith, kept_from key generation s.bindings w.players_unique other)
