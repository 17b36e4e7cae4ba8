-- ===== src/Bridge/Registry/Runs.antt =====
-- Histories of a registry: its invariant, and why an old generation reaches no newer actor.
use ht2mp.Prelude.{
  ℕ, suc, ◌-◌, ◌^◌, ◌≤◌, ◌<◌, ◌≡◌, ◌≢◌, ◌⊎◌, refl, sym, ap, ◌∙◌, arith, List, [], ◌∷◌, length, inl,
  inr,
}
use ht2mp.Bridge.Registry.{
  ActorKey, ActorBinding, Registry, inserted, insert, erase, clear, empty_registry, take_generation,
}
use ht2mp.Bridge.Registry.Generations.{
  take_generation_lem, generation_after, generation_after_fresh,
}
use ht2mp.Bridge.Registry.Invariant.{WellBound, insert_lem, insert-WellBound, erase-WellBound}

pub data Call : Type 0 where
  inserts : ActorBinding → Call
  erases : ActorKey → ℕ → Call
  clears : Call

unfoldable pub step : Registry → Call → Registry
step s (inserts c) = (insert s c).2
step s (erases key generation) = (erase s key generation).1
step s clears = clear s

unfoldable pub run : Registry → List Call → Registry
run s [] = s
run s (call ∷ calls) = run (step s call) calls

step-WellBound : (s : Registry) (call : Call) → WellBound s → WellBound (step s call)
unfolding step clear
step-WellBound s (inserts c) w = insert-WellBound s c w
step-WellBound s (erases key generation) w = erase-WellBound s key generation w
step-WellBound s clears w = ground (arith, w.next)

run-WellBound_from : (s : Registry) (calls : List Call) → WellBound s → WellBound (run s calls)
unfolding run
run-WellBound_from s [] w = w
run-WellBound_from s (call ∷ calls) w =
    run-WellBound_from (step s call) calls (step-WellBound s call w)

-- After any calls of Insert, Erase and Clear on an empty registry there are seven bindings at
-- most, each with a player, an incarnation and a generation that are not 0 and four plausible
-- pointers, and no two bindings share a player or a pointer of one kind.
pub run-WellBound : (calls : List Call) → WellBound (run empty_registry calls)
run-WellBound calls = run-WellBound_from empty_registry calls (ground arith)

insert_next :
    (s : Registry) (c : ActorBinding)
    → WellBound s
    → (insert s c).0 ≡ inserted
    → ((insert s c).1.generation ≡ s.next_generation)
      × ((insert s c).2.next_generation ≡ (take_generation s.next_generation).1)
insert_next s c w done = elim (insert_lem s c w) [
  | inl (_, e) ↦
      let next = take_generation_lem s.next_generation w.next in
      (ap (λ r. r.1.generation) e, ap (λ r. r.2.next_generation) e ∙ sym (ap (λ p. p.1) next))
  | inr (_, refused, _) ↦ absurd (refused done)
]

-- A call moves the counter by one step or not at all.
step_generation :
    (s : Registry) (call : Call)
    → WellBound s
    → ((step s call).next_generation ≡ s.next_generation)
      ⊎ ((step s call).next_generation ≡ (take_generation s.next_generation).1)
unfolding step clear erase
step_generation s (inserts c) w = elim (insert_lem s c w) [
  | inl (i, e) ↦ inr (insert_next s c w (ap (λ r. r.0) e)).1
  | inr (_, _, same) ↦ inl (ap (λ t. t.next_generation) same)
]
step_generation s (erases key generation) w = inl (ground arith)
step_generation s clears w = inl refl

-- How far a history moves the counter.
run_generation :
    (s : Registry) (calls : List Call)
    → WellBound s
    → (count : ℕ) × (count ≤ length calls)
      × ((run s calls).next_generation ≡ generation_after count s.next_generation)
unfolding run generation_after
run_generation s [] w = (0, omega arith, refl)
run_generation s (call ∷ calls) w =
    let (count, few, e) = run_generation (step s call) calls (step-WellBound s call w) in
    elim (step_generation s call w) [
      | inl same ↦ (count, omega arith, e ∙ ap (generation_after count) same)
      | inr moved ↦ (suc count, omega arith, e ∙ ap (generation_after count) moved)
    ]

-- From a well-formed registry, if a binding is inserted and another one after fewer than 2^32 - 2
-- calls in between, whatever they are, the two have different generations.
pub insert_fresh :
    (s : Registry) (c later_c : ActorBinding) (calls : List Call)
    → WellBound s
    → length calls < 2 ^ 32 - 2
    → (insert s c).0 ≡ inserted
    → (insert (run (insert s c).2 calls) later_c).0 ≡ inserted
    → (insert (run (insert s c).2 calls) later_c).1.generation ≢ (insert s c).1.generation
unfolding generation_after
insert_fresh s c later_c calls w few first later same =
    let after = insert-WellBound s c w in
    let (count, small, e) = run_generation (insert s c).2 calls after in
    let a = insert_next s c w first in
    let b =
      insert_next (run (insert s c).2 calls) later_c (run-WellBound_from (insert s c).2 calls after)
        later in
    generation_after_fresh (suc count) s.next_generation w.next (omega arith) (omega arith)
      (ap (generation_after count) (sym a.1) ∙ sym e ∙ sym b.0 ∙ same ∙ a.0)
