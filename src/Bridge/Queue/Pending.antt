-- ===== src/Bridge/Queue/Pending.antt =====
-- The queue as its two sides see it: what is pending of each player, and the last sequence pushed.
use ht2mp.Prelude.{
  ℕ, ◌≡◌, refl, ap, subst, arith, Bool, true, false, Option, none, some, List, [], ◌∷◌, ◌++◌, All,
  if◌then◌else◌, Bool-cases, inl, inr, map, ◌⊎◌,
}
use ht2mp.Ipc.Types.{PlayerSample}
use ht2mp.Bridge.Queue.{StateFifo, samples, QueueResult}
use ht2mp.Bridge.Queue.Commands.{empty_sample, same_player, push_first, Push}

-- The FIFO that FindFifo finds.
unfoldable pub fifo_of : ℕ → ℕ → List StateFifo → Option StateFifo
fifo_of p i [] = none
fifo_of p i (fifo ∷ fifos) =
    let rest = fifo_of p i fifos in if same_player p i fifo then some fifo else rest

unfoldable pub pending : ℕ → ℕ → List StateFifo → List PlayerSample
pending p i fifos = elim (fifo_of p i fifos) [ none ↦ [] | some fifo ↦ samples empty_sample fifo ]

unfoldable pub last_pushed : ℕ → ℕ → List StateFifo → Option ℕ
last_pushed p i fifos = elim (fifo_of p i fifos) [
  | none ↦ none
  | some fifo ↦ some fifo.last_sequence
]

pub pending_found :
    (p i : ℕ) (fifos : List StateFifo) (f : StateFifo)
    → fifo_of p i fifos ≡ some f
    → (pending p i fifos ≡ samples empty_sample f) × (last_pushed p i fifos ≡ some f.last_sequence)
unfolding pending last_pushed
pending_found p i fifos f e = (rw (pending, e) refl, rw (last_pushed, e) refl)

pub pending-none :
    (p i : ℕ) (fifos : List StateFifo)
    → fifo_of p i fifos ≡ none
    → (pending p i fifos ≡ []) × (last_pushed p i fifos ≡ none)
unfolding pending last_pushed
pending-none p i fifos e = (rw (pending, e) refl, rw (last_pushed, e) refl)

pub pending_same :
    (p i : ℕ) (fifos fifos' : List StateFifo)
    → fifo_of p i fifos' ≡ fifo_of p i fifos
    → (pending p i fifos' ≡ pending p i fifos) × (last_pushed p i fifos' ≡ last_pushed p i fifos)
unfolding pending last_pushed
pending_same p i fifos fifos' e = (rw (pending, e) refl, rw (last_pushed, e) refl)

abbrev pub IsFrom : ℕ → ℕ → PlayerSample → Type 0
IsFrom p i sample = (sample.player_id ≡ p) × (sample.incarnation_id ≡ i)

pub same_player_sound :
    (p i : ℕ) (fifo : StateFifo)
    → same_player p i fifo ≡ true
    → (fifo.player_id ≡ p) × (fifo.incarnation_id ≡ i)
unfolding same_player
same_player_sound p i fifo e = ground arith

pub fifo_of-here :
    (p i : ℕ) (fifo : StateFifo) (fifos : List StateFifo)
    → same_player p i fifo ≡ true
    → fifo_of p i (fifo ∷ fifos) ≡ some fifo
unfolding fifo_of
fifo_of-here p i fifo fifos e = rw e refl

pub fifo_of-there :
    (p i : ℕ) (fifo : StateFifo) (fifos : List StateFifo)
    → same_player p i fifo ≡ false
    → fifo_of p i (fifo ∷ fifos) ≡ fifo_of p i fifos
unfolding fifo_of
fifo_of-there p i fifo fifos e = rw e refl

-- Two identities of which one at least differs.
abbrev pub Apart : ℕ → ℕ → ℕ → ℕ → Type 0
Apart p i q j = ¬ ((p ≡ q) × (i ≡ j))

pub same_player-Apart :
    (p i : ℕ) (fifo : StateFifo)
    → Apart fifo.player_id fifo.incarnation_id p i
    → same_player p i fifo ≡ false
same_player-Apart p i fifo h = elim (Bool-cases (same_player p i fifo)) [
  | inl same ↦ absurd (h (same_player_sound p i fifo same))
  | inr differs ↦ differs
]

-- A FIFO that FindFifo finds is the player's, and is one of the FIFOs.
pub fifo_of-All {ℓ} :
    (P : StateFifo → Type ℓ) (p i : ℕ) (fifos : List StateFifo) (fifo : StateFifo)
    → All P fifos
    → fifo_of p i fifos ≡ some fifo
    → P fifo × (same_player p i fifo ≡ true)
unfolding fifo_of
fifo_of-All P p i [] fifo h e = absurd cc
fifo_of-All P p i (f ∷ fifos) fifo h e = elim (Bool-cases (same_player p i f)) [
  | inl here ↦
      let found : some f ≡ some fifo = rw here at e in
      let same : f ≡ fifo = cc in subst (λ x. P x × (same_player p i x ≡ true)) same (h.0, here)
  | inr there ↦ fifo_of-All P p i fifos fifo h.1 (rw there at e)
]

module _ (p i : ℕ) where
  -- A FIFO of somebody else is replaced by one of somebody else.
  pub fifo_of-replace_other :
      (front back : List StateFifo) (old new : StateFifo)
      → same_player p i old ≡ false
      → same_player p i new ≡ false
      → fifo_of p i (front ++ new ∷ back) ≡ fifo_of p i (front ++ old ∷ back)
  unfolding fifo_of
  fifo_of-replace_other [] back old new h k = rw (h, k) refl
  fifo_of-replace_other (f ∷ front) back old new h k =
      rw (fifo_of-replace_other front back old new h k) refl

  pub fifo_of-replace_own :
      (front back : List StateFifo) (new : StateFifo)
      → All (λ f. same_player p i f ≡ false) front
      → same_player p i new ≡ true
      → fifo_of p i (front ++ new ∷ back) ≡ some new
  unfolding fifo_of
  fifo_of-replace_own [] back new h k = rw k refl
  fifo_of-replace_own (f ∷ front) back new h k = rw h.0 (fifo_of-replace_own front back new h.1 k)

  pub fifo_of-none :
      (fifos : List StateFifo)
      → All (λ f. same_player p i f ≡ false) fifos
      → fifo_of p i fifos ≡ none
  unfolding fifo_of
  fifo_of-none [] h = refl
  fifo_of-none (f ∷ fifos) h = rw h.0 (fifo_of-none fifos h.1)

  -- A change of each FIFO that leaves the player's FIFO and makes no other the player's.
  pub fifo_of-map :
      (change : StateFifo → StateFifo) (fifos : List StateFifo)
      → ((f : StateFifo) → same_player p i f ≡ true → change f ≡ f)
      → ((f : StateFifo) → same_player p i f ≡ false → same_player p i (change f) ≡ false)
      → fifo_of p i (map change fifos) ≡ fifo_of p i fifos
  unfolding fifo_of
  fifo_of-map change [] h k = refl
  fifo_of-map change (f ∷ fifos) h k = elim (Bool-cases (same_player p i f)) [
    | inl own ↦ rw (h f own, own) refl
    | inr other ↦ rw (other, k f other) (fifo_of-map change fifos h k)
  ]

  pub fifo_of-map-none :
      (change : StateFifo → StateFifo) (fifos : List StateFifo)
      → ((f : StateFifo) → same_player p i (change f) ≡ false)
      → fifo_of p i (map change fifos) ≡ none
  unfolding fifo_of
  fifo_of-map-none change [] h = refl
  fifo_of-map-none change (f ∷ fifos) h = rw (h f) (fifo_of-map-none change fifos h)

-- What push_first did where it found a FIFO: to the first that meets the test, and to no other.
pub record PushedAt (test : StateFifo → Bool) (push : Push) (fifos : List StateFifo)
    (result : QueueResult) (after : List StateFifo) (dropped : ℕ) : Type 0 where
  pub front : List StateFifo
  pub old : StateFifo
  pub back : List StateFifo
  pub before : fifos ≡ front ++ old ∷ back
  pub skipped : All (λ f. test f ≡ false) front
  pub found : test old ≡ true
  pub results : (push old).0 ≡ result
  pub replaced : after ≡ front ++ (push old).1 ∷ back
  pub drops : (push old).2 ≡ dropped

module _ (test : StateFifo → Bool) (push : Push) where
  pub push_first_lem :
      (fifos : List StateFifo)
      → ((push_first test push fifos ≡ none) × All (λ f. test f ≡ false) fifos)
        ⊎ ((result : QueueResult) × (after : List StateFifo) × (dropped : ℕ) × (push_first test push
                fifos
              ≡ some (result, after, dropped))
            × PushedAt test push fifos result after dropped)
  unfolding push_first
  push_first_lem [] = inl (refl, tt)
  push_first_lem (f ∷ fifos) = elim (Bool-cases (test f)) [
    | inl here ↦
        let at : PushedAt test push (f ∷ fifos) (push f).0 ((push f).1 ∷ fifos) (push f).2 =
          record {
            front = [];
            old = f;
            back = fifos;
            before = refl;
            skipped = tt;
            found = here;
            results = refl;
            replaced = refl;
            drops = refl;
          } in
        inr ((push f).0, (push f).1 ∷ fifos, (push f).2, rw here refl, at)
    | inr there ↦ elim (push_first_lem fifos) [
      | inl (e, nowhere) ↦ inl (rw (there, e) refl, (there, nowhere))
      | inr (result, after, dropped, e, at) ↦
          let later : PushedAt test push (f ∷ fifos) result (f ∷ after) dropped = record {
            front = f ∷ at.front;
            old = at.old;
            back = at.back;
            before = ap (λ fs. f ∷ fs) at.before;
            skipped = (there, at.skipped);
            found = at.found;
            results = at.results;
            replaced = ap (λ fs. f ∷ fs) at.replaced;
            drops = at.drops;
          } in
          inr (result, f ∷ after, dropped, rw (there, e) refl, later)
    ]
  ]
