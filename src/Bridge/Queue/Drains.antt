-- ===== src/Bridge/Queue/Drains.antt =====
-- TryDrain: the batch holds what was pending of each player, in the order of its arrival.
use ht2mp.Prelude.{
  ℕ, ◌*◌, ◌≤◌, ◌≡◌, ◌≢◌, refl, sym, ◌∙◌, arith, true, false, ◌&&◌, none, some, List, [], ◌∷◌, ◌++◌,
  append-nil, length, length-append, length-map, All, ◌==◌, if◌then◌else◌, Bool-cases, Option-cases,
  inl, inr, map,
}
use ht2mp.Ipc.Types.{PlayerSample}
use ht2mp.Bridge.Queue.{fifo_depth, StateFifo, samples, samples_from, drained}
use ht2mp.Bridge.Queue.Order.{length-samples_from}
use ht2mp.Bridge.Queue.Commands.{
  empty_sample, same_player, CommandQueue, CommandBatch, all_samples, try_drain,
}
use ht2mp.Bridge.Queue.Pending.{
  IsFrom, fifo_of, pending, last_pushed, fifo_of-here, fifo_of-there, pending_found,
}
use ht2mp.Bridge.Queue.Invariant.{
  QueueOk, EntryOk, Clash, NoClash, map-All, map-NoClash, drained-EntryOk,
}

-- The samples of one player and incarnation, in their order.
unfoldable pub samples_of : ℕ → ℕ → List PlayerSample → List PlayerSample
samples_of p i [] = []
samples_of p i (sample ∷ states) =
    let rest = samples_of p i states in
    if sample.player_id == p && sample.incarnation_id == i then sample ∷ rest else rest

samples_of-append :
    (p i : ℕ) (xs ys : List PlayerSample)
    → samples_of p i (xs ++ ys) ≡ samples_of p i xs ++ samples_of p i ys
unfolding samples_of
samples_of-append p i [] ys = refl
samples_of-append p i (x ∷ xs) ys = elim (Bool-cases (x.player_id == p && x.incarnation_id == i)) [
  | inl own ↦ rw (own, samples_of-append p i xs ys) refl
  | inr other ↦ rw (other, samples_of-append p i xs ys) refl
]

-- The samples of a FIFO of the player, and of one of somebody else.
samples_of-own :
    (p i : ℕ) (f : StateFifo) (states : List PlayerSample)
    → same_player p i f ≡ true
    → All (IsFrom f.player_id f.incarnation_id) states
    → samples_of p i states ≡ states
unfolding samples_of same_player
samples_of-own p i f [] own h = refl
samples_of-own p i f (s ∷ states) own h =
    let from : (s.player_id == p && s.incarnation_id == i) ≡ true = rw (h.0.0, h.0.1) own in
    rw (from, samples_of-own p i f states own h.1) refl

samples_of-other :
    (p i : ℕ) (f : StateFifo) (states : List PlayerSample)
    → same_player p i f ≡ false
    → All (IsFrom f.player_id f.incarnation_id) states
    → samples_of p i states ≡ []
unfolding samples_of same_player
samples_of-other p i f [] other h = refl
samples_of-other p i f (s ∷ states) other h =
    let from : (s.player_id == p && s.incarnation_id == i) ≡ false = rw (h.0.0, h.0.1) other in
    rw (from, samples_of-other p i f states other h.1) refl

samples_of-nobody :
    (p i : ℕ) (fifos : List StateFifo)
    → All EntryOk fifos
    → All (λ g. same_player p i g ≡ false) fifos
    → samples_of p i (all_samples fifos) ≡ []
unfolding all_samples
samples_of-nobody p i [] entries h = unfold samples_of in refl
samples_of-nobody p i (f ∷ fifos) entries h =
    rw
      (
        samples_of-append p i (samples empty_sample f) (all_samples fifos),
        samples_of-other p i f (samples empty_sample f) h.0 entries.0.owned,
        samples_of-nobody p i fifos entries.1 h.1,
      )
      refl

Clash-others :
    (p i : ℕ) (f : StateFifo) (fifos : List StateFifo)
    → p ≢ 0
    → same_player p i f ≡ true
    → All (λ g. ¬ Clash f g) fifos
    → All (λ g. same_player p i g ≡ false) fifos
unfolding same_player
Clash-others p i f [] used own h = tt
Clash-others p i f (g ∷ fifos) used own h =
    (ground (arith, used, own, h.0), Clash-others p i f fifos used own h.1)

samples_of-all_samples :
    (p i : ℕ) (fifos : List StateFifo)
    → p ≢ 0
    → All EntryOk fifos
    → NoClash fifos
    → samples_of p i (all_samples fifos) ≡ pending p i fifos
unfolding all_samples pending
samples_of-all_samples p i [] used entries no_clash = unfold samples_of fifo_of in refl
samples_of-all_samples p i (f ∷ fifos) used entries no_clash =
    elim (Bool-cases (same_player p i f)) [
      | inl own ↦
          let others = Clash-others p i f fifos used own no_clash.0 in
          let held = (pending_found p i (f ∷ fifos) f (fifo_of-here p i f fifos own)).0 in
          rw
            (
              samples_of-append p i (samples empty_sample f) (all_samples fifos),
              samples_of-own p i f (samples empty_sample f) own entries.0.owned,
              samples_of-nobody p i fifos entries.1 others,
              append-nil,
            )
            (sym held)
      | inr other ↦
          rw
            (
              samples_of-append p i (samples empty_sample f) (all_samples fifos),
              samples_of-other p i f (samples empty_sample f) other entries.0.owned,
              samples_of-all_samples p i fifos used entries.1 no_clash.1,
            )
            (rw (pending, fifo_of-there p i f fifos other) refl)
    ]

length-all_samples :
    (fifos : List StateFifo)
    → All EntryOk fifos
    → length (all_samples fifos) ≤ length fifos * fifo_depth
unfolding all_samples samples
length-all_samples [] entries = omega arith
length-all_samples (f ∷ fifos) entries = omega (
  arith,
  length-append (samples empty_sample f) (all_samples fifos),
  length-samples_from empty_sample f.ring f.head 0 f.count,
  entries.0.ring.count_within,
  length-all_samples fifos entries.1,
)

fifo_of-drained :
    (p i : ℕ) (fifos : List StateFifo)
    → fifo_of p i (map drained fifos)
      ≡ elim (fifo_of p i fifos) [ none ↦ none | some f ↦ some (drained f) ]
unfolding fifo_of same_player drained
fifo_of-drained p i [] = refl
fifo_of-drained p i (f ∷ fifos) = elim (Bool-cases (f.player_id == p && f.incarnation_id == i)) [
  | inl own ↦ rw own refl
  | inr other ↦ rw other (fifo_of-drained p i fifos)
]

drained-lookup :
    (p i : ℕ) (fifos : List StateFifo)
    → (pending p i (map drained fifos) ≡ [])
      × (last_pushed p i (map drained fifos) ≡ last_pushed p i fifos)
unfolding pending last_pushed drained samples samples_from
drained-lookup p i fifos = elim (Option-cases (fifo_of p i fifos)) [
  | inl nobody ↦ rw (pending, last_pushed, fifo_of-drained p i fifos, nobody) (refl, refl)
  | inr (f, found) ↦ rw (pending, last_pushed, fifo_of-drained p i fifos, found) (refl, refl)
]

drained-QueueOk :
    (q : CommandQueue)
    → QueueOk q
    → QueueOk (record q { controls = []; fifos = map drained q.fifos })
drained-QueueOk q ok = record {
  players = length-map q.fifos drained ∙ ok.players;
  entries = map-All EntryOk drained drained-EntryOk q.fifos ok.entries;
  no_clash = map-NoClash drained (λ f. unfold drained in inl (refl, refl)) q.fifos ok.no_clash;
  controls = omega arith;
  counter = ok.counter;
}

-- A drain: what the batch has of a player, and the queue after it.
pub record Drained (q : CommandQueue) (p i : ℕ) (batch : CommandBatch) (after : CommandQueue)
    : Type 0 where
  pub all_controls : batch.controls ≡ q.controls
  pub controls_fit : length batch.controls ≤ 32
  pub states_fit : length batch.states ≤ 56
  pub states_are : samples_of p i batch.states ≡ pending p i q.fifos
  pub same_count : batch.dropped_states ≡ q.dropped_states
  pub no_controls : after.controls ≡ []
  pub none_pending : pending p i after.fifos ≡ []
  pub still_last : last_pushed p i after.fifos ≡ last_pushed p i q.fifos

-- If TryDrain gets the lock of a well-formed queue, the batch has every control command, 32 at
-- most, 56 samples at most, and for any identity whose player is not 0 the samples that were
-- pending of it, in their order; afterwards no control command and no sample of it is pending, its
-- last sequence is still known, and the queue is well-formed.
pub try_drain_lem :
    (q : CommandQueue) (p i : ℕ)
    → QueueOk q
    → p ≢ 0
    → (batch : CommandBatch) × (after : CommandQueue) × (try_drain true q ≡ some (batch, after))
      × QueueOk after
      × Drained q p i batch after
unfolding try_drain
try_drain_lem q p i ok used =
    let (none_pending, still_last) = drained-lookup p i q.fifos in
    (
      record {
        controls = q.controls;
        states = all_samples q.fifos;
        dropped_states = q.dropped_states;
      },
      record q { controls = []; fifos = map drained q.fifos },
      refl,
      drained-QueueOk q ok,
      record {
        all_controls = refl;
        controls_fit = ok.controls;
        states_fit = omega (arith, length-all_samples q.fifos ok.entries, ok.players);
        states_are = samples_of-all_samples p i q.fifos used ok.entries ok.no_clash;
        same_count = refl;
        no_controls = refl;
        none_pending = none_pending;
        still_last = still_last;
      },
    )
