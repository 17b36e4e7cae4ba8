-- ===== src/Bridge/Queue/Invariant.antt =====
-- What every operation of RemoteCommandQueue keeps.
use ht2mp.Prelude.{
  ℕ, ◌^◌, ◌≤◌, ◌<◌, ◌≡◌, ◌≢◌, refl, arith, true, List, [], ◌∷◌, ◌++◌, length, All, All-append,
  Bool-cases, inl, inr, map, ◌⊎◌,
}
use ht2mp.Bridge.Registry.{max_remote_players}
use ht2mp.Bridge.Queue.{StateFifo, samples, samples_from, drained}
use ht2mp.Bridge.Queue.Order.{FifoOk}
use ht2mp.Bridge.Queue.Commands.{
  empty_sample, empty_fifo, kept_or_reset, removes, CommandQueue, max_controls,
}
use ht2mp.Bridge.Queue.Pending.{IsFrom}

pub record EntryOk (f : StateFifo) : Type 0 where
  pub ring : FifoOk f
  pub free_empty : f.player_id ≡ 0 → f.count ≡ 0
  pub owned : All (IsFrom f.player_id f.incarnation_id) (samples empty_sample f)
  pub sequenced : f.player_id ≢ 0 → f.has_sequence ≡ true

-- Two FIFOs for one player and incarnation.
abbrev pub Clash : StateFifo → StateFifo → Type 0
Clash f g = (f.player_id ≢ 0) × (f.player_id ≡ g.player_id) × (f.incarnation_id ≡ g.incarnation_id)

abbrev pub NoClash : List StateFifo → Type 0
NoClash [] = Unit
NoClash (f ∷ fifos) = All (λ g. ¬ Clash f g) fifos × NoClash fifos

pub record QueueOk (q : CommandQueue) : Type 0 where
  pub players : length q.fifos ≡ max_remote_players
  pub entries : All EntryOk q.fifos
  pub no_clash : NoClash q.fifos
  pub controls : length q.controls ≤ max_controls
  pub counter : q.dropped_states < 2 ^ 32

pub empty_fifo-EntryOk : EntryOk empty_fifo
unfolding samples samples_from
empty_fifo-EntryOk = record {
  ring = record { whole = refl; head_within = omega arith; count_within = omega arith };
  free_empty = λ free. refl;
  owned = tt;
  sequenced = λ used. absurd (used refl);
}

pub drained-EntryOk : (f : StateFifo) → EntryOk f → EntryOk (drained f)
unfolding drained samples samples_from
drained-EntryOk f ok = record {
  ring = record { whole = ok.ring.whole; head_within = omega arith; count_within = omega arith };
  free_empty = λ free. refl;
  owned = tt;
  sequenced = ok.sequenced;
}

pub kept_or_reset-EntryOk : (p e : ℕ) (f : StateFifo) → EntryOk f → EntryOk (kept_or_reset p e f)
unfolding kept_or_reset
kept_or_reset-EntryOk p e f ok = elim (Bool-cases (removes p e f)) [
  | inl reset ↦ rw reset empty_fifo-EntryOk
  | inr kept ↦ rw kept ok
]

-- A change that keeps the identity of a FIFO, or frees it.
abbrev pub KeepsIdentity : StateFifo → StateFifo → Type 0
KeepsIdentity f g =
    ((g.player_id ≡ f.player_id) × (g.incarnation_id ≡ f.incarnation_id)) ⊎ (g.player_id ≡ 0)

pub kept_or_reset-KeepsIdentity : (p e : ℕ) (f : StateFifo) → KeepsIdentity f (kept_or_reset p e f)
unfolding kept_or_reset
kept_or_reset-KeepsIdentity p e f = elim (Bool-cases (removes p e f)) [
  | inl reset ↦ inr (rw reset refl)
  | inr kept ↦ inl (rw kept refl, rw kept refl)
]

KeepsIdentity-Clash :
    (f f' g g' : StateFifo) → KeepsIdentity f f' → KeepsIdentity g g' → Clash f' g' → Clash f g
KeepsIdentity-Clash f f' g g' h k c = ground (arith, h, k, c)

module _ (change : StateFifo → StateFifo)
    (keeps : (f : StateFifo) → KeepsIdentity f (change f)) where
  All-map-Clash :
      (f : StateFifo) (fifos : List StateFifo)
      → All (λ g. ¬ Clash f g) fifos
      → All (λ g. ¬ Clash (change f) g) (map change fifos)
  All-map-Clash f [] h = tt
  All-map-Clash f (g ∷ fifos) h = (
    (λ c. h.0 (KeepsIdentity-Clash f (change f) g (change g) (keeps f) (keeps g) c)),
    All-map-Clash f fifos h.1,
  )

  pub map-NoClash : (fifos : List StateFifo) → NoClash fifos → NoClash (map change fifos)
  map-NoClash [] h = tt
  map-NoClash (f ∷ fifos) h = (All-map-Clash f fifos h.0, map-NoClash fifos h.1)

pub map-All :
    (P : StateFifo → Type 0) (change : StateFifo → StateFifo)
    → ((f : StateFifo) → P f → P (change f))
    → (fifos : List StateFifo) → All P fifos
    → All P (map change fifos)
map-All P change keep [] h = tt
map-All P change keep (f ∷ fifos) h = (keep f h.0, map-All P change keep fifos h.1)

-- Parts of a list of FIFOs, and one put in another's place.
pub All-front {ℓ} :
    (P : StateFifo → Type ℓ) (front back : List StateFifo) (x : StateFifo)
    → All P (front ++ x ∷ back)
    → All P front × P x × All P back
All-front P [] back x h = (tt, h.0, h.1)
All-front P (f ∷ front) back x h = let (a, b, c) = All-front P front back x h.1 in ((h.0, a), b, c)

pub NoClash-replace :
    (front back : List StateFifo) (old new : StateFifo)
    → NoClash (front ++ old ∷ back)
    → All (λ g. ¬ Clash new g) front
    → All (λ g. ¬ Clash new g) back
    → NoClash (front ++ new ∷ back)
NoClash-replace [] back old new h k l = (l, h.1)
NoClash-replace (f ∷ front) back old new h k l =
    let (a, b, c) = All-front (λ g. ¬ Clash f g) front back old h.0 in
    let apart : ¬ Clash f new = λ clash. k.0 (ground (arith, clash)) in
    (
      All-append (λ g. ¬ Clash f g) front (new ∷ back) a (apart, c),
      NoClash-replace front back old new h.1 k.1 l,
    )

-- The FIFOs beside one of them do not clash with it.
pub NoClash-beside :
    (front back : List StateFifo) (old : StateFifo)
    → NoClash (front ++ old ∷ back)
    → All (λ g. ¬ Clash old g) front × All (λ g. ¬ Clash old g) back
NoClash-beside [] back old h = (tt, h.0)
NoClash-beside (f ∷ front) back old h =
    let (a, b, c) = All-front (λ g. ¬ Clash f g) front back old h.0 in
    let (d, e) = NoClash-beside front back old h.1 in (((λ clash. b (ground (arith, clash))), d), e)
