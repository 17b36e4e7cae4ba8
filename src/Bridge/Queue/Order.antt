-- ===== src/Bridge/Queue/Order.antt =====
-- The ring of a FIFO holds the samples in the order of their arrival.
use ht2mp.Prelude.{
  ℕ, zero, suc, ◌+◌, ◌%◌, ◌≤◌, ◌<◌, ◌≡◌, ◌≢◌, refl, sym, ◌∙◌, arith, false, not, ◌&&◌, List, [],
  ◌∷◌, ◌++◌, ◌==◌, if◌then◌else◌, set, get_or, length, drop, length-set, Bool-cases, inl, inr,
  ==_iff,
}
use ht2mp.Coordinator.Session.{sequence_newer}
use ht2mp.Ipc.Types.{PlayerSample}
use ht2mp.Bridge.Queue.{fifo_depth, StateFifo, push_sample, samples_from, samples}

pub record FifoOk (fifo : StateFifo) : Type 0 where
  pub whole : length fifo.ring ≡ fifo_depth
  pub head_within : fifo.head < fifo_depth
  pub count_within : fifo.count ≤ fifo_depth

module _ {ℓ} {A : Type ℓ} where
  get_or-set : (xs : List A) (i : ℕ) (v d : A) → i < length xs → get_or (set xs i v) i d ≡ v
  get_or-set [] i v d h = absurd (omega arith)
  get_or-set (x ∷ xs) zero v d h = refl
  get_or-set (x ∷ xs) (suc i) v d h = get_or-set xs i v d (omega arith)

  get_or-set_other :
      (xs : List A) (i j : ℕ) (v d : A) → j ≢ i → get_or (set xs i v) j d ≡ get_or xs j d
  get_or-set_other [] i j v d h = refl
  get_or-set_other (x ∷ xs) zero zero v d h = absurd (h refl)
  get_or-set_other (x ∷ xs) zero (suc j) v d h = refl
  get_or-set_other (x ∷ xs) (suc i) zero v d h = refl
  get_or-set_other (x ∷ xs) (suc i) (suc j) v d h = get_or-set_other xs i j v d (omega arith)

module _ (d : PlayerSample) where
  -- A write behind the samples leaves them.
  samples_from-set :
      (ring : List PlayerSample) (v : PlayerSample) (head index count last : ℕ)
      → index + count ≤ last
      → last < fifo_depth
      → samples_from d (set ring ((head + last) % fifo_depth) v) head index count
        ≡ samples_from d ring head index count
  unfolding samples_from
  samples_from-set ring v head index zero last h small = refl
  samples_from-set ring v head index (suc count) last h small =
      let apart : (head + index) % 8 ≢ (head + last) % 8 = λ e. absurd (omega arith) in
      rw (
        get_or-set_other ring ((head + last) % 8) ((head + index) % 8) v d apart,
        samples_from-set ring v head (index + 1) count last (omega arith) small,
      )

  samples_from_last :
      (ring : List PlayerSample) (head index count : ℕ)
      → samples_from d ring head index (suc count)
        ≡ samples_from d ring head index count
          ++ get_or ring ((head + (index + count)) % fifo_depth) d ∷ []
  unfolding samples_from
  samples_from_last ring head index zero =
      let same : index ≡ index + 0 = omega arith in rw (← same) refl
  samples_from_last ring head index (suc count) =
      let same : index + suc count ≡ index + 1 + count = omega arith in
      rw (same, ← samples_from_last ring head (index + 1) count) refl

  samples_from_next :
      (ring : List PlayerSample) (head index count : ℕ)
      → samples_from d ring ((head + 1) % fifo_depth) index count
        ≡ samples_from d ring head (index + 1) count
  unfolding samples_from
  samples_from_next ring head index zero = refl
  samples_from_next ring head index (suc count) =
      let same : ((head + 1) % 8 + index) % 8 ≡ (head + (index + 1)) % 8 = omega arith in
      rw (same, samples_from_next ring head (index + 1) count)

  -- A sample written behind `count` others.
  samples_from-write :
      (ring : List PlayerSample) (head count : ℕ) (v : PlayerSample)
      → length ring ≡ fifo_depth
      → count < fifo_depth
      → samples_from d (set ring ((head + count) % fifo_depth) v) head 0 (suc count)
        ≡ samples_from d ring head 0 count ++ v ∷ []
  samples_from-write ring head count v whole small =
      let there = get_or-set ring ((head + count) % fifo_depth) v d (omega arith) in
      let from_zero : 0 + count ≡ count = omega arith in
      let kept = samples_from-set ring v head 0 count count (omega arith) small in
      samples_from_last (set ring ((head + count) % fifo_depth) v) head 0 count
      ∙ rw (kept, from_zero, there) refl

  pub length-samples_from :
      (ring : List PlayerSample) (head index count : ℕ)
      → length (samples_from d ring head index count) ≡ count
  unfolding samples_from
  length-samples_from ring head index zero = refl
  length-samples_from ring head index (suc count) =
      omega (arith, length-samples_from ring head (index + 1) count)

  -- The oldest sample of a ring that is not empty, and the others.
  drop-samples_from :
      (ring : List PlayerSample) (head count : ℕ)
      → drop 1 (samples_from d ring head 0 (suc count))
        ≡ samples_from d ring ((head + 1) % fifo_depth) 0 count
  unfolding samples_from
  drop-samples_from ring head count = sym (samples_from_next ring head 0 count)

  -- If a ring has eight places and its head and count are within them, and a sample is newer than
  -- the last one or the first, then after the push the head and count are within the ring, which
  -- holds the samples of before and then the new one, in the order of their arrival, without the
  -- oldest exactly if there were eight.
  pub push_sample-samples :
      (fifo : StateFifo) (command : PlayerSample)
      → FifoOk fifo
      → (fifo.has_sequence && not (sequence_newer command.sequence fifo.last_sequence)) ≡ false
      → let (result, after, dropped) = push_sample fifo command in
        FifoOk after
        × (samples d after ≡ drop dropped (samples d fifo) ++ command ∷ [])
        × (dropped ≡ (if length (samples d fifo) == fifo_depth then 1 else 0))
  unfolding push_sample samples
  push_sample-samples fifo command ok newer =
      let size = length-samples_from fifo.ring fifo.head 0 fifo.count in
      elim (Bool-cases (fifo.count == fifo_depth)) [
        | inr room ↦
            let more : fifo.count + 1 ≡ suc fifo.count = omega arith in
            let few : fifo.count < fifo_depth = ground (arith, ok.count_within) in
            let whole = length-set fifo.ring ((fifo.head + fifo.count) % fifo_depth) command in
            rw (newer, room)
              (
                record {
                  whole = omega (arith, whole, ok.whole);
                  head_within = ok.head_within;
                  count_within = omega (arith, few);
                },
                rw more (samples_from-write fifo.ring fifo.head fifo.count command ok.whole few),
                rw (size, room) refl,
              )
        | inl full ↦
            let at : fifo.count ≡ 8 = (==_iff _ _).0 full in
            let head = (fifo.head + 1) % fifo_depth in
            let whole = length-set fifo.ring ((head + 7) % fifo_depth) command in
            rw (newer, full)
              (
                record {
                  whole = rw at (omega (arith, whole, ok.whole));
                  head_within = omega arith;
                  count_within = omega (arith, at);
                },
                rw (at, drop-samples_from fifo.ring fifo.head 7)
                    (samples_from-write fifo.ring head 7 command ok.whole (omega arith)),
                rw (size, full) refl,
              )
      ]
