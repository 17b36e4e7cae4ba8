-- ===== src/Bridge/Queue/Pushing.antt =====
-- PushState on the FIFOs: what becomes of the player's FIFO, and that no other changes.
use ht2mp.Prelude.{
  ℕ, ◌≡◌, ◌≢◌, refl, sym, ◌∙◌, arith, Bool, true, false, not, ◌&&◌, some, List, [], ◌∷◌, ◌++◌,
  length, length-append, drop, All, All-append, All-drop, ◌==◌, if◌then◌else◌,
}
use ht2mp.Ipc.Types.{PlayerSample}
use ht2mp.Coordinator.Session.{sequence_newer}
use ht2mp.Bridge.Queue.{fifo_depth, StateFifo, samples, push_sample, stale, queued, dropped_oldest}
use ht2mp.Bridge.Queue.Order.{FifoOk, push_sample-samples, length-samples_from}
use ht2mp.Bridge.Queue.Commands.{empty_sample, same_player, is_free}
use ht2mp.Bridge.Queue.Pending.{
  IsFrom, Apart, fifo_of, fifo_of-replace_other, fifo_of-replace_own, same_player-Apart,
}
use ht2mp.Bridge.Queue.Invariant.{EntryOk, Clash, NoClash, All-front, NoClash-replace}

abbrev pub is_stale_for : StateFifo → PlayerSample → Bool
is_stale_for f command = f.has_sequence && not (sequence_newer command.sequence f.last_sequence)

-- A push that a FIFO took.
pub record Pushed (f : StateFifo) (command : PlayerSample) : Type 0 where
  pub result :
      (push_sample f command).0
      ≡ (if length (samples empty_sample f) == fifo_depth then dropped_oldest else queued)
  pub entry : EntryOk (push_sample f command).1
  pub player : (push_sample f command).1.player_id ≡ f.player_id
  pub incarnation : (push_sample f command).1.incarnation_id ≡ f.incarnation_id
  pub last : (push_sample f command).1.last_sequence ≡ command.sequence
  pub drops :
      (push_sample f command).2 ≡ (if length (samples empty_sample f) == fifo_depth then 1 else 0)
  pub held :
      samples empty_sample (push_sample f command).1
      ≡ drop
          (if length (samples empty_sample f) == fifo_depth then 1 else 0)
          (samples empty_sample f)
        ++ command ∷ []

push_sample_result :
    (f : StateFifo) (command : PlayerSample)
    → is_stale_for f command ≡ false
    → (push_sample f command).0
      ≡ (if length (samples empty_sample f) == fifo_depth then dropped_oldest else queued)
unfolding push_sample samples
push_sample_result f command newer =
    rw (newer, length-samples_from empty_sample f.ring f.head 0 f.count) refl

pub push_sample-stale :
    (f : StateFifo) (command : PlayerSample)
    → is_stale_for f command ≡ true
    → push_sample f command ≡ (stale, f, 0)
unfolding push_sample
push_sample-stale f command old = rw old refl

pub push_sample-Pushed :
    (f : StateFifo) (command : PlayerSample)
    → FifoOk f
    → All (IsFrom f.player_id f.incarnation_id) (samples empty_sample f)
    → f.player_id ≢ 0
    → IsFrom f.player_id f.incarnation_id command
    → is_stale_for f command ≡ false
    → Pushed f command
unfolding push_sample
push_sample-Pushed f command ring owned used own newer =
    let (ring_after, held, dropped) = push_sample-samples empty_sample f command ring newer in
    let size : ℕ = if length (samples empty_sample f) == fifo_depth then 1 else 0 in
    let held_now : samples empty_sample (push_sample f command).1
        ≡ drop size (samples empty_sample f) ++ command ∷ [] =
      rw dropped at held in
    let player : (push_sample f command).1.player_id ≡ f.player_id = rw newer refl in
    let incarnation : (push_sample f command).1.incarnation_id ≡ f.incarnation_id = rw newer refl in
    record {
      result = push_sample_result f command newer;
      entry = record {
        ring = ring_after;
        free_empty = λ free. absurd (used (sym player ∙ free));
        owned =
            rw (held_now, player, incarnation)
              (All-append (IsFrom f.player_id f.incarnation_id) (drop size (samples empty_sample f))
                (command ∷ [])
                (All-drop (IsFrom f.player_id f.incarnation_id) size (samples empty_sample f) owned)
                (own, tt));
        sequenced = λ used_after. rw newer refl;
      };
      player = player;
      incarnation = incarnation;
      last = rw newer refl;
      drops = dropped;
      held = held_now;
    }

-- The FIFOs after one took the command: `f` is what was in its place, or what was put there.
pub record Taken (fifos : List StateFifo) (command : PlayerSample) (f : StateFifo)
    (after : List StateFifo) : Type 0 where
  pub entries : All EntryOk after
  pub no_clash : NoClash after
  pub as_many : length after ≡ length fifos
  pub own : fifo_of command.player_id command.incarnation_id after ≡ some (push_sample f command).1
  pub others :
      (p i : ℕ)
      → p ≢ 0
      → Apart command.player_id command.incarnation_id p i
      → fifo_of p i after ≡ fifo_of p i fifos

same_player_self :
    (p i : ℕ) (f : StateFifo) → f.player_id ≡ p → f.incarnation_id ≡ i → same_player p i f ≡ true
unfolding same_player
same_player_self p i f e e' = ground (arith, e, e')

pub same_player-free :
    (p i : ℕ) (f : StateFifo) → is_free f ≡ true → p ≢ 0 → same_player p i f ≡ false
unfolding same_player is_free
same_player-free p i f free used = ground (arith, free, used)

length-replace :
    (front back : List StateFifo) (old new : StateFifo)
    → length (front ++ new ∷ back) ≡ length (front ++ old ∷ back)
length-replace front back old new =
    omega (arith, length-append front (new ∷ back), length-append front (old ∷ back))

-- No FIFO is the player's, so that none clashes with one that becomes it.
pub no_player-Clash :
    (command : PlayerSample) (new : StateFifo) (fifos : List StateFifo)
    → new.player_id ≡ command.player_id
    → new.incarnation_id ≡ command.incarnation_id
    → All (λ g. same_player command.player_id command.incarnation_id g ≡ false) fifos
    → All (λ g. ¬ Clash new g) fifos
unfolding same_player
no_player-Clash command new [] e e' h = tt
no_player-Clash command new (g ∷ fifos) e e' h = (
  (λ clash. absurd (ground (arith, clash, e, e', h.0))),
  no_player-Clash command new fifos e e' h.1,
)

module _ (command : PlayerSample) (front back : List StateFifo) (old f : StateFifo)
    (pushed : Pushed f command) (player : f.player_id ≡ command.player_id)
    (incarnation : f.incarnation_id ≡ command.incarnation_id)
    (entries : All EntryOk (front ++ old ∷ back)) (no_clash : NoClash (front ++ old ∷ back))
    (skipped : All (λ g. same_player command.player_id command.incarnation_id g ≡ false) front)
    (front_apart : All (λ g. ¬ Clash (push_sample f command).1 g) front)
    (back_apart : All (λ g. ¬ Clash (push_sample f command).1 g) back)
    (old_other : (p i : ℕ)
      → p ≢ 0
      → Apart command.player_id command.incarnation_id p i
      → same_player p i old ≡ false) where
  pub replace-Taken :
      Taken (front ++ old ∷ back) command f (front ++ (push_sample f command).1 ∷ back)
  replace-Taken =
      let new = (push_sample f command).1 in
      let (before, at, behind) = All-front EntryOk front back old entries in
      let new_player : new.player_id ≡ command.player_id = pushed.player ∙ player in
      let new_incarnation : new.incarnation_id ≡ command.incarnation_id =
        pushed.incarnation ∙ incarnation in
      record {
        entries = All-append EntryOk front (new ∷ back) before (pushed.entry, behind);
        no_clash = NoClash-replace front back old new no_clash front_apart back_apart;
        as_many = length-replace front back old new;
        own =
            fifo_of-replace_own command.player_id command.incarnation_id front back new skipped
              (same_player_self _ _ new new_player new_incarnation);
        others = λ p i used apart.
            fifo_of-replace_other p i front back old new (old_other p i used apart) (
              same_player-Apart p i new
                (λ same. apart (sym new_player ∙ same.0, sym new_incarnation ∙ same.1)));
      }
