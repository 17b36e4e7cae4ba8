-- ===== src/Bridge/Queue/Accepted.antt =====
-- PushState: which samples the queue takes, and what is pending of each player afterwards.
use ht2mp.Prelude.{
  ℕ, ◌≡◌, ◌≢◌, refl, sym, ap, ◌∙◌, subst, arith, Bool, true, false, none, some, List, [], ◌∷◌, ◌++◌,
  All, Bool-cases, inl, inr, any,
}
use ht2mp.Ipc.Types.{PlayerSample}
use ht2mp.Coordinator.Session.{sequence_newer}
use ht2mp.Bridge.Queue.{StateFifo, samples, samples_from, push_sample, QueueResult, stale}
use ht2mp.Bridge.Queue.Commands.{empty_sample, empty_fifo, same_player, is_free, push_fifos, Push}
use ht2mp.Bridge.Queue.Pending.{
  PushedAt, push_first_lem, pending, last_pushed, pending_found, pending-none, fifo_of-replace_own,
  fifo_of-none, same_player_sound, same_player-Apart,
}
use ht2mp.Bridge.Queue.Invariant.{EntryOk, Clash, NoClash, All-front, NoClash-beside}
use ht2mp.Bridge.Queue.Pushing.{
  is_stale_for, Pushed, push_sample-Pushed, push_sample-stale, no_player-Clash, same_player-free,
  replace-Taken, Taken,
}

-- A newer sample of a player that has a FIFO, or one of another player while a FIFO is free.
unfoldable pub accepts : PlayerSample → List StateFifo → Bool
accepts command fifos = elim (last_pushed command.player_id command.incarnation_id fifos) [
  | none ↦ any is_free fifos
  | some last ↦ sequence_newer command.sequence last
]

-- No FIFO is free.
any-is_free :
    (fifos : List StateFifo) → All (λ f. is_free f ≡ false) fifos → any is_free fifos ≡ false
any-is_free [] h = refl
any-is_free (f ∷ fifos) h = rw h.0 (any-is_free fifos h.1)

any-is_free_found :
    (front back : List StateFifo) (old : StateFifo)
    → is_free old ≡ true
    → any is_free (front ++ old ∷ back) ≡ true
any-is_free_found [] back old h = rw h refl
any-is_free_found (f ∷ front) back old h = ground (arith, any-is_free_found front back old h)

-- The ways that a push can go.
pub data PushCase (command : PlayerSample) (fifos : List StateFifo) : Type 0 where
  no_room :
      last_pushed command.player_id command.incarnation_id fifos ≡ none
      → any is_free fifos ≡ false
      → push_fifos command fifos ≡ none
      → PushCase command fifos
  too_old :
      (last : ℕ)
      → last_pushed command.player_id command.incarnation_id fifos ≡ some last
      → sequence_newer command.sequence last ≡ false
      → push_fifos command fifos ≡ some (stale, fifos, 0)
      → PushCase command fifos
  taken :
      (f : StateFifo) (after : List StateFifo)
      → accepts command fifos ≡ true
      → pending command.player_id command.incarnation_id fifos ≡ samples empty_sample f
      → Pushed f command
      → Taken fifos command f after
      → push_fifos command fifos
        ≡ some ((push_sample f command).0, after, (push_sample f command).2)
      → PushCase command fifos

-- The player has a FIFO.
same_ids-Clash :
    (old new : StateFifo) (fifos : List StateFifo)
    → new.player_id ≡ old.player_id
    → new.incarnation_id ≡ old.incarnation_id
    → All (λ g. ¬ Clash old g) fifos
    → All (λ g. ¬ Clash new g) fifos
same_ids-Clash old new [] e e' h = tt
same_ids-Clash old new (g ∷ fifos) e e' h =
    ((λ clash. h.0 (ground (arith, clash, e, e'))), same_ids-Clash old new fifos e e' h.1)

own_fifo :
    (command : PlayerSample) (front back : List StateFifo) (old : StateFifo)
    → command.player_id ≢ 0
    → All EntryOk (front ++ old ∷ back)
    → NoClash (front ++ old ∷ back)
    → All (λ g. same_player command.player_id command.incarnation_id g ≡ false) front
    → same_player command.player_id command.incarnation_id old ≡ true
    → push_fifos command (front ++ old ∷ back)
      ≡ some (
        (push_sample old command).0,
        front ++ (push_sample old command).1 ∷ back,
        (push_sample old command).2,
      )
    → PushCase command (front ++ old ∷ back)
unfolding accepts
own_fifo command front back old used entries no_clash skipped found pushes =
    let fifos = front ++ old ∷ back in
    let (player, incarnation) = same_player_sound _ _ old found in
    let (held, last) =
      pending_found command.player_id command.incarnation_id fifos old (
        fifo_of-replace_own command.player_id command.incarnation_id front back old skipped
          found) in
    let entry : EntryOk old = (All-front EntryOk front back old entries).1 in
    let old_used : old.player_id ≢ 0 = λ free. used (sym player ∙ free) in
    let sequenced = entry.sequenced old_used in
    elim (Bool-cases (sequence_newer command.sequence old.last_sequence)) [
      | inr older ↦
          let is_old : is_stale_for old command ≡ true = rw (sequenced, older) refl in
          PushCase.too_old old.last_sequence last older
            (pushes ∙ rw (push_sample-stale old command is_old) refl)
      | inl newer ↦
          let is_new : is_stale_for old command ≡ false = rw (sequenced, newer) refl in
          let p : Pushed old command =
            push_sample-Pushed old command entry.ring entry.owned old_used
              (sym player, sym incarnation) is_new in
          let (beside, behind) = NoClash-beside front back old no_clash in
          PushCase.taken old (front ++ (push_sample old command).1 ∷ back)
            (rw (accepts, last) newer) held p
            (replace-Taken command front back old old p player incarnation entries no_clash skipped
              (same_ids-Clash old (push_sample old command).1 front p.player p.incarnation beside)
              (same_ids-Clash old (push_sample old command).1 back p.player p.incarnation behind)
              (λ q j used' apart.
                same_player-Apart q j old
                  (λ same. apart (sym player ∙ same.0, sym incarnation ∙ same.1))))
            pushes
    ]

-- The player gets a free FIFO.
free_fifo :
    (command : PlayerSample) (front back : List StateFifo) (old : StateFifo)
    → command.player_id ≢ 0
    → All EntryOk (front ++ old ∷ back)
    → NoClash (front ++ old ∷ back)
    → All
        (λ g. same_player command.player_id command.incarnation_id g ≡ false)
        (front ++ old ∷ back)
    → is_free old ≡ true
    → let fresh = record empty_fifo {
      player_id = command.player_id;
      incarnation_id = command.incarnation_id;
    } in
      push_fifos command (front ++ old ∷ back)
        ≡ some (
          (push_sample fresh command).0,
          front ++ (push_sample fresh command).1 ∷ back,
          (push_sample fresh command).2,
        )
      → PushCase command (front ++ old ∷ back)
unfolding accepts samples samples_from
free_fifo command front back old used entries no_clash nobody free pushes =
    let fifos = front ++ old ∷ back in
    let fresh = record empty_fifo {
      player_id = command.player_id;
      incarnation_id = command.incarnation_id;
    } in
    let (ahead, at, behind) =
      All-front (λ g. same_player command.player_id command.incarnation_id g ≡ false) front back old
        nobody in
    let (held, last) =
      pending-none command.player_id command.incarnation_id fifos
        (fifo_of-none command.player_id command.incarnation_id fifos nobody) in
    let p : Pushed fresh command =
      push_sample-Pushed fresh command
        (record { whole = refl; head_within = omega arith; count_within = omega arith }) tt used
        (refl, refl) refl in
    PushCase.taken fresh (front ++ (push_sample fresh command).1 ∷ back)
      (rw (accepts, last) (any-is_free_found front back old free)) held p
      (replace-Taken command front back old fresh p refl refl entries no_clash ahead
        (no_player-Clash command (push_sample fresh command).1 front p.player p.incarnation ahead)
        (no_player-Clash command (push_sample fresh command).1 back p.player p.incarnation behind)
        (λ q j used' apart. same_player-free q j old free used'))
      pushes

-- The result of a push in the words of the place that it found.
put_there :
    (command : PlayerSample) {fifos after : List StateFifo} {result : QueueResult} {dropped : ℕ}
    (push : Push) (test : StateFifo → Bool)
    → push_fifos command fifos ≡ some (result, after, dropped)
    → (at : PushedAt test push fifos result after dropped)
    → push_fifos command (at.front ++ at.old ∷ at.back)
      ≡ some ((push at.old).0, at.front ++ (push at.old).1 ∷ at.back, (push at.old).2)
put_there command push test e at =
    ap (push_fifos command) (sym at.before) ∙ e ∙ rw (at.replaced, ← at.results, ← at.drops) refl

pub push_fifos_lem :
    (command : PlayerSample) (fifos : List StateFifo)
    → command.player_id ≢ 0
    → All EntryOk fifos
    → NoClash fifos
    → PushCase command fifos
unfolding push_fifos
push_fifos_lem command fifos used entries no_clash =
    let test = same_player command.player_id command.incarnation_id in
    let fresh = record empty_fifo {
      player_id = command.player_id;
      incarnation_id = command.incarnation_id;
    } in
    elim (push_first_lem test (λ f. push_sample f command) fifos) [
      | inr (result, after, dropped, e, at) ↦
          let pushes : push_fifos command fifos ≡ some (result, after, dropped) =
            rw (push_fifos, e) refl in
          subst (PushCase command) (sym at.before) (
            own_fifo command at.front at.back at.old used (subst (All EntryOk) at.before entries)
              (subst NoClash at.before no_clash) at.skipped at.found
              (put_there command (λ f. push_sample f command) test pushes at))
      | inl (e, nobody) ↦ elim (push_first_lem is_free (λ f. push_sample fresh command) fifos) [
        | inl (e', full) ↦
            PushCase.no_room
              (pending-none _ _ fifos
                (fifo_of-none command.player_id command.incarnation_id fifos nobody)).1
              (any-is_free fifos full) (rw (push_fifos, e, e') refl)
        | inr (result, after, dropped, e', at) ↦
            let pushes : push_fifos command fifos ≡ some (result, after, dropped) =
              rw (push_fifos, e, e') refl in
            subst (PushCase command) (sym at.before) (
              free_fifo command at.front at.back at.old used (subst (All EntryOk) at.before entries)
                (subst NoClash at.before no_clash)
                (subst (All (λ g. test g ≡ false)) at.before nobody) at.found
                (put_there command (λ f. push_sample fresh command) is_free pushes at))
      ]
    ]
