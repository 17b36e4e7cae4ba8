-- ===== src/Bridge/Horn.antt =====
-- HornPlayback of bridge/horn_playback.hpp: when the horn of a remote vehicle sounds.
use ht2mp.Prelude.{
  ℕ, ◌+◌, ◌-◌, ◌%◌, ◌^◌, ◌≤◌, ◌<◌, ◌≡◌, ◌≢◌, refl, arith, Bool, true, false, not, ◌&&◌, ◌||◌, leb,
  ltb, ◌==◌, List, [], ◌∷◌, All, any, ◌⊎◌, ◌∙◌, if◌then◌else◌, Bool-cases, inl, inr,
}
use ht2mp.Protocol.Types.{HornState}

abbrev pub freshness_us : ℕ
freshness_us = 500_000

abbrev pub minimum_pulse_us : ℕ
minimum_pulse_us = 120_000

pub record HornPlayback : Type 0 where
  pub state : HornState
  pub received_us : ℕ
  pub pulse_until_us : ℕ
  pub initialized : Bool

abbrev pub silent_horn : HornPlayback
silent_horn = record {
  state = record { active = 0; tone = 0; press_sequence = 0 };
  received_us = 0;
  pulse_until_us = 0;
  initialized = false;
}

unfoldable pub is_fresh : ℕ → ℕ → Bool
is_fresh received_us now_us = leb received_us now_us && leb (now_us - received_us) freshness_us

unfoldable pub new_press : HornPlayback → HornState → Bool
new_press horn state = horn.initialized && not (state.press_sequence == horn.state.press_sequence)

unfoldable pub starts_pulse : HornPlayback → HornState → Bool
starts_pulse horn state = new_press horn state || (not horn.initialized && not (state.active == 0))

-- The early return of Observe.
unfoldable pub ignores : HornPlayback → HornState → ℕ → Bool
ignores horn state received_us =
    ltb 2 state.tone || (received_us == 0 || (horn.initialized && leb received_us horn.received_us))

unfoldable pub observe : HornPlayback → HornState → ℕ → ℕ → HornPlayback
observe horn state received_us now_us =
    let fresh = is_fresh received_us now_us in
    let started =
      if fresh && starts_pulse horn state
      then (now_us + minimum_pulse_us) % 2 ^ 64
      else horn.pulse_until_us in
    if ignores horn state received_us then horn else record {
      state = state;
      received_us = received_us;
      pulse_until_us = if not fresh then 0 else started;
      initialized = true;
    }

unfoldable pub playing : HornPlayback → ℕ → Bool
playing horn now_us =
    horn.initialized
    && (is_fresh horn.received_us now_us
        && (not (horn.state.active == 0) || ltb now_us horn.pulse_until_us))

-- One call of Observe.
pub record Observation : Type 0 where
  pub state : HornState
  pub received_us : ℕ
  pub now_us : ℕ

unfoldable pub observe_all : HornPlayback → List Observation → HornPlayback
observe_all horn [] = horn
observe_all horn (o ∷ observations) =
    observe_all (observe horn o.state o.received_us o.now_us) observations

abbrev pub is_late : Observation → Bool
is_late o = not (is_fresh o.received_us o.now_us)

-- The pulse ends when it did, or is over since an observation was late.
abbrev pub Kept : HornPlayback → HornPlayback → List Observation → Type 0
Kept horn after observations =
    (after.pulse_until_us ≡ horn.pulse_until_us)
    ⊎ ((after.pulse_until_us ≡ 0) × (any is_late observations ≡ true))

-- One more snapshot of the press that is known.
observe-repeat :
    (horn : HornPlayback) (o : Observation)
    → horn.initialized ≡ true
    → o.state.press_sequence ≡ horn.state.press_sequence
    → let after = observe horn o.state o.received_us o.now_us in
      (after.initialized ≡ true)
      × (after.state.press_sequence ≡ horn.state.press_sequence)
      × ((after.pulse_until_us ≡ horn.pulse_until_us)
          ⊎ ((after.pulse_until_us ≡ 0) × (is_late o ≡ true)))
unfolding observe starts_pulse new_press
observe-repeat horn o known same = elim (Bool-cases (ignores horn o.state o.received_us)) [
  | inl ignored ↦ rw ignored (known, refl, inl refl)
  | inr taken ↦ elim (Bool-cases (is_fresh o.received_us o.now_us)) [
    | inl fresh ↦ rw taken (refl, same, inl (ground (arith, fresh)))
    | inr late ↦ rw taken (refl, same, inr (ground (arith, late)))
  ]
]

observe_all-Kept :
    (horn : HornPlayback) (observations : List Observation)
    → horn.initialized ≡ true
    → All (λ o. o.state.press_sequence ≡ horn.state.press_sequence) observations
    → Kept horn (observe_all horn observations) observations
unfolding observe_all
observe_all-Kept horn [] known same = inl refl
observe_all-Kept horn (o ∷ observations) known same =
    let after = observe horn o.state o.received_us o.now_us in
    let (still, press, first) = observe-repeat horn o known same.0 in
    let rest = observe_all-Kept after observations still (rw press same.1) in
    elim rest [
      | inr (over, late) ↦ inr (over, ground (arith, late))
      | inl kept ↦ elim first [
        | inl first_kept ↦ inl (kept ∙ first_kept)
        | inr (over, late) ↦ inr (kept ∙ over, ground (arith, late))
      ]
    ]

-- If a horn has taken a state, then however often snapshots with the press counter of that state
-- are observed, at whatever times, the pulse still ends when it did, or is over and one of them
-- was late; and once the time has come at which it was to end, the horn plays exactly if the state
-- it holds is fresh and active.
pub observe_all-pulse :
    (horn : HornPlayback) (observations : List Observation) (later_us : ℕ)
    → horn.initialized ≡ true
    → All (λ o. o.state.press_sequence ≡ horn.state.press_sequence) observations
    → horn.pulse_until_us ≤ later_us
    → let after = observe_all horn observations in
      Kept horn after observations
      × (playing after later_us ≡ (
          after.initialized
          && (is_fresh after.received_us later_us && not (after.state.active == 0))))
unfolding playing
observe_all-pulse horn observations later_us known same over =
    let kept = observe_all-Kept horn observations known same in
    (
      kept,
      elim kept [
        | inl unchanged ↦ ground (arith, unchanged)
        | inr (gone, late) ↦ ground (arith, gone)
      ],
    )

-- If a state with a tone of at most 2 is received later than the one before, at a time that is not
-- 0, is fresh when it is observed, and counts a new press, then for the 120 ms of the pulse the
-- horn plays as long as the state is fresh, even if the button is released; the end of the pulse
-- is below 2^64.
pub playing-observe :
    (horn : HornPlayback) (state : HornState) (received_us now_us later_us : ℕ)
    → state.tone ≤ 2
    → received_us ≢ 0
    → horn.received_us < received_us
    → is_fresh received_us now_us ≡ true
    → new_press horn state ≡ true
    → now_us + minimum_pulse_us < 2 ^ 64
    → now_us ≤ later_us
    → later_us < now_us + minimum_pulse_us
    → playing (observe horn state received_us now_us) later_us ≡ is_fresh received_us later_us
unfolding observe playing starts_pulse ignores
playing-observe horn state received_us now_us later_us tone here newer fresh press fits after soon =
    let heard : ignores horn state received_us ≡ false = ground arith in
    let starts : starts_pulse horn state ≡ true = ground (arith, press) in
    let exact : (now_us + minimum_pulse_us) % 2 ^ 64 ≡ now_us + minimum_pulse_us =
      omega (arith, fits) in
    rw (heard, fresh, starts, exact) (ground arith)
