-- ===== src/Bridge/Registry/Generations.antt =====
-- The generations that a registry gives out.
use ht2mp.Prelude.{
  ℕ, zero, suc, ◌+◌, ◌-◌, ◌%◌, ◌^◌, ◌≤◌, ◌<◌, ◌≡◌, ◌≢◌, arith, if◌then◌else◌, ◌==◌, Bool-cases, inl,
  inr, ==_iff,
}
use ht2mp.Bridge.Registry.{take_generation}

-- A value that next_generation_ has between two calls.
abbrev pub IsGeneration : ℕ → Type 0
IsGeneration g = (1 ≤ g) × (g < 2 ^ 32)

-- What take_generation gives and leaves: the value itself, and its successor, which skips 0.
pub take_generation_lem :
    (g : ℕ) → IsGeneration g → take_generation g ≡ (g, if g == 2 ^ 32 - 1 then 1 else g + 1)
unfolding take_generation
take_generation_lem g h = ground arith

-- The generation after `count` more insertions.
unfoldable pub generation_after : ℕ → ℕ → ℕ
generation_after zero g = g
generation_after (suc count) g = generation_after count (take_generation g).1

generation_after-IsGeneration :
    (count g : ℕ) → IsGeneration g → IsGeneration (generation_after count g)
unfolding generation_after
generation_after-IsGeneration zero g h = h
generation_after-IsGeneration (suc count) g h =
    let e = take_generation_lem g h in
    generation_after-IsGeneration count (take_generation g).1 (rw e (ground arith))

-- The counter runs through 1 .. 2 ^ 32 - 1 and then starts again.
counted :
    (count g : ℕ) → IsGeneration g → generation_after count g ≡ (g - 1 + count) % (2 ^ 32 - 1) + 1
unfolding generation_after
counted zero g h = omega arith
counted (suc count) g h =
    let e = take_generation_lem g h in
    elim (Bool-cases (g == 2 ^ 32 - 1)) [
      | inl last ↦
          let at : g ≡ 2 ^ 32 - 1 = (==_iff _ _).0 last in
          rw (e, last) (omega (arith, at, counted count 1 (omega arith)))
      | inr more ↦
          let other : g ≢ 2 ^ 32 - 1 = ground arith in
          rw (e, more) (omega (arith, other, counted count (g + 1) (omega arith)))
    ]

pub generation_after_fresh :
    (count g : ℕ) → IsGeneration g → 1 ≤ count → count < 2 ^ 32 - 1 → generation_after count g ≢ g
generation_after_fresh count g h some_more few e = absurd (omega (arith, counted count g h))
