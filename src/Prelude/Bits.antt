-- ===== src/Prelude/Bits.antt =====
-- Bit operations as arithmetic, from the digit recursion that the native operations stand for.
use Prim.Native.Nat.{
  ℕ, zero, suc, ◌+◌, ◌*◌, ◌/◌, ◌%◌, ◌^◌, ◌≤◌, ◌<◌, max, min, bit_and, bit_or, digits,
  bit_or-bitwise, bit_and-bitwise,
}
use mathlib.Core.Path.{◌≡◌, refl, ap}
use ht2mp.Prelude.Tests.{◌==◌, ==_iff, Bool-cases}
use mathlib.Core.Logic.{inl, inr}
use mathlib.Core.Bool.{Bool, true, ◌&&◌}
use native.Mathlib.Nat.{pow-suc}
use native.Mathlib.Omega.{arith}

-- A test that passes on each number up to a bound, found out by evaluation.
module _ (passes : ℕ → Bool) where
  unfoldable pub table : ℕ → Bool
  table zero = true
  table (suc bound) = table bound && passes bound

  pub table_sound : (bound : ℕ) → table bound ≡ true → (n : ℕ) → n < bound → passes n ≡ true
  unfolding table
  table_sound zero filled n small = absurd (omega arith)
  table_sound (suc bound) filled n small = elim (Bool-cases (n == bound)) [
    | inl last ↦ let e : n ≡ bound = ground arith in rw e (ground arith)
    | inr earlier ↦ table_sound bound (ground arith) n (ground arith)
  ]

-- `a | b` by the digits of `a`, lowest first; `fuel` bounds their number.
abbrev join : ℕ → ℕ → ℕ → ℕ
join fuel a b = digits (λ rest. rest) max fuel a b

-- Any fuel from `a` on gives the same digits.
enough_fuel :
    (a b some_fuel other_fuel : ℕ)
    → a ≤ some_fuel
    → a ≤ other_fuel
    → join some_fuel a b ≡ join other_fuel a b
enough_fuel zero b zero zero _ _ = refl
enough_fuel zero b (suc _) zero _ _ = refl
enough_fuel zero b zero (suc _) _ _ = refl
enough_fuel zero b (suc _) (suc _) _ _ = refl
enough_fuel (suc a) b zero other_fuel low _ = absurd (omega arith)
enough_fuel (suc a) b (suc _) zero _ low = absurd (omega arith)
enough_fuel (suc a) b (suc some_fuel) (suc other_fuel) low low' =
    let half : suc a / 2 ≤ a = omega arith in
    rw (enough_fuel (suc a / 2) (b / 2) some_fuel other_fuel (omega arith) (omega arith))

nothing_joined : (b : ℕ) → bit_or 0 b ≡ b
nothing_joined b = bit_or-bitwise 0 b

-- The lowest digit of `a | b`, and the others.
lowest_joined : (a b : ℕ) → bit_or a b ≡ max (a % 2) (b % 2) + 2 * bit_or (a / 2) (b / 2)
lowest_joined zero b = omega (arith, nothing_joined b, nothing_joined (b / 2))
lowest_joined (suc a) b =
    let half : suc a / 2 ≤ a = omega arith in
    let fuel = enough_fuel (suc a / 2) (b / 2) a (suc a / 2) half (omega arith) in
    omega (arith, fuel, bit_or-bitwise (suc a / 2) (b / 2), bit_or-bitwise (suc a) b)

-- Two numbers with no digit in common: `low | high << k` is their sum.
pub bit_or_disjoint :
    (k low high : ℕ) → low < 2 ^ k → bit_or low (high * 2 ^ k) ≡ low + high * 2 ^ k
bit_or_disjoint zero low high h =
    let e : low ≡ 0 = omega arith in rw e (omega (arith, nothing_joined (high * 2 ^ zero)))
bit_or_disjoint (suc k) low high h = omega (
  arith,
  pow-suc 2 k,
  lowest_joined low (high * 2 ^ suc k),
  ap (λ (t : ℕ). high * t) (pow-suc 2 k),
  ap (λ (t : ℕ). bit_or (low / 2) t) half,
  bit_or_disjoint k (low / 2) high (omega (arith, pow-suc 2 k)),
)
  where
    double : high * 2 ^ suc k ≡ 2 * (high * 2 ^ k)
    double = omega (arith, ap (λ (t : ℕ). high * t) (pow-suc 2 k))

    half : high * 2 ^ suc k / 2 ≡ high * 2 ^ k
    half = omega (arith, double)

nothing_to_join : (fuel a : ℕ) → a ≤ fuel → bit_or a 0 ≡ a
nothing_to_join zero a h = let e : a ≡ 0 = omega arith in rw e (nothing_joined 0)
nothing_to_join (suc fuel) a h =
    omega (arith, lowest_joined a 0, nothing_to_join fuel (a / 2) (omega arith))

-- The same with the high digits first.
pub bit_or_joins : (k low high : ℕ) → low < 2 ^ k → bit_or (high * 2 ^ k) low ≡ high * 2 ^ k + low
bit_or_joins zero low high h =
    let e : low ≡ 0 = omega arith in
    rw e (omega (arith, nothing_to_join (high * 2 ^ zero) (high * 2 ^ zero) (omega arith)))
bit_or_joins (suc k) low high h = omega (
  arith,
  pow-suc 2 k,
  lowest_joined (high * 2 ^ suc k) low,
  ap (λ (t : ℕ). high * t) (pow-suc 2 k),
  ap (λ (t : ℕ). bit_or t (low / 2)) (half_of high k),
  bit_or_joins k (low / 2) high (omega (arith, pow-suc 2 k)),
)
  where
    half_of : (high k : ℕ) → high * 2 ^ suc k / 2 ≡ high * 2 ^ k
    half_of high k = omega (arith, ap (λ (t : ℕ). high * t) (pow-suc 2 k))

-- The low byte of a packet's length.
pub low_byte : (size : ℕ) → size < 1200 → bit_and size 0xff ≡ size % 2 ^ 8
low_byte size small = (==_iff _ _).0 (table_sound low_bytes 1200 sizes size small)
  where
    low_bytes : ℕ → Bool
    low_bytes n = bit_and n 0xff == n % 2 ^ 8

    sizes : table low_bytes 1200 ≡ true
    sizes = unfold table in refl

zero-digits : (fuel a : ℕ) → digits (λ b. zero) min fuel a 0 ≡ 0
zero-digits zero a = refl
zero-digits (suc fuel) zero = refl
zero-digits (suc fuel) (suc a) = omega (arith, zero-digits fuel (suc a / 2))

-- The lowest bit.
pub low_bit : (n : ℕ) → bit_and n 1 ≡ n % 2
low_bit zero = omega (arith, bit_and-bitwise 0 1)
low_bit (suc n) = omega (arith, bit_and-bitwise (suc n) 1, zero-digits n (suc n / 2))
