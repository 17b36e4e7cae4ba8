-- ===== src/Protocol/Float.antt =====
-- The parts of IEEE 754 that the source's tests use, on bit patterns, and its arithmetic as a
-- parameter. A pattern is below 2 ^ 32 (float) or 2 ^ 64 (double).
use ht2mp.Prelude.{ℕ, ◌+◌, ◌-◌, ◌/◌, ◌%◌, ◌^◌, Bool, not, ◌&&◌, ltb, leb, ◌==◌, if◌then◌else◌}

-- std::isfinite: the exponent is not all ones.
unfoldable pub is_finite32 : ℕ → Bool
is_finite32 a = not (a / 2 ^ 23 % 2 ^ 8 == 2 ^ 8 - 1)

unfoldable pub is_finite64 : ℕ → Bool
is_finite64 a = not (a / 2 ^ 52 % 2 ^ 11 == 2 ^ 11 - 1)

-- std::abs clears the sign bit.
unfoldable pub abs32 : ℕ → ℕ
abs32 a = a % 2 ^ 31

unfoldable pub abs64 : ℕ → ℕ
abs64 a = a % 2 ^ 63

-- A pattern above that of infinity, its sign bit aside, is a NaN.
unfoldable pub is_nan32 : ℕ → Bool
is_nan32 a = ltb 0x7f80_0000 (a % 2 ^ 31)

unfoldable pub is_nan64 : ℕ → Bool
is_nan64 a = ltb 0x7ff0_0000_0000_0000 (a % 2 ^ 63)

-- The order of the values that are not NaNs; both zeros have one key.
unfoldable pub key32 : ℕ → ℕ
key32 a = if ltb a (2 ^ 31) then 2 ^ 31 + a else 2 ^ 31 - a % 2 ^ 31

unfoldable pub key64 : ℕ → ℕ
key64 a = if ltb a (2 ^ 63) then 2 ^ 63 + a else 2 ^ 63 - a % 2 ^ 63

-- a < b, a <= b and a == b; each is false if a side is a NaN.
unfoldable pub lt32 : ℕ → ℕ → Bool
unfolding is_nan32 key32
lt32 a b = not (is_nan32 a) && (not (is_nan32 b) && ltb (key32 a) (key32 b))

unfoldable pub le32 : ℕ → ℕ → Bool
unfolding is_nan32 key32
le32 a b = not (is_nan32 a) && (not (is_nan32 b) && leb (key32 a) (key32 b))

unfoldable pub eq32 : ℕ → ℕ → Bool
unfolding is_nan32 key32
eq32 a b = not (is_nan32 a) && (not (is_nan32 b) && key32 a == key32 b)

unfoldable pub lt64 : ℕ → ℕ → Bool
unfolding is_nan64 key64
lt64 a b = not (is_nan64 a) && (not (is_nan64 b) && ltb (key64 a) (key64 b))

unfoldable pub le64 : ℕ → ℕ → Bool
unfolding is_nan64 key64
le64 a b = not (is_nan64 a) && (not (is_nan64 b) && leb (key64 a) (key64 b))

-- An int32_t comparison a <= b on two's complement patterns.
unfoldable pub le_i32 : ℕ → ℕ → Bool
le_i32 a b = leb ((a + 2 ^ 31) % 2 ^ 32) ((b + 2 ^ 31) % 2 ^ 32)

-- The rounding arithmetic of the machine and <cmath>, which the source only calls.
pub record Arithmetic : Type 0 where
  -- static_cast<double>(float), and static_cast<double>(std::uint64_t).
  pub widen : ℕ → ℕ
  pub from_u64 : ℕ → ℕ
  pub add : ℕ → ℕ → ℕ
  pub subtract : ℕ → ℕ → ℕ
  pub multiply : ℕ → ℕ → ℕ
  pub divide : ℕ → ℕ → ℕ
  pub fmod : ℕ → ℕ → ℕ
