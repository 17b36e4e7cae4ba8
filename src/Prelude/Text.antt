-- ===== src/Prelude/Text.antt =====
-- Texts of the source as byte strings, and `std::to_string` of a number.
use Prim.Native.Nat.{ℕ, zero, suc, ◌+◌, ◌/◌, ◌%◌}
use Prim.Native.Char.{code}
use Prim.Native.String.{String}
use mathlib.Core.List.{List, [], ◌∷◌, ◌++◌}
use package.ht2mp.Prelude.Tests.{ltb, if◌then◌else◌}

-- The bytes of an ASCII literal. It stays shut, so that no proof walks a message text.
unfoldable pub text : String → List ℕ
text String.[] = []
text (String.◌∷◌ c s) = code c ∷ text s

-- Decimal digits; the fuel bounds their number.
unfoldable pub digits_of : ℕ → ℕ → List ℕ
digits_of zero n = []
digits_of (suc fuel) n =
    let high = digits_of fuel (n / 10) in
    if ltb n 10 then (n + 48) ∷ [] else high ++ (n % 10 + 48) ∷ []

-- `std::to_string` of a value below 2 ^ 64, which has at most 20 digits.
unfoldable pub to_string : ℕ → List ℕ
unfolding digits_of
to_string n = digits_of 20 n
