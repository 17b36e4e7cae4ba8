-- ===== src/Tests/Pattern.antt =====
-- The pattern ?? 8B in a short text.
use ht2mp.Prelude.{ℕ, ◌≡◌, refl, arith, [], ◌∷◌, List, take}
use ht2mp.Game.Pattern.{MaskedPattern, first_required, matches_from, scan, find_all_masked}
use ht2mp.Game.Pattern.Search.{places, find_all_masked_lem}

abbrev pattern : MaskedPattern
pattern = record { bytes = 0 ∷ 0x8b ∷ []; mask = 0 ∷ 0xff ∷ [] }

abbrev haystack : List ℕ
haystack = 0x55 ∷ 0x8b ∷ 0xec ∷ 0x8b ∷ 0x8b ∷ []

needs_second : first_required pattern.mask ≡ 1
unfolding first_required
needs_second = refl

find_all_masked_lem_example :
    find_all_masked haystack pattern 2 ≡ take 2 (places pattern 4 0 haystack)
find_all_masked_lem_example =
    find_all_masked_lem haystack pattern 2 refl (omega arith) (omega (arith, needs_second))

two_found : find_all_masked haystack pattern 2 ≡ 0 ∷ 2 ∷ []
unfolding find_all_masked first_required scan matches_from
two_found = refl
