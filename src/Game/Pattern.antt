-- ===== src/Game/Pattern.antt =====
-- FindAllMasked of src/game/pattern.cpp: the search for a pattern with wildcards.
pub mod Search
use ht2mp.Prelude.{
  ℕ, zero, suc, ◌+◌, ◌-◌, Bool, true, false, not, ◌&&◌, ◌||◌, List, [], ◌∷◌, length, get_or, ltb,
  ◌==◌, if◌then◌else◌,
}

pub record MaskedPattern : Type 0 where
  pub bytes : List ℕ
  pub mask : List ℕ

-- The distance to the first byte that is no wildcard.
unfoldable pub first_required : List ℕ → ℕ
first_required [] = 0
first_required (m ∷ mask) = let rest = first_required mask in if not (m == 0) then 0 else suc rest

-- The inner loop, from a place in the haystack on.
unfoldable pub matches_from : List ℕ → ℕ → List ℕ → List ℕ → Bool
matches_from haystack position [] mask = true
matches_from haystack position (b ∷ bytes) [] = true
matches_from haystack position (b ∷ bytes) (m ∷ mask) =
    let rest = matches_from haystack (position + 1) bytes mask in
    if not (m == 0) && not (get_or haystack position 0 == b) then false else rest

-- The outer loop over `count` starts from `start` on, with room for `room` results, one at least.
unfoldable pub scan : List ℕ → MaskedPattern → ℕ → ℕ → ℕ → List ℕ
scan haystack pattern zero start room = []
scan haystack pattern (suc count) start room =
    let required = first_required pattern.mask in
    elim (not (get_or haystack (start + required) 0 == get_or pattern.bytes required 0)) [
      | true ↦ scan haystack pattern count (start + 1) room
      | false ↦ elim (matches_from haystack start pattern.bytes pattern.mask) [
        | false ↦ scan haystack pattern count (start + 1) room
        | true ↦ start ∷ elim (room == 1) [
          | true ↦ []
          | false ↦ scan haystack pattern count (start + 1) (room - 1)
        ]
      ]
    ]

unfoldable pub find_all_masked : List ℕ → MaskedPattern → ℕ → List ℕ
find_all_masked haystack pattern maximum_results =
    if length pattern.bytes == 0
      || (not (length pattern.bytes == length pattern.mask)
          || (ltb (length haystack) (length pattern.bytes) || maximum_results == 0))
    then []
    else if first_required pattern.mask == length pattern.mask
    then []
    else scan haystack pattern (length haystack - length pattern.bytes + 1) 0 maximum_results
