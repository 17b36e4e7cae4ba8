-- ===== src/Game/Pattern/Search.antt =====
-- The search finds what a plain comparison at every place finds.
use ht2mp.Prelude.{
  ℕ, zero, suc, ◌+◌, ◌-◌, ◌≤◌, ◌<◌, ◌≡◌, refl, sym, ap, ◌∙◌, arith, Bool, true, false, not, ◌&&◌,
  ◌||◌, List, [], ◌∷◌, length, get_or, take, drop, ltb, ◌==◌, if◌then◌else◌, Bool-cases, inl, inr,
  ==_iff, ==_refl,
}
use ht2mp.Game.Pattern.{MaskedPattern, first_required, matches_from, scan, find_all_masked}

-- A text that begins with the pattern's bytes, but for the wildcards.
unfoldable pub begins_with : List ℕ → List ℕ → List ℕ → Bool
begins_with [] mask text = true
begins_with (b ∷ bytes) [] text = true
begins_with (b ∷ bytes) (m ∷ mask) [] = false
begins_with (b ∷ bytes) (m ∷ mask) (c ∷ text) = (m == 0 || c == b) && begins_with bytes mask text

-- The places of a text, counted from `start` on, where the pattern stands.
unfoldable pub places : MaskedPattern → ℕ → ℕ → List ℕ → List ℕ
places pattern zero start text = []
places pattern (suc count) start text =
    let rest = places pattern count (start + 1) (drop 1 text) in
    if begins_with pattern.bytes pattern.mask text then start ∷ rest else rest

-- What is in a text from a place on.
drop-get :
    (text : List ℕ) (n : ℕ) → n < length text → drop n text ≡ get_or text n 0 ∷ drop (suc n) text
drop-get [] n h = absurd (omega arith)
drop-get (c ∷ text) zero h = refl
drop-get (c ∷ text) (suc n) h = drop-get text n (omega arith)

drop_next : (text : List ℕ) (n : ℕ) → drop 1 (drop n text) ≡ drop (suc n) text
drop_next text zero = refl
drop_next [] (suc n) = refl
drop_next (c ∷ text) (suc n) = drop_next text n

tests : (a b c : Bool) → (if not a && not b then false else c) ≡ ((a || b) && c)
tests true b c = refl
tests false true c = refl
tests false false c = refl

matches_from-begins_with :
    (haystack : List ℕ) (position : ℕ) (bytes mask : List ℕ)
    → position + length bytes ≤ length haystack
    → matches_from haystack position bytes mask ≡ begins_with bytes mask (drop position haystack)
unfolding matches_from begins_with
matches_from-begins_with haystack position [] mask h = refl
matches_from-begins_with haystack position (b ∷ bytes) [] h = refl
matches_from-begins_with haystack position (b ∷ bytes) (m ∷ mask) h =
    let here = drop-get haystack position (omega arith) in
    let next : position + 1 ≡ suc position = omega arith in
    let rest : matches_from haystack (position + 1) bytes mask
        ≡ begins_with bytes mask (drop (suc position) haystack) =
      matches_from-begins_with haystack (position + 1) bytes mask (omega arith)
      ∙ ap (λ n. begins_with bytes mask (drop n haystack)) next in
    rw (here, rest) (tests (m == 0) (get_or haystack position 0 == b) _)

-- The byte that the outer loop tests first is one that a match needs.
required_matches :
    (haystack : List ℕ) (position : ℕ) (bytes mask : List ℕ)
    → length bytes ≡ length mask
    → first_required mask < length mask
    → matches_from haystack position bytes mask ≡ true
    → get_or haystack (position + first_required mask) 0 ≡ get_or bytes (first_required mask) 0
unfolding matches_from first_required
required_matches haystack position [] [] e h matched = absurd (omega arith)
required_matches haystack position [] (m ∷ mask) e h matched = absurd (omega arith)
required_matches haystack position (b ∷ bytes) [] e h matched = absurd (omega arith)
required_matches haystack position (b ∷ bytes) (m ∷ mask) e h matched = elim (Bool-cases (m == 0)) [
  | inr needed ↦
      let here : position + 0 ≡ position = omega arith in
      elim (Bool-cases (get_or haystack position 0 == b)) [
        | inl same ↦ rw (needed, here) ((==_iff (get_or haystack position 0) b).0 same)
        | inr differs ↦ let fails : false ≡ true = rw (needed, differs) at matched in absurd cc
      ]
  | inl wildcard ↦
      let rest =
        required_matches haystack (position + 1) bytes mask (omega arith)
          (omega (arith, rw wildcard at h)) (rw wildcard at matched) in
      let next : position + 1 + first_required mask ≡ position + suc (first_required mask) =
        omega arith in
      rw wildcard (rw next at rest)
]

-- A step of the outer loop at a place where the pattern does not stand, and at one where it does.
scan_skips :
    (haystack : List ℕ) (pattern : MaskedPattern) (count start room : ℕ)
    → matches_from haystack start pattern.bytes pattern.mask ≡ false
    → scan haystack pattern (suc count) start room ≡ scan haystack pattern count (start + 1) room
unfolding scan
scan_skips haystack pattern count start room absent =
    let required = first_required pattern.mask in
    elim (Bool-cases (get_or haystack (start + required) 0 == get_or pattern.bytes required 0)) [
      | inl same ↦ rw (scan, same, absent) refl
      | inr differs ↦ rw (scan, differs) refl
    ]

scan_finds :
    (haystack : List ℕ) (pattern : MaskedPattern) (count start room : ℕ)
    → length pattern.bytes ≡ length pattern.mask
    → first_required pattern.mask < length pattern.mask
    → matches_from haystack start pattern.bytes pattern.mask ≡ true
    → scan haystack pattern (suc count) start room
      ≡ start ∷ (if room == 1 then [] else scan haystack pattern count (start + 1) (room - 1))
unfolding scan
scan_finds haystack pattern count start room e h found =
    let first = required_matches haystack start pattern.bytes pattern.mask e h found in
    elim (Bool-cases (room == 1)) [
      | inl last ↦
          rw
            (
              scan,
              first,
              ==_refl (get_or pattern.bytes (first_required pattern.mask) 0),
              found,
              last,
            )
            refl
      | inr more ↦
          rw
            (
              scan,
              first,
              ==_refl (get_or pattern.bytes (first_required pattern.mask) 0),
              found,
              more,
            )
            refl
    ]

-- What a result leaves room for.
more_room :
    (found : ℕ → List ℕ) (rest : List ℕ) (room : ℕ)
    → ((r : ℕ) → found (suc r) ≡ take (suc r) rest)
    → (if suc room == 1 then [] else found (suc room - 1)) ≡ take room rest
more_room found rest zero h = refl
more_room found rest (suc room) h =
    let several : (suc (suc room) == 1) ≡ false = ground arith in
    let less : suc (suc room) - 1 ≡ suc room = omega arith in rw (several, less) (h room)

no_room : (a b c : Bool) (found : List ℕ) → (if a || (b || (c || true)) then [] else found) ≡ []
no_room true b c found = refl
no_room false true c found = refl
no_room false false true found = refl
no_room false false false found = refl

-- The outer loop finds the places where the pattern stands, as many as there is room for.
scan_lem :
    (haystack : List ℕ) (pattern : MaskedPattern) (count start room : ℕ)
    → length pattern.bytes ≡ length pattern.mask
    → first_required pattern.mask < length pattern.mask
    → start + count + length pattern.bytes ≤ length haystack + 1
    → scan haystack pattern count start (suc room)
      ≡ take (suc room) (places pattern count start (drop start haystack))
unfolding places
scan_lem haystack pattern zero start room e h fits = unfold scan in refl
scan_lem haystack pattern (suc count) start room e h fits =
    let next : start + 1 ≡ suc start = omega arith in
    let same =
      matches_from-begins_with haystack start pattern.bytes pattern.mask (omega (arith, fits)) in
    let rest = places pattern count (start + 1) (drop (start + 1) haystack) in
    let shifted : drop 1 (drop start haystack) ≡ drop (start + 1) haystack =
      drop_next haystack start ∙ rw next refl in
    elim (Bool-cases (matches_from haystack start pattern.bytes pattern.mask)) [
      | inr absent ↦
          let nowhere : begins_with pattern.bytes pattern.mask (drop start haystack) ≡ false =
            sym same ∙ absent in
          scan_skips haystack pattern count start (suc room) absent
          ∙ scan_lem haystack pattern count (start + 1) room e h (omega (arith, fits))
          ∙ rw (places, nowhere, shifted) refl
      | inl found ↦
          let here : begins_with pattern.bytes pattern.mask (drop start haystack) ≡ true =
            sym same ∙ found in
          let more : (if suc room == 1
                then []
                else scan haystack pattern count (start + 1) (suc room - 1))
              ≡ take room rest =
            more_room (scan haystack pattern count (start + 1)) rest room
              (λ r. scan_lem haystack pattern count (start + 1) r e h (omega (arith, fits))) in
          scan_finds haystack pattern count start (suc room) e h found
          ∙ rw (places, here, shifted, more) refl
    ]

-- If a pattern has as many bytes as its mask, one at least is no wildcard, and it is no longer
-- than the text, then the search, which looks at one byte first and stops at the maximum, finds
-- exactly the first places, as many as the maximum, at which the text begins with the pattern.
pub find_all_masked_lem :
    (haystack : List ℕ) (pattern : MaskedPattern) (maximum_results : ℕ)
    → length pattern.bytes ≡ length pattern.mask
    → length pattern.bytes ≤ length haystack
    → first_required pattern.mask < length pattern.mask
    → find_all_masked haystack pattern maximum_results
      ≡ take maximum_results
          (places pattern (length haystack - length pattern.bytes + 1) 0 haystack)
unfolding find_all_masked
find_all_masked_lem haystack pattern zero e fits required =
    no_room (length pattern.bytes == 0) (not (length pattern.bytes == length pattern.mask))
      (ltb (length haystack) (length pattern.bytes))
      (if first_required pattern.mask == length pattern.mask
        then []
        else scan haystack pattern (length haystack - length pattern.bytes + 1) 0 0)
find_all_masked_lem haystack pattern (suc maximum) e fits required =
    let some_bytes : (length pattern.bytes == 0) ≡ false = ground (arith, e, required) in
    let same : (length pattern.bytes == length pattern.mask) ≡ true = ground (arith, e) in
    let long : ltb (length haystack) (length pattern.bytes) ≡ false = ground (arith, fits) in
    let some_room : (suc maximum == 0) ≡ false = ground arith in
    let some_required : (first_required pattern.mask == length pattern.mask) ≡ false =
      ground (arith, required) in
    rw (find_all_masked, some_bytes, same, long, some_room, some_required)
      (scan_lem haystack pattern (length haystack - length pattern.bytes + 1) 0 maximum e required
        (omega (arith, fits)))
