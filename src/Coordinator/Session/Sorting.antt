-- ===== src/Coordinator/Session/Sorting.antt =====
-- The order of the players in a snapshot.
use mathlib.Core.List.{Perm}
use mathlib.Core.List.Perm
use ht2mp.Prelude.{ℕ, ◌≤◌, List, [], ◌∷◌, All, arith, ltb, Bool-cases, inl, inr}
use ht2mp.Protocol.Types.{PlayerState}
use ht2mp.Coordinator.Session.{insert_state, sort_states}

-- The players in ascending order.
abbrev pub Ascending : List PlayerState → Type 0
Ascending [] = Unit {0}
Ascending (s ∷ players) = All (λ t. s.player_id ≤ t.player_id) players × Ascending players

insert_state-perm :
    (s : PlayerState) (players : List PlayerState) → Perm (insert_state s players) (s ∷ players)
unfolding insert_state
insert_state-perm s [] = Perm.refl _
insert_state-perm s (t ∷ players) = elim (Bool-cases (ltb t.player_id s.player_id)) [
  | inl below ↦
      rw below (Perm.trans (Perm.cons t (insert_state-perm s players)) (Perm.swap s t players))
  | inr above ↦ rw above (Perm.refl _)
]

pub sort_states-perm : (players : List PlayerState) → Perm (sort_states players) players
unfolding sort_states
sort_states-perm [] = Perm.refl []
sort_states-perm (s ∷ players) =
    Perm.trans (insert_state-perm s (sort_states players)) (Perm.cons s (sort_states-perm players))

insert_state-All :
    (P : PlayerState → Type 0) (s : PlayerState) (players : List PlayerState)
    → P s
    → All P players
    → All P (insert_state s players)
unfolding insert_state
insert_state-All P s [] p h = (p, tt)
insert_state-All P s (t ∷ players) p h = ground (arith, insert_state-All P s players p h.1)

le-All :
    (m n : ℕ) (players : List PlayerState)
    → m ≤ n
    → All (λ t. n ≤ t.player_id) players
    → All (λ t. m ≤ t.player_id) players
le-All m n [] le h = tt
le-All m n (t ∷ players) le h = (omega arith, le-All m n players le h.1)

insert_state-Ascending :
    (s : PlayerState) (players : List PlayerState)
    → Ascending players
    → Ascending (insert_state s players)
unfolding insert_state
insert_state-Ascending s [] h = (tt, tt)
insert_state-Ascending s (t ∷ players) h = elim (Bool-cases (ltb t.player_id s.player_id)) [
  | inl below ↦ rw below (
    insert_state-All (λ u. t.player_id ≤ u.player_id) s players (ground arith) h.0,
    insert_state-Ascending s players h.1,
  )
  | inr above ↦
      let le : s.player_id ≤ t.player_id = ground arith in
      rw above ((le, le-All s.player_id t.player_id players le h.0), h)
]

pub sort_states-Ascending : (players : List PlayerState) → Ascending (sort_states players)
unfolding sort_states
sort_states-Ascending [] = tt
sort_states-Ascending (s ∷ players) =
    insert_state-Ascending s (sort_states players) (sort_states-Ascending players)
