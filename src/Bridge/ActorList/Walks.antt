-- ===== src/Bridge/ActorList/Walks.antt =====
-- The walk along the list, step by step.
use ht2mp.Prelude.{
  ℕ, zero, suc, ◌+◌, ◌%◌, ◌^◌, ◌≤◌, ◌<◌, ◌≡◌, refl, sym, ap, ◌∙◌, arith, Bool, true, false, ◌&&◌,
  none, some, List, [], ◌∷◌, length, any, ◌==◌, if◌then◌else◌, Bool-cases, Option-cases, inl, inr,
  ==_ne,
}
use ht2mp.Bridge.World.{ActorOwnership, local, remote_owned, stock, classify_actor}
use ht2mp.Bridge.ActorList.{NodeView, ListSummary, find_node, is_broken, count_actor, walk}
use ht2mp.Bridge.ActorList.Links.{
  has_role, LinkOk, is_broken-Intact, Intact-is_broken, Linked, end_of, locals,
}

abbrev pub is_local : ActorOwnership → Bool
is_local local = true
is_local remote_owned = false
is_local stock = false

pub owner_local :
    (current local_player_id : ℕ) (remote_player_ids : List ℕ)
    → is_local (classify_actor current local_player_id remote_player_ids)
      ≡ (current == local_player_id)
unfolding classify_actor
owner_local current local_player_id remote_player_ids =
    elim (Bool-cases (current == local_player_id)) [
      | inl own ↦ rw own refl
      | inr other ↦ elim (Bool-cases (any (λ remote. remote == current) remote_player_ids)) [
        | inl remote ↦ rw (other, remote) refl
        | inr nobody ↦ rw (other, nobody) refl
      ]
    ]

-- An actor of the right type is counted, and no other.
pub count_actor_lem :
    (owner : ActorOwnership) (actor_type : ℕ) (summary : ListSummary)
    → has_role owner actor_type ≡ true
    → summary.local_count + 1 < 2 ^ 32
    → (summary' : ListSummary) × (count_actor owner actor_type summary ≡ some summary')
      × (summary'.local_count
          ≡ (if is_local owner then suc summary.local_count else summary.local_count))
unfolding has_role count_actor
count_actor_lem local actor_type summary role small = (
  record summary { local_count = (summary.local_count + 1) % 2 ^ 32 },
  rw role refl,
  omega (arith, small),
)
count_actor_lem remote_owned actor_type summary role small =
    (record summary { remote_count = (summary.remote_count + 1) % 2 ^ 32 }, rw role refl, refl)
count_actor_lem stock actor_type summary role small = (_, refl, refl)

count_actor-none :
    (owner : ActorOwnership) (actor_type : ℕ) (summary : ListSummary)
    → has_role owner actor_type ≡ false
    → count_actor owner actor_type summary ≡ none
unfolding has_role count_actor
count_actor-none local actor_type summary role = rw role refl
count_actor-none remote_owned actor_type summary role = rw role refl
count_actor-none stock actor_type summary role = absurd cc

module _ (nodes : List NodeView) (sentinel last local_player_id : ℕ)
    (remote_player_ids : List ℕ) where
  -- A path that the walk can follow to its end.
  pub record ActorPath (remaining current previous count : ℕ) : Type 0 where
    pub path : List NodeView
    pub linked : Linked nodes sentinel local_player_id remote_player_ids previous current path
    pub short : length path ≤ remaining
    pub ends : end_of nodes sentinel local_player_id remote_player_ids previous current path ≡ last
    pub one_local : count + locals nodes sentinel local_player_id remote_player_ids current path ≡ 1

  pub walk_end :
      (remaining current previous : ℕ) (summary : ListSummary)
      → (current == sentinel) ≡ true
      → (walk nodes sentinel last local_player_id remote_player_ids remaining current previous
          summary).0
        ≡ (previous == last && summary.local_count == 1)
  unfolding walk
  walk_end zero current previous summary at_end = rw (walk, at_end) refl
  walk_end (suc remaining) current previous summary at_end = rw (walk, at_end) refl

  -- A step of the walk over a node that passes every test.
  pub walk_next :
      (remaining current previous : ℕ) (summary summary' : ListSummary) (node : NodeView)
      → LinkOk nodes sentinel local_player_id remote_player_ids previous current node
      → count_actor
          (classify_actor current local_player_id remote_player_ids)
          node.actor_type
          summary
        ≡ some summary'
      → walk nodes sentinel last local_player_id remote_player_ids
          (suc remaining)
          current
          previous
          summary
        ≡ walk nodes sentinel last local_player_id remote_player_ids remaining node.next current
            summary'
  unfolding walk
  walk_next remaining current previous summary summary' node ok counted =
      rw
        (
          walk,
          ==_ne current sentinel ok.apart,
          ok.found,
          Intact-is_broken current previous node ok.sound,
          counted,
        )
        refl

  nil_path :
      (remaining current previous : ℕ) (summary : ListSummary)
      → (current == sentinel) ≡ true
      → (previous == last && summary.local_count == 1) ≡ true
      → ActorPath remaining current previous summary.local_count
  unfolding end_of locals
  nil_path remaining current previous summary at_end e = record {
    path = [];
    linked = ground (arith, at_end);
    short = omega arith;
    ends = ground (arith, e);
    one_local = ground (arith, e);
  }

  cons_path :
      (remaining current previous count count' : ℕ) (node : NodeView)
      → LinkOk nodes sentinel local_player_id remote_player_ids previous current node
      → count' ≡ (if current == local_player_id then suc count else count)
      → ActorPath remaining node.next current count'
      → ActorPath (suc remaining) current previous count
  unfolding end_of locals
  cons_path remaining current previous count count' node ok counted p = record {
    path = node ∷ p.path;
    linked = (ok, p.linked);
    short = omega (arith, p.short);
    ends = p.ends;
    one_local = elim (Bool-cases (current == local_player_id)) [
      | inl own ↦ rw own (omega (arith, p.one_local, rw own at counted))
      | inr other ↦ rw other (omega (arith, p.one_local, rw other at counted))
    ];
  }

  -- The walk passes a node only if every test passes.
  walk_step :
      (remaining current previous : ℕ) (summary : ListSummary)
      → (current == sentinel) ≡ false
      → (walk nodes sentinel last local_player_id remote_player_ids
          (suc remaining)
          current
          previous
          summary).0
        ≡ true
      → (node : NodeView) × LinkOk nodes sentinel local_player_id remote_player_ids previous current
          node
  unfolding walk
  walk_step remaining current previous summary inside e =
      elim (Option-cases (find_node current nodes)) [
        | inl nobody ↦ let fails : false ≡ true = rw (walk, inside, nobody) at e in absurd cc
        | inr (node, found) ↦
            let owner = classify_actor current local_player_id remote_player_ids in
            elim (Bool-cases (is_broken current previous node)) [
              | inl broken ↦
                  let fails : false ≡ true = rw (walk, inside, found, broken) at e in absurd cc
              | inr sound ↦ elim (Bool-cases (has_role owner node.actor_type)) [
                | inr wrong ↦
                    let fails : false ≡ true =
                      rw
                        (
                          walk,
                          inside,
                          found,
                          sound,
                          count_actor-none owner node.actor_type summary wrong,
                        )
                        at e in
                    absurd cc
                | inl role ↦ (
                  node,
                  record {
                    apart = λ same. absurd (ground (arith, inside, same));
                    found = found;
                    sound = is_broken-Intact current previous node sound;
                    role = role;
                  },
                )
              ]
            ]
      ]

  pub walk_sound :
      (remaining current previous : ℕ) (summary : ListSummary)
      → summary.local_count + remaining < 2 ^ 32
      → (walk nodes sentinel last local_player_id remote_player_ids remaining current previous
          summary).0
        ≡ true
      → ActorPath remaining current previous summary.local_count
  walk_sound zero current previous summary small e = elim (Bool-cases (current == sentinel)) [
    | inl at_end ↦
        nil_path zero current previous summary at_end
          (sym (walk_end zero current previous summary at_end) ∙ e)
    | inr inside ↦ let fails : false ≡ true = unfold walk in rw (walk, inside) at e in absurd cc
  ]
  walk_sound (suc remaining) current previous summary small e =
      elim (Bool-cases (current == sentinel)) [
        | inl at_end ↦
            nil_path (suc remaining) current previous summary at_end
              (sym (walk_end (suc remaining) current previous summary at_end) ∙ e)
        | inr inside ↦
            let (node, ok) = walk_step remaining current previous summary inside e in
            let owner = classify_actor current local_player_id remote_player_ids in
            let (summary', counted, count) =
              count_actor_lem owner node.actor_type summary ok.role (omega (arith, small)) in
            let count' : summary'.local_count ≡ (
                if current == local_player_id
                then suc summary.local_count
                else summary.local_count) =
              rw (owner_local current local_player_id remote_player_ids) at count in
            let few : summary'.local_count ≤ suc summary.local_count = ground (arith, count') in
            cons_path remaining current previous summary.local_count summary'.local_count node ok
              count'
              (walk_sound remaining node.next current summary' (omega (arith, few, small)) (
                ap (λ r. r.0)
                  (sym (walk_next remaining current previous summary summary' node ok counted))
                ∙ e))
      ]
