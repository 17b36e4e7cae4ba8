-- ===== src/Bridge/ActorList/Sound.antt =====
-- ValidateOnlineActorList accepts exactly the sound lists.
use ht2mp.Prelude.{
  ℕ, zero, suc, ◌+◌, ◌-◌, ◌^◌, ◌≤◌, ◌<◌, ◌≡◌, ◌≢◌, ◌↔◌, ap, ◌∙◌, arith, Bool, true, false, ◌||◌,
  List, [], ◌∷◌, length, ◌==◌, if◌then◌else◌, Bool-cases, inl, inr,
}
use ht2mp.Bridge.World.{classify_actor}
use ht2mp.Bridge.ActorList.{NodeView, ListSummary, walk, empty_summary, validate_online_actor_list}
use ht2mp.Bridge.ActorList.Links.{Linked, end_of, locals}
use ht2mp.Bridge.ActorList.Walks.{
  owner_local, count_actor_lem, ActorPath, walk_end, walk_next, walk_sound,
}

module _ (nodes : List NodeView) (sentinel last local_player_id : ℕ)
    (remote_player_ids : List ℕ) where
  walk_complete :
      (path : List NodeView) (remaining current previous : ℕ) (summary : ListSummary)
      → Linked nodes sentinel local_player_id remote_player_ids previous current path
      → length path ≤ remaining
      → end_of nodes sentinel local_player_id remote_player_ids previous current path ≡ last
      → summary.local_count + locals nodes sentinel local_player_id remote_player_ids current path
        ≡ 1
      → (walk nodes sentinel last local_player_id remote_player_ids remaining current previous
          summary).0
        ≡ true
  unfolding end_of locals
  walk_complete [] remaining current previous summary linked short ends one =
      walk_end nodes sentinel last local_player_id remote_player_ids remaining current previous
        summary (ground (arith, linked))
      ∙ ground (arith, ends, one)
  walk_complete (node ∷ path) zero current previous summary linked short ends one =
      absurd (omega arith)
  walk_complete (node ∷ path) (suc remaining) current previous summary linked short ends one =
      let owner = classify_actor current local_player_id remote_player_ids in
      let (summary', counted, count) =
        count_actor_lem owner node.actor_type summary linked.0.role (omega (arith, one)) in
      let count' : summary'.local_count
          ≡ (if current == local_player_id then suc summary.local_count else summary.local_count) =
        rw (owner_local current local_player_id remote_player_ids) at count in
      let rest = locals nodes sentinel local_player_id remote_player_ids node.next path in
      let one' : summary'.local_count + rest ≡ 1 = elim (Bool-cases (current == local_player_id)) [
        | inl own ↦ omega (arith, rw own at count', rw own at one)
        | inr other ↦ omega (arith, rw other at count', rw other at one)
      ] in
      ap (λ r. r.0)
        (walk_next nodes sentinel last local_player_id remote_player_ids remaining current previous
          summary summary' node linked.0 counted)
      ∙ walk_complete path remaining node.next current summary' linked.1 (omega (arith, short)) ends
          one'

-- A list that can be what the arguments say, and is sound.
pub record SoundList (nodes : List NodeView) (sentinel first last local_player_id : ℕ)
    (remote_player_ids : List ℕ) (maximum_nodes : ℕ) : Type 0 where
  pub some_sentinel : sentinel ≢ 0
  pub some_first : first ≢ 0
  pub some_last : last ≢ 0
  pub some_local : local_player_id ≢ 0
  pub local_apart : local_player_id ≢ sentinel
  pub some_nodes : maximum_nodes ≢ 0
  pub chain :
      ActorPath nodes sentinel last local_player_id remote_player_ids maximum_nodes first sentinel 0

-- For a maximum below 2^32 - 1, the list is accepted exactly if no argument is 0, the local player
-- is not the sentinel, and a chain of at most the maximum of nodes leads from the first to the
-- last and on to the sentinel, in which each node is found, names itself and the one before it,
-- points on, has a type of some actor that fits its owner, and just one is the local player's.
pub validate_online_actor_list_lem :
    (nodes : List NodeView) (sentinel first last local_player_id : ℕ) (remote_player_ids : List ℕ)
    (maximum_nodes : ℕ)
    → maximum_nodes < 2 ^ 32 - 1
    → ((validate_online_actor_list nodes sentinel first last local_player_id remote_player_ids
          maximum_nodes).0
        ≡ true)
      ↔ SoundList nodes sentinel first last local_player_id remote_player_ids maximum_nodes
unfolding validate_online_actor_list
validate_online_actor_list_lem nodes sentinel first last local_player_id remote_player_ids
      maximum_nodes few =
    (sound, complete)
  where
    refused : Bool
    refused =
        sentinel == 0
        || (first == 0
            || (last == 0
                || (local_player_id == 0 || (local_player_id == sentinel || maximum_nodes == 0))))

    walked : Bool × ListSummary
    walked =
        walk nodes sentinel last local_player_id remote_player_ids maximum_nodes first sentinel
          empty_summary

    sound :
        (if refused then (false, empty_summary) else walked).0 ≡ true
        → SoundList nodes sentinel first last local_player_id remote_player_ids maximum_nodes
    sound e = elim (Bool-cases refused) [
      | inl bad ↦ let fails : false ≡ true = rw bad at e in absurd cc
      | inr good ↦ record {
        some_sentinel = ground (arith, good);
        some_first = ground (arith, good);
        some_last = ground (arith, good);
        some_local = ground (arith, good);
        local_apart = ground (arith, good);
        some_nodes = ground (arith, good);
        chain =
            walk_sound nodes sentinel last local_player_id remote_player_ids maximum_nodes first
              sentinel empty_summary (omega (arith, few)) (rw good at e);
      }
    ]

    complete :
        SoundList nodes sentinel first last local_player_id remote_player_ids maximum_nodes
        → (if refused then (false, empty_summary) else walked).0 ≡ true
    complete h =
        let good : refused ≡ false = ground (
          arith, h.some_sentinel, h.some_first, h.some_last, h.some_local, h.local_apart,
          h.some_nodes,
        ) in
        rw good (
          walk_complete nodes sentinel last local_player_id remote_player_ids h.chain.path
            maximum_nodes first sentinel empty_summary h.chain.linked h.chain.short h.chain.ends
            h.chain.one_local)
