-- ===== src/Bridge/ActorList/Links.antt =====
-- What a sound actor list is: a chain from the sentinel back to it, linked both ways.
use ht2mp.Prelude.{
  ℕ, suc, ◌≡◌, ◌≢◌, Bool, true, false, arith, some, List, [], ◌∷◌, ◌==◌, if◌then◌else◌,
}
use ht2mp.Protocol.Float.{le_i32}
use ht2mp.Bridge.World.{ActorOwnership, local, remote_owned, stock, classify_actor}
use ht2mp.Bridge.ActorList.{NodeView, find_node, is_broken, stock_actor_type_count}

-- The local player's actor is of type 1, a remote player's of type 2.
unfoldable pub has_role : ActorOwnership → ℕ → Bool
has_role local actor_type = actor_type == 1
has_role remote_owned actor_type = actor_type == 2
has_role stock actor_type = true

-- A node that is linked both ways, knows its own number, and has the type of some actor.
pub record Intact (current previous : ℕ) (node : NodeView) : Type 0 where
  pub back : node.previous ≡ previous
  pub onward : node.next ≢ 0
  pub itself : node.self ≡ current
  pub typed : le_i32 0 node.actor_type ≡ true
  pub type_known : le_i32 stock_actor_type_count node.actor_type ≡ false

pub is_broken-Intact :
    (current previous : ℕ) (node : NodeView)
    → is_broken current previous node ≡ false
    → Intact current previous node
unfolding is_broken
is_broken-Intact current previous node h = ground arith

pub Intact-is_broken :
    (current previous : ℕ) (node : NodeView)
    → Intact current previous node
    → is_broken current previous node ≡ false
unfolding is_broken
Intact-is_broken current previous node h = ground arith

module _ (nodes : List NodeView) (sentinel local_player_id : ℕ) (remote_player_ids : List ℕ) where
  abbrev pub owner : ℕ → ActorOwnership
  owner player_id = classify_actor player_id local_player_id remote_player_ids

  -- A node that stands where `current` points, behind `previous`.
  pub record LinkOk (previous current : ℕ) (node : NodeView) : Type 0 where
    pub apart : current ≢ sentinel
    pub found : find_node current nodes ≡ some node
    pub sound : Intact current previous node
    pub role : has_role (owner current) node.actor_type ≡ true

  -- The chain from `current` on, whose nodes are in `path`, up to the sentinel.
  abbrev pub Linked : ℕ → ℕ → List NodeView → Type 0
  Linked previous current [] = current ≡ sentinel
  Linked previous current (node ∷ path) =
      LinkOk previous current node × Linked current node.next path

  -- Where the chain ends, and how many of its actors are the local player's.
  unfoldable pub end_of : ℕ → ℕ → List NodeView → ℕ
  end_of previous current [] = previous
  end_of previous current (node ∷ path) = end_of current node.next path

  unfoldable pub locals : ℕ → List NodeView → ℕ
  locals current [] = 0
  locals current (node ∷ path) =
      let rest = locals node.next path in if current == local_player_id then suc rest else rest
