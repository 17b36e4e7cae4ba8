-- ===== src/Tests/ActorList.antt =====
-- The actor list of one local and one remote truck.
use ht2mp.Prelude.{◌≡◌, ◌↔◌, refl, arith, true, List, [], ◌∷◌}
use ht2mp.Protocol.Float.{le_i32}
use ht2mp.Bridge.World.{classify_actor}
use ht2mp.Bridge.ActorList.{
  NodeView, find_node, is_broken, count_actor, walk, validate_online_actor_list,
}
use ht2mp.Bridge.ActorList.Sound.{SoundList, validate_online_actor_list_lem}

abbrev nodes : List NodeView
nodes =
    record { player_id = 7; next = 100; previous = 4; self = 7; actor_type = 2 }
    ∷ record { player_id = 4; next = 7; previous = 100; self = 4; actor_type = 1 }
    ∷ []

validate_online_actor_list_lem_example :
    ((validate_online_actor_list nodes 100 4 7 4 (7 ∷ []) 64).0 ≡ true)
    ↔ SoundList nodes 100 4 7 4 (7 ∷ []) 64
validate_online_actor_list_lem_example =
    validate_online_actor_list_lem nodes 100 4 7 4 (7 ∷ []) 64 (omega arith)

two_trucks_accepted : (validate_online_actor_list nodes 100 4 7 4 (7 ∷ []) 64).0 ≡ true
unfolding validate_online_actor_list walk find_node is_broken count_actor classify_actor le_i32
two_trucks_accepted = refl
