-- ===== src/Bridge/ActorList.antt =====
-- ValidateOnlineActorList, ClampStockActorTargets and the two predicates of
-- bridge/online_world_policy.hpp and online_world_policy.cpp. A count of visited nodes that passes
-- `maximum_nodes` is a walk whose remaining number is 0: `maximum_nodes` is below 2 ^ 32 - 1, so that
-- the count itself does not wrap.
pub mod Links
pub mod Walks
pub mod Sound
use ht2mp.Prelude.{
  ℕ, zero, suc, ◌+◌, ◌%◌, ◌^◌, Bool, true, false, not, ◌&&◌, ◌||◌, Option, none, some, List, [],
  ◌∷◌, ltb, ◌==◌, if◌then◌else◌,
}
use ht2mp.Protocol.Float.{le_i32}
use ht2mp.Bridge.World.{ActorOwnership, local, remote_owned, stock, classify_actor}

abbrev pub stock_actor_type_count : ℕ
stock_actor_type_count = 10

abbrev pub background_tick_watchdog_limit_ms : ℕ
background_tick_watchdog_limit_ms = 500

unfoldable pub should_rearm_background_tick_watchdog : ℕ → Bool
should_rearm_background_tick_watchdog worker_gap_ms =
    ltb background_tick_watchdog_limit_ms worker_gap_ms

unfoldable pub should_suppress_focus_loss : Bool → Bool → Bool
should_suppress_focus_loss online_active application_active =
    online_active && not application_active

-- The loop of ClampStockActorTargets from the type `type` on.
unfoldable pub clamp_from : ℕ → List ℕ → List ℕ → List ℕ
clamp_from type current [] = []
clamp_from type [] (t ∷ target) = t ∷ target
clamp_from type (c ∷ current) (t ∷ target) =
    (if not (type == 1) then c else t) ∷ clamp_from (type + 1) current target

unfoldable pub clamp_stock_actor_targets : List ℕ → List ℕ → List ℕ
clamp_stock_actor_targets = clamp_from 0

pub record NodeView : Type 0 where
  pub player_id : ℕ
  pub next : ℕ
  pub previous : ℕ
  pub self : ℕ
  pub actor_type : ℕ

pub record ListSummary : Type 0 where
  pub local_count : ℕ
  pub remote_count : ℕ
  pub stock_count : ℕ

unfoldable pub find_node : ℕ → List NodeView → Option NodeView
find_node current [] = none
find_node current (node ∷ nodes) =
    let rest = find_node current nodes in if node.player_id == current then some node else rest

-- The tests on a node that was found.
unfoldable pub is_broken : ℕ → ℕ → NodeView → Bool
is_broken current previous node =
    not (node.previous == previous)
    || (node.next == 0
        || (not (node.self == current)
            || (not (le_i32 0 node.actor_type) || le_i32 stock_actor_type_count node.actor_type)))

-- `none`: the actor's type does not go with its owner.
unfoldable pub count_actor : ActorOwnership → ℕ → ListSummary → Option ListSummary
count_actor local actor_type summary =
    if not (actor_type == 1)
    then none
    else some (record summary { local_count = (summary.local_count + 1) % 2 ^ 32 })
count_actor remote_owned actor_type summary =
    if not (actor_type == 2)
    then none
    else some (record summary { remote_count = (summary.remote_count + 1) % 2 ^ 32 })
count_actor stock actor_type summary =
    some (record summary { stock_count = (summary.stock_count + 1) % 2 ^ 32 })

module _ (nodes : List NodeView) (sentinel last local_player_id : ℕ)
    (remote_player_ids : List ℕ) where
  unfoldable pub walk : ℕ → ℕ → ℕ → ListSummary → Bool × ListSummary
  walk zero current previous summary =
      if current == sentinel
      then (previous == last && summary.local_count == 1, summary)
      else (false, summary)
  walk (suc remaining) current previous summary =
      if current == sentinel
      then (previous == last && summary.local_count == 1, summary)
      else elim (find_node current nodes) [
        | none ↦ (false, summary)
        | some node ↦
            if is_broken current previous node
            then (false, summary)
            else elim (count_actor (classify_actor current local_player_id remote_player_ids)
                node.actor_type summary) [
                  | none ↦ (false, summary)
                  | some summary' ↦ walk remaining node.next current summary'
                ]
      ]

abbrev pub empty_summary : ListSummary
empty_summary = record { local_count = 0; remote_count = 0; stock_count = 0 }

unfoldable pub validate_online_actor_list :
    List NodeView → ℕ → ℕ → ℕ → ℕ → List ℕ → ℕ → Bool × ListSummary
validate_online_actor_list nodes sentinel first last local_player_id remote_player_ids
      maximum_nodes =
    if sentinel == 0
      || (first == 0
          || (last == 0
              || (local_player_id == 0 || (local_player_id == sentinel || maximum_nodes == 0))))
    then (false, empty_summary)
    else walk nodes sentinel last local_player_id remote_player_ids maximum_nodes first sentinel
        empty_summary
