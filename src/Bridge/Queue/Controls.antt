-- ===== src/Bridge/Queue/Controls.antt =====
-- PushSpawn and PushDespawn: the control commands, and the samples that they remove.
use ht2mp.Prelude.{
  ℕ, ◌<◌, ◌≡◌, ◌≢◌, refl, ◌∙◌, arith, Bool, true, false, not, ◌&&◌, ◌||◌, none, List, [], ◌∷◌, ◌++◌,
  length, length-append, length-map, ◌==◌, if◌then◌else◌, Bool-cases, inl, inr, ◌⊎◌, map,
}
use ht2mp.Ipc.Types.{SpawnRemote}
use ht2mp.Bridge.Queue.{StateFifo, QueueResult, queued, overflow}
use ht2mp.Bridge.Queue.Commands.{
  same_player, removes, kept_or_reset, remove_states, CommandQueue, RemoteControl, max_controls,
  valid_spawn, valid_identity, push_spawn, push_despawn,
}
use ht2mp.Bridge.Queue.Pending.{
  pending, last_pushed, fifo_of-map, fifo_of-map-none, pending-none, pending_same,
}
use ht2mp.Bridge.Queue.Invariant.{
  QueueOk, EntryOk, map-All, map-NoClash, kept_or_reset-EntryOk, kept_or_reset-KeepsIdentity,
}

-- Whether RemoveStatesForPlayer removes the samples of an identity.
abbrev pub removed : ℕ → ℕ → ℕ → ℕ → Bool
removed player except p i = p == player && (except == 0 || not (i == except))

module _ (player except p i : ℕ) (used : p ≢ 0) where
  kept_or_reset-kept :
      removed player except p i ≡ false
      → (f : StateFifo) → same_player p i f ≡ true
      → kept_or_reset player except f ≡ f
  unfolding kept_or_reset removes same_player
  kept_or_reset-kept stays f same = ground (arith, stays, same)

  kept_or_reset-other :
      (f : StateFifo)
      → same_player p i f ≡ false
      → same_player p i (kept_or_reset player except f) ≡ false
  unfolding kept_or_reset same_player
  kept_or_reset-other f other = elim (Bool-cases (removes player except f)) [
    | inl reset ↦ rw reset (ground (arith, used))
    | inr kept ↦ rw kept other
  ]

  kept_or_reset-gone :
      removed player except p i ≡ true
      → (f : StateFifo) → same_player p i (kept_or_reset player except f) ≡ false
  unfolding kept_or_reset removes same_player
  kept_or_reset-gone goes f = ground (arith, goes, used)

  remove_states-pending :
      (fifos : List StateFifo)
      → (pending p i (remove_states player except fifos)
          ≡ (if removed player except p i then [] else pending p i fifos))
        × (last_pushed p i (remove_states player except fifos)
            ≡ (if removed player except p i then none else last_pushed p i fifos))
  unfolding remove_states
  remove_states-pending fifos = elim (Bool-cases (removed player except p i)) [
    | inl goes ↦ rw goes (
        pending-none p i (map (kept_or_reset player except) fifos)
          (fifo_of-map-none p i (kept_or_reset player except) fifos (kept_or_reset-gone goes)))
    | inr stays ↦ rw stays (
        pending_same p i fifos (map (kept_or_reset player except) fifos) (
          fifo_of-map p i (kept_or_reset player except) fifos (kept_or_reset-kept stays)
            kept_or_reset-other))
  ]

-- The two calls that queue a control command.
unfoldable pub push_control : CommandQueue → RemoteControl → QueueResult × CommandQueue
push_control q (RemoteControl.spawn command) = push_spawn q command
push_control q (RemoteControl.despawn command) = push_despawn q command

unfoldable pub valid_control : RemoteControl → Bool
valid_control (RemoteControl.spawn command) = valid_spawn command
valid_control (RemoteControl.despawn command) =
    valid_identity command.player_id command.incarnation_id

-- A spawn removes the samples of the player's other incarnations, a despawn all of the player's.
unfoldable pub removed_by : RemoteControl → ℕ → ℕ → Bool
removed_by (RemoteControl.spawn command) p i =
    p == command.player_id && not (i == command.incarnation_id)
removed_by (RemoteControl.despawn command) p i = p == command.player_id

-- A control command that was queued behind the others.
pub record ControlQueued (q : CommandQueue) (control : RemoteControl) (p i : ℕ)
    (after : CommandQueue) : Type 0 where
  pub behind : after.controls ≡ q.controls ++ control ∷ []
  pub same_count : after.dropped_states ≡ q.dropped_states
  pub still_pending :
      pending p i after.fifos ≡ (if removed_by control p i then [] else pending p i q.fifos)
  pub still_last :
      last_pushed p i after.fifos
      ≡ (if removed_by control p i then none else last_pushed p i q.fifos)

remove_states-QueueOk :
    (q : CommandQueue) (control : RemoteControl) (player except : ℕ)
    → QueueOk q
    → length q.controls ≢ max_controls
    → QueueOk (record q {
      controls = q.controls ++ control ∷ [];
      fifos = remove_states player except q.fifos;
    })
unfolding remove_states
remove_states-QueueOk q control player except ok room = record {
  players = length-map q.fifos (kept_or_reset player except) ∙ ok.players;
  entries =
      map-All EntryOk (kept_or_reset player except) (kept_or_reset-EntryOk player except) q.fifos
        ok.entries;
  no_clash =
      map-NoClash (kept_or_reset player except) (kept_or_reset-KeepsIdentity player except) q.fifos
        ok.no_clash;
  controls = omega (arith, length-append q.controls (control ∷ []), ok.controls, room);
  counter = ok.counter;
}

abbrev pub ControlEnds : CommandQueue → RemoteControl → ℕ → ℕ → QueueResult × CommandQueue → Type 0
ControlEnds q control p i ended =
    QueueOk ended.1
    × (((length q.controls ≡ max_controls) × (ended.0 ≡ overflow) × (ended.1 ≡ q))
        ⊎ ((length q.controls < max_controls)
            × (ended.0 ≡ queued)
            × ControlQueued q control p i ended.1))

queue_control :
    (q : CommandQueue) (control : RemoteControl) (player except p i : ℕ)
    → QueueOk q
    → p ≢ 0
    → removed player except p i ≡ removed_by control p i
    → ControlEnds q control p i (
        if length q.controls == max_controls then (overflow, q) else (
          queued,
          record q {
            controls = q.controls ++ control ∷ [];
            fifos = remove_states player except q.fifos;
          },
        ))
queue_control q control player except p i ok used same =
    elim (Bool-cases (length q.controls == max_controls)) [
      | inl full ↦ rw full (ok, inl (ground (arith, full), refl, refl))
      | inr room ↦
          let (still_pending, still_last) = remove_states-pending player except p i used q.fifos in
          rw room (
            remove_states-QueueOk q control player except ok (ground (arith, room)),
            inr (
              ground (arith, room, ok.controls),
              refl,
              record {
                behind = refl;
                same_count = refl;
                still_pending = rw same at still_pending;
                still_last = rw same at still_last;
              },
            ),
          )
    ]

spawned-removed :
    (command : SpawnRemote) (p i : ℕ)
    → valid_spawn command ≡ true
    → removed command.player_id command.incarnation_id p i
      ≡ removed_by (RemoteControl.spawn command) p i
unfolding valid_spawn valid_identity removed_by
spawned-removed command p i valid =
    let nonzero : (command.incarnation_id == 0) ≡ false = ground (arith, valid) in rw nonzero refl

-- In a well-formed queue a valid spawn or despawn is refused with overflow exactly if 32 control
-- commands wait, and the queue is then as before; otherwise it is queued behind them. A spawn
-- forgets the samples and the sequence of the player's other incarnations and a despawn those of
-- all, and neither changes those of any other identity whose player is not 0; the queue stays
-- well-formed.
pub push_control_lem :
    (q : CommandQueue) (control : RemoteControl) (p i : ℕ)
    → QueueOk q
    → valid_control control ≡ true
    → p ≢ 0
    → ControlEnds q control p i (push_control q control)
unfolding push_control push_spawn push_despawn valid_control removed_by
push_control_lem q (RemoteControl.spawn command) p i ok valid used = rw valid (
    queue_control q (RemoteControl.spawn command) command.player_id command.incarnation_id p i ok
      used (spawned-removed command p i valid))
push_control_lem q (RemoteControl.despawn command) p i ok valid used =
    rw valid (
      queue_control q (RemoteControl.despawn command) command.player_id 0 p i ok used
        (ground arith))

pub push_control-QueueOk :
    (q : CommandQueue) (control : RemoteControl) → QueueOk q → QueueOk (push_control q control).1
unfolding push_control push_spawn push_despawn
push_control-QueueOk q (RemoteControl.spawn command) ok = elim (Bool-cases (valid_spawn command)) [
  | inl valid ↦
      (push_control_lem q (RemoteControl.spawn command) 1 0 ok (unfold valid_control in valid)
        (omega arith)).0
  | inr refused ↦ rw refused ok
]
push_control-QueueOk q (RemoteControl.despawn command) ok =
    elim (Bool-cases (valid_identity command.player_id command.incarnation_id)) [
      | inl valid ↦
          (push_control_lem q (RemoteControl.despawn command) 1 0 ok (unfold valid_control in valid)
            (omega arith)).0
      | inr refused ↦ rw refused ok
    ]
