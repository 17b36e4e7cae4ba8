-- ===== src/Coordinator/Session/Welcome.antt =====
-- What a newcomer and the peers that are there are told of each other.
use ht2mp.Prelude.{
  ℕ, ◌+◌, ◌%◌, ◌^◌, ◌≡◌, refl, ◌≢◌, true, Option, none, some, List, [], ◌∷◌, All, arith,
  if◌then◌else◌, ◌==◌, inl, inr, ◌⊎◌, Bool-cases, ==_iff,
}
use ht2mp.Protocol.Types.{Message, ClientHello, PeerDescription, normal}
use ht2mp.Coordinator.Peers.{find, contains, UniqueBy, find-absent}
use ht2mp.Coordinator.Session.{
  DispatchResult, PeerInfo, Peer, Session, describe, introduce, admit, accept,
}
use ht2mp.Coordinator.Session.Invariant.{WellFormed}
use ht2mp.Coordinator.Session.Routing.{messages_to}
use ht2mp.Coordinator.Session.Admission.{Admissible, Refused, Fault-Admissible, accept_outcome}

-- A player is introduced by two messages.
abbrev pub introduction : PeerDescription → List Message
introduction p = Message.peer_joined p ∷ Message.spawn_metadata p ∷ []

abbrev pub described : PeerInfo → PeerDescription
described info = record {
  player_id = info.player_id;
  incarnation_id = info.incarnation_id;
  vehicle_type = info.vehicle_type;
  display_name = info.display_name;
  paint_variant = info.paint_variant;
}

-- Every player that is there, to the newcomer.
abbrev pub introductions : List (ℕ × Peer) → List Message
introductions [] = []
introductions ((k, p) ∷ peers) =
    Message.peer_joined (described p.info)
    ∷ Message.spawn_metadata (described p.info)
    ∷ introductions peers

-- The newcomer, to a player that is there.
abbrev pub arrival : Session → ClientHello → PeerDescription
arrival s hello = record {
  player_id = s.next_player_id;
  incarnation_id = hello.incarnation_id;
  vehicle_type = hello.vehicle_type;
  display_name = hello.display_name;
  paint_variant = hello.paint_variant;
}

abbrev pub greeting : Session → ℕ → Message
greeting s now = Message.server_welcome (record {
  profile_id = s.config.profile_id;
  session_id = s.config.session_id;
  player_id = s.next_player_id;
  server_time_ms = now;
  max_players = s.config.max_players;
  state_hz = s.config.state_hz;
})

abbrev pub newcomer : Session → ℕ → ClientHello → Peer
newcomer s connection hello = record {
  info = record {
    connection_id = connection;
    player_id = s.next_player_id;
    incarnation_id = hello.incarnation_id;
    vehicle_type = hello.vehicle_type;
    paint_variant = hello.paint_variant;
    display_name = hello.display_name;
  };
  latest = none;
  latest_received_ms = 0;
  accepted_update_times_ms = [];
}

-- When the clock of the environment starts.
abbrev pub started : Option ℕ → ℕ → Option ℕ
started none now = some now
started (some epoch) now = some epoch

-- An admission: who is sent what, and the session with the newcomer in it.
pub record Welcomed (s : Session) (connection : ℕ) (hello : ClientHello) (now : ℕ)
    (r : DispatchResult × Session) : Type 0 where
  pub taken_in : r.0.accepted ≡ true
  pub no_reason : r.0.reason ≡ normal
  pub greeted : messages_to connection r.0.routes ≡ greeting s now ∷ introductions s.peers
  pub announced :
      (k : ℕ)
      → k ≢ connection
      → messages_to k r.0.routes
        ≡ (if contains k s.peers then introduction (arrival s hello) else [])
  pub registered :
      (k : ℕ)
      → find k r.1.peers
        ≡ (if k == connection then some (newcomer s connection hello) else find k s.peers)
  pub numbered : r.1.next_player_id ≡ (s.next_player_id + 1) % 2 ^ 64
  pub clock : r.1.environment_epoch_ms ≡ started s.environment_epoch_ms now
  pub same_config : r.1.config ≡ s.config
  pub same_snapshots : r.1.next_snapshot_ms ≡ s.next_snapshot_ms

messages_to-introduce :
    (connection : ℕ) (info : PeerInfo) (peers : List (ℕ × Peer))
    → All (λ e. e.0 ≢ connection) peers
    → messages_to connection (introduce connection info peers) ≡ introductions peers
unfolding introduce describe
messages_to-introduce connection info [] h = refl
messages_to-introduce connection info ((c, p) ∷ peers) h =
    ground (arith, messages_to-introduce connection info peers h.1)

messages_to-introduce_other :
    (k connection : ℕ) (info : PeerInfo) (peers : List (ℕ × Peer))
    → k ≢ connection
    → UniqueBy (λ e. e.0) peers
    → messages_to k (introduce connection info peers)
      ≡ (if contains k peers then introduction (described info) else [])
unfolding introduce describe contains find
messages_to-introduce_other k connection info [] h u = refl
messages_to-introduce_other k connection info ((c, p) ∷ peers) h u =
    let rest = messages_to-introduce_other k connection info peers h u.1 in
    elim (Bool-cases (c == k)) [
      | inl here ↦
          let same : c ≡ k = (==_iff c k).0 here in
          let gone = find-absent k peers (rw same at u.0) in ground (arith, rest, gone, here)
      | inr other ↦ ground (arith, rest, other)
    ]

admit-Welcomed :
    (s : Session) (connection : ℕ) (hello : ClientHello) (now : ℕ)
    → WellFormed s
    → All (λ e. e.0 ≢ connection) s.peers
    → Welcomed s connection hello now (admit s connection hello now)
unfolding admit find
admit-Welcomed s connection hello now w new =
    let info = (newcomer s connection hello).info in
    record {
      taken_in = refl;
      no_reason = refl;
      greeted = ground (arith, messages_to-introduce connection info s.peers new);
      announced = λ k other.
          ground (arith, messages_to-introduce_other k connection info s.peers other w.keys_unique);
      registered = λ k. ground arith;
      numbered = refl;
      clock = started_lem s.environment_epoch_ms;
      same_config = refl;
      same_snapshots = refl;
    }
  where
    started_lem :
        (epoch : Option ℕ)
        → (elim epoch [ none ↦ some now | some value ↦ some value ]) ≡ started epoch now
    started_lem none = refl
    started_lem (some value) = refl

-- In a well-formed session a client is admitted exactly when it meets every condition of
-- Admissible. Then it is sent the welcome with its number and two messages for each player that is
-- there, each of those is sent two messages for it, nobody else is sent anything, and it is
-- registered. Otherwise it is sent one message, to disconnect for a reason that names a fault it
-- has, and the session is unchanged.
pub accept_lem :
    (s : Session) (connection : ℕ) (hello : ClientHello) (now : ℕ)
    → WellFormed s
    → (Admissible s connection hello
        × Welcomed s connection hello now (accept s connection hello now))
      ⊎ (¬ Admissible s connection hello
          × Refused s connection hello (accept s connection hello now))
accept_lem s connection hello now w = elim (accept_outcome s connection hello now) [
  | inl (a, e) ↦ inl (a, rw e (admit-Welcomed s connection hello now w a.unregistered))
  | inr r ↦ inr (Fault-Admissible s connection hello _ r.faulty, r)
]
