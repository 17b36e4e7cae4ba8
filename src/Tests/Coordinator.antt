-- ===== src/Tests/Coordinator.antt =====
-- The coordinator's session at a session of two peers.
use ht2mp.Prelude.{◌≡◌, refl, ◌⊎◌, none, some, inr, List, [], ◌∷◌, arith, if◌then◌else◌, ◌==◌}
use ht2mp.Protocol.Types.{Message, PlayerState}
use ht2mp.Protocol.Replication.{default_environment}
use ht2mp.Protocol.Validation.{default_limits}
use ht2mp.Coordinator.Peers.{find, contains}
use ht2mp.Coordinator.Session.{
  AuthenticationMode, SessionConfig, Peer, Session, make_session, accept, expire, spoofs, is_stale,
  receive, disconnect, tick,
}
use ht2mp.Coordinator.Session.Invariant.{WellFormed}
use ht2mp.Coordinator.Session.Runs.{Call, run, run-make_session-WellFormed}
use ht2mp.Coordinator.Session.Routing.{
  messages_to, Relayable, updated_peer, departure, receive_relays, receive_drops,
  disconnect_notifies,
}
use ht2mp.Coordinator.Session.Admission.{Admissible, Refused}
use ht2mp.Coordinator.Session.Welcome.{Welcomed, accept_lem}
use ht2mp.Coordinator.Session.Snapshots.{tick-tick}
use ht2mp.Tests.Samples.{zero_one, validating, hello, state}

abbrev config : SessionConfig
config = record {
  profile_id = hello.profile_id;
  token = hello.token;
  authentication = AuthenticationMode.token;
  session_id = 9;
  max_players = 4;
  state_hz = 20;
  max_state_updates_per_second = 30;
  stale_state_ms = 3000;
  limits = default_limits;
  environment = default_environment;
}

-- The sender of `state`.
abbrev first : Peer
first = record {
  info = record {
    connection_id = 11;
    player_id = 1;
    incarnation_id = 5;
    vehicle_type = 62;
    paint_variant = 3;
    display_name = 97 ∷ [];
  };
  latest = none;
  latest_received_ms = 0;
  accepted_update_times_ms = [];
}

abbrev second : Peer
second = record {
  info = record {
    connection_id = 12;
    player_id = 2;
    incarnation_id = 6;
    vehicle_type = 62;
    paint_variant = 3;
    display_name = 98 ∷ [];
  };
  latest = some (record state { player_id = 2; incarnation_id = 6; sequence = 0xffff_ffff });
  latest_received_ms = 900;
  accepted_update_times_ms = 900 ∷ [];
}

abbrev playing : Session
playing = record {
  config = config;
  peers = (12, second) ∷ (11, first) ∷ [];
  next_player_id = 3;
  next_snapshot_ms = 950;
  environment_epoch_ms = some 500;
}

playing-WellFormed : WellFormed playing
playing-WellFormed = ground arith

accept_lem_example :
    (Admissible playing 13 hello × Welcomed playing 13 hello 1000 (accept playing 13 hello 1000))
    ⊎ (¬ Admissible playing 13 hello × Refused playing 13 hello (accept playing 13 hello 1000))
accept_lem_example = accept_lem playing 13 hello 1000 playing-WellFormed

abbrev calls : List Call
calls =
    Call.accepts 11 hello 1000
    ∷ Call.receives 11 (Message.player_state state) 1010
    ∷ Call.ticks 1020
    ∷ Call.disconnects 11 5
    ∷ []

run-make_session-WellFormed_example : WellFormed (run zero_one (make_session config) calls)
run-make_session-WellFormed_example =
    run-make_session-WellFormed zero_one config calls (omega arith)

playing_first : find 11 playing.peers ≡ some first
unfolding find
playing_first = refl

state-Relayable : Relayable zero_one playing first state 1000
unfolding validating spoofs expire is_stale
state-Relayable = record {
  well_formed = refl;
  own = ground arith;
  within_rate = omega arith;
  newer = tt;
}

receive_relays_example :
    let (answer, after) = receive zero_one playing 11 (Message.player_state state) 1000 in
    (messages_to 12 answer.routes ≡ (
      if 12 == 11
      then []
      else if contains 12 playing.peers
      then Message.player_state state ∷ []
      else []))
    × (find 12 after.peers
        ≡ (if 12 == 11 then some (updated_peer first state 1000) else find 12 playing.peers))
receive_relays_example =
    receive_relays zero_one playing 11 first state 1000 12 playing-WellFormed playing_first
      state-Relayable

-- A state that claims the other peer's number.
abbrev forged : PlayerState
forged = record state { player_id = 2 }

forged_stopped : ¬ Relayable zero_one playing first forged 1000
forged_stopped r = omega (arith, r.own.player)

receive_drops_example :
    let (answer, after) = receive zero_one playing 11 (Message.player_state forged) 1000 in
    (messages_to 12 answer.routes ≡ []) × (find 12 after.peers ≡ find 12 playing.peers)
receive_drops_example =
    receive_drops zero_one playing 11 first forged 1000 12 playing_first forged_stopped
      (omega arith)

disconnect_notifies_example :
    let (routes, after) = disconnect playing 11 5 in
    (messages_to 12 routes
      ≡ (if 12 == 11 then [] else if contains 12 playing.peers then departure first 5 ∷ [] else []))
    × (find 12 after.peers ≡ (if 12 == 11 then none else find 12 playing.peers))
disconnect_notifies_example =
    disconnect_notifies playing 11 5 12 first playing-WellFormed playing_first

tick-tick_example :
    tick zero_one (tick zero_one playing 1000).1 1049 ≡ ([], (tick zero_one playing 1000).1)
tick-tick_example =
    tick-tick zero_one playing 1000 1049 (inr (omega arith)) (omega arith) (omega arith)
