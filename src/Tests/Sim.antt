-- ===== src/Tests/Sim.antt =====
-- A first welcome, and a snapshot after it.
use ht2mp.Prelude.{ℕ, ◌≡◌, ◌⊎◌, refl, bytes_eq_refl, false, List, [], ◌∷◌}
use ht2mp.Protocol.Types.{Message, ServerWelcome}
use ht2mp.Protocol.Validation.{default_limits}
use ht2mp.Sim.Server.{ServerState, accepted, accept_welcome, accept_server_message}
use ht2mp.Sim.Server.Phases.{Welcomed, run, accept_server_message_lem}
use ht2mp.Tests.Samples.{zero_one, state}

abbrev profile : List ℕ
profile = 115 ∷ 45 ∷ 56 ∷ []

abbrev newcomer : ServerState
newcomer = record { welcomed = false; session_id = 0; player_id = 0 }

abbrev welcome : ServerWelcome
welcome = record {
  profile_id = profile;
  session_id = 9;
  player_id = 2;
  server_time_ms = 5000;
  max_players = 64;
  state_hz = 20;
}

abbrev later : List Message
later = Message.player_state state ∷ Message.server_welcome welcome ∷ []

accept_server_message_lem_example :
    let ended =
      accept_server_message zero_one
        (Message.server_welcome welcome)
        profile
        default_limits
        newcomer in
    (ended.1 ≡ newcomer)
    ⊎ ((w : ServerWelcome) × (Message.server_welcome welcome ≡ Message.server_welcome w)
        × Welcomed w profile newcomer ended
        × (run zero_one profile default_limits ended.1 later ≡ ended.1))
accept_server_message_lem_example =
    accept_server_message_lem zero_one (Message.server_welcome welcome) profile default_limits
      newcomer later

first_taken : (accept_welcome welcome profile newcomer).0 ≡ accepted
unfolding accept_welcome
first_taken = rw (bytes_eq_refl profile) refl
