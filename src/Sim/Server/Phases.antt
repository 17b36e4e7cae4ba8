-- ===== src/Sim/Server/Phases.antt =====
-- The state changes with the first welcome, and never again.
use ht2mp.Prelude.{
  ℕ, ◌≡◌, ◌⊎◌, refl, ap, arith, true, false, not, ◌||◌, List, [], ◌∷◌, ◌==◌, bytes_eq,
  bytes_eq_sound, Bool-cases, inl, inr,
}
use ht2mp.Protocol.Float.{Arithmetic}
use ht2mp.Protocol.Types.{Message, ServerWelcome, max_players_limit}
use ht2mp.Protocol.Validation.{ProfileLimits, Validation, valid, invalid, validate}
use ht2mp.Sim.Server.{
  ServerState, ServerResult, accepted, accept_welcome, session_data, accept_valid,
  accept_server_message,
}

-- A welcome that was taken.
pub record Welcomed (w : ServerWelcome) (expected_profile : List ℕ) (before : ServerState)
    (after : ServerResult × ServerState) : Type 0 where
  pub first : before.welcomed ≡ false
  pub same_profile : w.profile_id ≡ expected_profile
  pub same_limit : w.max_players ≡ max_players_limit
  pub same_rate : w.state_hz ≡ 20
  pub result : after.0 ≡ accepted
  pub state :
      after.1 ≡ record { welcomed = true; session_id = w.session_id; player_id = w.player_id }

-- The messages that leave the state, and the first welcome.
abbrev pub Ends : Message → List ℕ → ServerState → ServerResult × ServerState → Type 0
Ends message expected_profile before after =
    (after.1 ≡ before)
    ⊎ ((w : ServerWelcome) × (message ≡ Message.server_welcome w)
        × Welcomed w expected_profile before after)

session_data-state :
    (message : Message) (state : ServerState) → (session_data message state).1 ≡ state
unfolding session_data
session_data-state message state = elim (Bool-cases state.welcomed) [
  | inl w ↦ rw (session_data, w) refl
  | inr n ↦ rw (session_data, n) refl
]

welcome-Ends :
    (w : ServerWelcome) (expected_profile : List ℕ) (state : ServerState)
    → Ends
        (Message.server_welcome w)
        expected_profile
        state
        (accept_welcome w expected_profile state)
unfolding accept_welcome
welcome-Ends w expected_profile state = elim (Bool-cases state.welcomed) [
  | inl again ↦ inl (rw (accept_welcome, again) refl)
  | inr first ↦ elim (Bool-cases (bytes_eq w.profile_id expected_profile)) [
    | inr other ↦ inl (rw (accept_welcome, first, other) refl)
    | inl same ↦
        elim (Bool-cases (not (w.max_players == max_players_limit) || not (w.state_hz == 20))) [
          | inl limits ↦ inl (rw (accept_welcome, first, same, limits) refl)
          | inr fits ↦ inr (
            w,
            refl,
            record {
              first = first;
              same_profile = bytes_eq_sound w.profile_id expected_profile same;
              same_limit = ground (arith, fits);
              same_rate = ground (arith, fits);
              result = rw (accept_welcome, first, same, fits) refl;
              state = rw (accept_welcome, first, same, fits) refl;
            },
          )
        ]
  ]
]

accept_valid-Ends :
    (message : Message) (expected_profile : List ℕ) (state : ServerState)
    → Ends message expected_profile state (accept_valid message expected_profile state)
unfolding accept_valid
accept_valid-Ends (Message.client_hello m) p s = inl refl
accept_valid-Ends (Message.server_welcome m) p s = welcome-Ends m p s
accept_valid-Ends (Message.disconnect m) p s = inl refl
accept_valid-Ends (Message.peer_joined m) p s = inl (session_data-state (Message.peer_joined m) s)
accept_valid-Ends (Message.peer_left m) p s = inl (session_data-state (Message.peer_left m) s)
accept_valid-Ends (Message.spawn_metadata m) p s =
    inl (session_data-state (Message.spawn_metadata m) s)
accept_valid-Ends (Message.ping m) p s = inl (session_data-state (Message.ping m) s)
accept_valid-Ends (Message.pong m) p s = inl (session_data-state (Message.pong m) s)
accept_valid-Ends (Message.player_state m) p s = inl (session_data-state (Message.player_state m) s)
accept_valid-Ends (Message.world_snapshot m) p s =
    inl (session_data-state (Message.world_snapshot m) s)

accept_server_message-Ends :
    (a : Arithmetic) (message : Message) (expected_profile : List ℕ) (limits : ProfileLimits)
    (state : ServerState) (v : Validation)
    → validate a message limits ≡ v
    → Ends message expected_profile state
        (accept_server_message a message expected_profile limits state)
unfolding accept_server_message
accept_server_message-Ends a message p limits s valid e =
    rw (accept_server_message, e) (accept_valid-Ends message p s)
accept_server_message-Ends a message p limits s (invalid code detail) e =
    inl (rw (accept_server_message, e) refl)

unfoldable pub run : Arithmetic → List ℕ → ProfileLimits → ServerState → List Message → ServerState
run a p limits s [] = s
run a p limits s (message ∷ messages) =
    run a p limits (accept_server_message a message p limits s).1 messages

welcomed-stays :
    (a : Arithmetic) (p : List ℕ) (limits : ProfileLimits) (s : ServerState)
    (messages : List Message)
    → s.welcomed ≡ true
    → run a p limits s messages ≡ s
unfolding run
welcomed-stays a p limits s [] h = refl
welcomed-stays a p limits s (message ∷ messages) h =
    elim (accept_server_message-Ends a message p limits s (validate a message limits) refl) [
      | inl same ↦ rw (run, same) (welcomed-stays a p limits s messages h)
      | inr (w, is, taken) ↦ absurd (ground (arith, h, taken.first))
    ]

-- A message either leaves the state as it is, or it is a welcome to one that was not welcomed,
-- with the expected profile, 64 players and 20 states a second; the state is then welcomed with
-- the session and player of the message, and no later messages change it.
pub accept_server_message_lem :
    (a : Arithmetic) (message : Message) (expected_profile : List ℕ) (limits : ProfileLimits)
    (state : ServerState) (later : List Message)
    → let ended = accept_server_message a message expected_profile limits state in
      (ended.1 ≡ state)
      ⊎ ((w : ServerWelcome) × (message ≡ Message.server_welcome w)
          × Welcomed w expected_profile state ended
          × (run a expected_profile limits ended.1 later ≡ ended.1))
accept_server_message_lem a message expected_profile limits state later =
    elim (accept_server_message-Ends a message expected_profile limits state
      (validate a message limits) refl) [
        | inl same ↦ inl same
        | inr (w, is, taken) ↦ inr (
          w,
          is,
          taken,
          welcomed-stays a expected_profile limits _ later (ap (λ s. s.welcomed) taken.state),
        )
      ]
