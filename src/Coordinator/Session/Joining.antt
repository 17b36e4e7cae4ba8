-- ===== src/Coordinator/Session/Joining.antt =====
-- Session::accept and Session::rejected of apps/coordinator/session.cpp.
use ht2mp.Prelude.{
  ℕ, ◌+◌, ◌%◌, ◌^◌, Bool, true, false, not, ◌||◌, none, some, List, [], ◌∷◌, ◌++◌, leb, ◌==◌,
  if◌then◌else◌, length, any, bytes_eq,
}
use ht2mp.Prelude.Text.{text, to_string}
use ht2mp.Protocol.Types.{
  Message, ClientHello, PeerDescription, DisconnectReason, normal, protocol_error, profile_mismatch,
  token_mismatch, session_full, duplicate_name,
}
use ht2mp.Protocol.Validation.{valid, invalid, validate_hello}
use ht2mp.Coordinator.Peers.{contains}
use ht2mp.Coordinator.Session.State.{
  AuthenticationMode, SessionConfig, Route, DispatchResult, PeerInfo, Peer, Session,
}

unfoldable pub describe : PeerInfo → PeerDescription
describe info = record {
  player_id = info.player_id;
  incarnation_id = info.incarnation_id;
  vehicle_type = info.vehicle_type;
  display_name = info.display_name;
  paint_variant = info.paint_variant;
}

abbrev pub joined : PeerInfo → Message
joined info = Message.peer_joined (describe info)

abbrev pub spawn : PeerInfo → Message
spawn info = Message.spawn_metadata (describe info)

abbrev pub route : ℕ → Message → Route
route target message = record { target = target; message = message }

abbrev pub accepted_with : List Route → DispatchResult
accepted_with routes = record { accepted = true; reason = normal; detail = []; routes = routes }

unfoldable pub rejected : ℕ → DisconnectReason → List ℕ → DispatchResult
rejected connection reason detail = record {
  accepted = false;
  reason = reason;
  detail = detail;
  routes = route connection (Message.disconnect (record { reason = reason; detail = detail })) ∷ [];
}

-- The loop of accept over the peers that are there already.
unfoldable pub introduce : ℕ → PeerInfo → List (ℕ × Peer) → List Route
introduce connection info [] = []
introduce connection info ((existing_connection, existing) ∷ peers) =
    route connection (joined existing.info)
    ∷ route connection (spawn existing.info)
    ∷ route existing_connection (joined info)
    ∷ route existing_connection (spawn info)
    ∷ introduce connection info peers

unfoldable pub token_refused : SessionConfig → ClientHello → Bool
token_refused c hello = elim c.authentication [
  | AuthenticationMode.token ↦ not (bytes_eq hello.token c.token)
  | AuthenticationMode.public_access ↦ false
]

-- The admission of a client that passed every test.
unfoldable pub admit : Session → ℕ → ClientHello → ℕ → DispatchResult × Session
admit s connection hello now =
    let info : PeerInfo = record {
      connection_id = connection;
      player_id = s.next_player_id;
      incarnation_id = hello.incarnation_id;
      vehicle_type = hello.vehicle_type;
      paint_variant = hello.paint_variant;
      display_name = hello.display_name;
    } in
    let welcome = Message.server_welcome (record {
      profile_id = s.config.profile_id;
      session_id = s.config.session_id;
      player_id = info.player_id;
      server_time_ms = now;
      max_players = s.config.max_players;
      state_hz = s.config.state_hz;
    }) in
    let peer : Peer = record {
      info = info;
      latest = none;
      latest_received_ms = 0;
      accepted_update_times_ms = [];
    } in
    (
      accepted_with (route connection welcome ∷ introduce connection info s.peers),
      record s {
        peers = (connection, peer) ∷ s.peers;
        next_player_id = (s.next_player_id + 1) % 2 ^ 64;
        environment_epoch_ms = elim s.environment_epoch_ms [
          | none ↦ some now
          | some epoch ↦ some epoch
        ];
      },
    )

unfoldable pub accept : Session → ℕ → ClientHello → ℕ → DispatchResult × Session
accept s connection hello now =
    if connection == 0 || contains connection s.peers
    then (rejected connection protocol_error (text "connection is already registered"), s)
    else elim (validate_hello hello s.config.limits) [
      | invalid code detail ↦ (rejected connection protocol_error detail, s)
      | valid ↦
          if not (bytes_eq hello.profile_id s.config.profile_id)
          then (
            rejected connection profile_mismatch (text "game profile does not match session"),
            s,
          )
          else if token_refused s.config hello
          then (rejected connection token_mismatch (text "session token does not match"), s)
          else if leb s.config.max_players (length s.peers)
          then (
            rejected connection session_full
                (text "session already has " ++ to_string s.config.max_players ++ text " players"),
            s,
          )
          else if any (λ e. bytes_eq e.1.info.display_name hello.display_name) s.peers
          then (rejected connection duplicate_name (text "display name is already in use"), s)
          else admit s connection hello now
    ]
