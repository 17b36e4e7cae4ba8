-- ===== src/Protocol/Codec/Payload.antt =====
-- The payload of each message is read back as it was written, and only as it was written.
use ht2mp.Prelude.{◌≤◌, ◌≡◌, refl, length, le→leb, arith, append_assoc, append-nil}
use ht2mp.Protocol.Types.{
  Message, MessageType, message_type, max_profile_id_bytes, max_display_name_bytes,
  max_disconnect_text_bytes, max_snapshot_players,
}
use ht2mp.Protocol.Ranges.{Fits, StateFits}
use ht2mp.Protocol.Writer
use ht2mp.Protocol.Reader
use ht2mp.Protocol.Codec.{write_payload, read_payload}
use ht2mp.Protocol.Wire.Reads.{Reads, Reads-bind, Reads-pure, Reads-require, Reads-array}
use ht2mp.Protocol.Wire.Words.{u8-Reads, u16-Reads, u64-Reads, token-Reads, string8-Reads}
use ht2mp.Protocol.Wire.Structs.{state-Reads, environment-Reads}
use ht2mp.Protocol.Wire.Canon.{Canon, Ends-bind, Ends-pure, Ends-require}
use ht2mp.Protocol.Wire.CanonWords.{
  u8-Canon, u16-Canon, u64-Canon, token-Canon, string8-Canon, array-Canon,
}
use ht2mp.Protocol.Wire.CanonStructs.{state-Canon, environment-Canon}

-- The limits on a message's variable parts that the reader checks before it validates.
abbrev pub WithinLimits : Message → Type 0
WithinLimits (Message.client_hello m) =
    (length m.profile_id ≤ max_profile_id_bytes) × (length m.display_name ≤ max_display_name_bytes)
WithinLimits (Message.server_welcome m) = length m.profile_id ≤ max_profile_id_bytes
WithinLimits (Message.peer_joined m) = length m.display_name ≤ max_display_name_bytes
WithinLimits (Message.spawn_metadata m) = length m.display_name ≤ max_display_name_bytes
WithinLimits (Message.disconnect m) = length m.detail ≤ max_disconnect_text_bytes
WithinLimits (Message.world_snapshot m) = length m.players ≤ max_snapshot_players
WithinLimits other = Unit {0}

-- Behind the payload may stand anything.
pub payload-Reads :
    (m : Message)
    → Fits m
    → WithinLimits m
    → Reads (read_payload (message_type m)) (write_payload m) m
unfolding read_payload write_payload message_type
payload-Reads (Message.client_hello m) h l = Reads-bind _ (u64-Reads _ h.incarnation_id) (
    Reads-bind _ (token-Reads _ h.token) (
      Reads-bind _ (u16-Reads _ h.vehicle_type) (
        Reads-bind _ (u8-Reads _ h.paint_variant) (
          Reads-bind _ (string8-Reads max_profile_id_bytes m.profile_id l.0 (omega arith)) (
            Reads-bind _ (string8-Reads max_display_name_bytes m.display_name l.1 (omega arith))
              (Reads-pure _))))))
payload-Reads (Message.server_welcome m) h l = Reads-bind _ (u64-Reads _ h.session_id) (
    Reads-bind _ (u64-Reads _ h.player_id) (
      Reads-bind _ (u64-Reads _ h.server_time_ms) (
        Reads-bind _ (u8-Reads _ h.max_players) (
          Reads-bind _ (u8-Reads _ h.state_hz) (
            Reads-bind _ (string8-Reads max_profile_id_bytes m.profile_id l (omega arith))
              (Reads-pure _))))))
payload-Reads (Message.peer_joined m) h l = Reads-bind _ (u64-Reads _ h.player_id) (
    Reads-bind _ (u64-Reads _ h.incarnation_id) (
      Reads-bind _ (u16-Reads _ h.vehicle_type) (
        Reads-bind _ (u8-Reads _ h.paint_variant) (
          Reads-bind _ (string8-Reads max_display_name_bytes m.display_name l (omega arith))
            (Reads-pure _)))))
payload-Reads (Message.peer_left m) h l = Reads-bind _ (u64-Reads _ h.player_id) (
    Reads-bind _ (u64-Reads _ h.incarnation_id) (Reads-bind _ (u8-Reads _ h.reason) (Reads-pure _)))
payload-Reads (Message.spawn_metadata m) h l = Reads-bind _ (u64-Reads _ h.player_id) (
    Reads-bind _ (u64-Reads _ h.incarnation_id) (
      Reads-bind _ (u16-Reads _ h.vehicle_type) (
        Reads-bind _ (u8-Reads _ h.paint_variant) (
          Reads-bind _ (string8-Reads max_display_name_bytes m.display_name l (omega arith))
            (Reads-pure _)))))
payload-Reads (Message.ping m) h l =
    Reads-bind _ (u64-Reads _ h.nonce) (Reads-bind _ (u64-Reads _ h.client_time_ms) (Reads-pure _))
payload-Reads (Message.pong m) h l = Reads-bind _ (u64-Reads _ h.nonce) (
    Reads-bind _ (u64-Reads _ h.client_time_ms)
      (Reads-bind _ (u64-Reads _ h.server_time_ms) (Reads-pure _)))
payload-Reads (Message.disconnect m) h l =
    Reads-bind _ (u8-Reads _ h.reason) (
      Reads-bind _ (string8-Reads max_disconnect_text_bytes m.detail l (omega arith))
        (Reads-pure _))
payload-Reads (Message.player_state s) h l =
    rw (← append-nil (Writer.write_state s)) (Reads-bind _ (state-Reads s h) (Reads-pure _))
payload-Reads (Message.world_snapshot m) h l = Reads-bind _ (u64-Reads _ h.server_time_ms) (
    Reads-bind _ (environment-Reads _ h.environment) (
      Reads-bind _ (u8-Reads _ (omega arith)) (
        Reads-require (le→leb (length m.players) max_snapshot_players l) (
          Reads-bind _
            (Reads-array Writer.write_state Reader.read_state StateFits state-Reads m.players
              h.players)
            (Reads-pure _)))))

-- What a payload of a known type holds, once it is accepted.
abbrev pub IsOf : MessageType → Message → Type 0
IsOf type m = Fits m × (message_type m ≡ type)

pub payload-Canon : (type : MessageType) → Canon (read_payload type) write_payload (IsOf type)
unfolding read_payload write_payload message_type
payload-Canon MessageType.client_hello = Ends-bind _ u64-Canon λ incarnation_id h_incarnation_id.
    Ends-bind _ token-Canon λ token h_token. Ends-bind _ u16-Canon λ vehicle_type h_vehicle_type.
      Ends-bind _ u8-Canon λ paint_variant h_paint_variant.
        Ends-bind _ (string8-Canon max_profile_id_bytes) λ profile_id h_profile_id.
          Ends-bind _ (string8-Canon max_display_name_bytes) λ display_name h_display_name.
            Ends-pure _ (simp (append_assoc, append-nil)) (
              record {
                incarnation_id = h_incarnation_id;
                token = h_token;
                vehicle_type = h_vehicle_type;
                paint_variant = h_paint_variant;
                profile_id = h_profile_id.1;
                display_name = h_display_name.1;
              },
              refl,
            )
payload-Canon MessageType.server_welcome = Ends-bind _ u64-Canon λ session_id h_session_id.
    Ends-bind _ u64-Canon λ player_id h_player_id.
      Ends-bind _ u64-Canon λ server_time_ms h_server_time_ms.
        Ends-bind _ u8-Canon λ max_players h_max_players.
          Ends-bind _ u8-Canon λ state_hz h_state_hz.
            Ends-bind _ (string8-Canon max_profile_id_bytes) λ profile_id h_profile_id.
              Ends-pure _ (simp (append_assoc, append-nil)) (
                record {
                  session_id = h_session_id;
                  player_id = h_player_id;
                  server_time_ms = h_server_time_ms;
                  max_players = h_max_players;
                  state_hz = h_state_hz;
                  profile_id = h_profile_id.1;
                },
                refl,
              )
payload-Canon MessageType.peer_joined = Ends-bind _ u64-Canon λ player_id h_player_id.
    Ends-bind _ u64-Canon λ incarnation_id h_incarnation_id.
      Ends-bind _ u16-Canon λ vehicle_type h_vehicle_type.
        Ends-bind _ u8-Canon λ paint_variant h_paint_variant.
          Ends-bind _ (string8-Canon max_display_name_bytes) λ display_name h_display_name.
            Ends-pure _ (simp (append_assoc, append-nil)) (
              record {
                player_id = h_player_id;
                incarnation_id = h_incarnation_id;
                vehicle_type = h_vehicle_type;
                paint_variant = h_paint_variant;
                display_name = h_display_name.1;
              },
              refl,
            )
payload-Canon MessageType.peer_left = Ends-bind _ u64-Canon λ player_id h_player_id.
    Ends-bind _ u64-Canon λ incarnation_id h_incarnation_id. Ends-bind _ u8-Canon λ reason h_reason.
      Ends-pure _ (simp (append_assoc, append-nil)) (
        record { player_id = h_player_id; incarnation_id = h_incarnation_id; reason = h_reason },
        refl,
      )
payload-Canon MessageType.spawn_metadata = Ends-bind _ u64-Canon λ player_id h_player_id.
    Ends-bind _ u64-Canon λ incarnation_id h_incarnation_id.
      Ends-bind _ u16-Canon λ vehicle_type h_vehicle_type.
        Ends-bind _ u8-Canon λ paint_variant h_paint_variant.
          Ends-bind _ (string8-Canon max_display_name_bytes) λ display_name h_display_name.
            Ends-pure _ (simp (append_assoc, append-nil)) (
              record {
                player_id = h_player_id;
                incarnation_id = h_incarnation_id;
                vehicle_type = h_vehicle_type;
                paint_variant = h_paint_variant;
                display_name = h_display_name.1;
              },
              refl,
            )
payload-Canon MessageType.ping = Ends-bind _ u64-Canon λ nonce h_nonce.
    Ends-bind _ u64-Canon λ client_time_ms h_client_time_ms.
      Ends-pure _ (simp (append_assoc, append-nil))
        (record { nonce = h_nonce; client_time_ms = h_client_time_ms }, refl)
payload-Canon MessageType.pong = Ends-bind _ u64-Canon λ nonce h_nonce.
    Ends-bind _ u64-Canon λ client_time_ms h_client_time_ms.
      Ends-bind _ u64-Canon λ server_time_ms h_server_time_ms.
        Ends-pure _ (simp (append_assoc, append-nil)) (
          record {
            nonce = h_nonce;
            client_time_ms = h_client_time_ms;
            server_time_ms = h_server_time_ms;
          },
          refl,
        )
payload-Canon MessageType.disconnect = Ends-bind _ u8-Canon λ reason h_reason.
    Ends-bind _ (string8-Canon max_disconnect_text_bytes) λ detail h_detail.
      Ends-pure _ (simp (append_assoc, append-nil))
        (record { reason = h_reason; detail = h_detail.1 }, refl)
payload-Canon MessageType.player_state = Ends-bind _ state-Canon λ s h. Ends-pure _ refl (h, refl)
payload-Canon MessageType.world_snapshot = Ends-bind _ u64-Canon λ server_time_ms h_time.
    Ends-bind _ environment-Canon λ environment h_environment. Ends-bind _ u8-Canon λ count h_count.
      Ends-require λ few.
        Ends-bind _ (array-Canon Writer.write_state Reader.read_state StateFits state-Canon count)
          λ players h_players. Ends-pure _ (rw h_players.0 (simp (append_assoc, append-nil))) (
            record { server_time_ms = h_time; environment = h_environment; players = h_players.1 },
            refl,
          )
