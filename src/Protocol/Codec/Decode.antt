-- ===== src/Protocol/Codec/Decode.antt =====
-- decode_packet of src/protocol/codec.cpp.
use ht2mp.Prelude.{
  ℕ, not, ◌||◌, Option, none, some, List, [], ◌∷◌, ltb, leb, ◌==◌, if◌then◌else◌, length, take,
  drop,
}
use ht2mp.Prelude.Text.{text}
use ht2mp.Protocol.Float.{Arithmetic}
use ht2mp.Protocol.Validation.{valid, invalid, validate, default_limits}
use ht2mp.Protocol.Types.{
  Message, MessageType, protocol_version, packet_header_size, max_packet_size, max_profile_id_bytes,
  max_display_name_bytes, max_disconnect_text_bytes, max_snapshot_players,
}
use ht2mp.Protocol.Reader
use ht2mp.Protocol.Reader.{Reader, ◌>>=◌, ◌>>◌, pure, require}
use ht2mp.Protocol.Codec.Encode.{
  magic, DecodeResult, known_type, invalid_value, too_short, too_large, bad_magic,
  unsupported_version, unknown_message, invalid_header, truncated, trailing_data, invalid_value,
  decoded, not_decoded,
}

-- The switch over the message types.
unfoldable pub read_payload : MessageType → Reader Message
read_payload MessageType.client_hello = do
  incarnation_id ← Reader.u64
  token ← Reader.token
  vehicle_type ← Reader.u16
  paint_variant ← Reader.u8
  profile_id ← Reader.string8 max_profile_id_bytes
  display_name ← Reader.string8 max_display_name_bytes
  pure (
      Message.client_hello (record {
        profile_id = profile_id;
        token = token;
        display_name = display_name;
        incarnation_id = incarnation_id;
        vehicle_type = vehicle_type;
        paint_variant = paint_variant;
      }))
read_payload MessageType.server_welcome = do
  session_id ← Reader.u64
  player_id ← Reader.u64
  server_time_ms ← Reader.u64
  max_players ← Reader.u8
  state_hz ← Reader.u8
  profile_id ← Reader.string8 max_profile_id_bytes
  pure (
      Message.server_welcome (record {
        profile_id = profile_id;
        session_id = session_id;
        player_id = player_id;
        server_time_ms = server_time_ms;
        max_players = max_players;
        state_hz = state_hz;
      }))
read_payload MessageType.peer_joined = do
  player_id ← Reader.u64
  incarnation_id ← Reader.u64
  vehicle_type ← Reader.u16
  paint_variant ← Reader.u8
  display_name ← Reader.string8 max_display_name_bytes
  pure (
      Message.peer_joined (record {
        player_id = player_id;
        incarnation_id = incarnation_id;
        vehicle_type = vehicle_type;
        display_name = display_name;
        paint_variant = paint_variant;
      }))
read_payload MessageType.peer_left = do
  player_id ← Reader.u64
  incarnation_id ← Reader.u64
  reason ← Reader.u8
  pure (
      Message.peer_left
        (record { player_id = player_id; incarnation_id = incarnation_id; reason = reason }))
read_payload MessageType.spawn_metadata = do
  player_id ← Reader.u64
  incarnation_id ← Reader.u64
  vehicle_type ← Reader.u16
  paint_variant ← Reader.u8
  display_name ← Reader.string8 max_display_name_bytes
  pure (
      Message.spawn_metadata (record {
        player_id = player_id;
        incarnation_id = incarnation_id;
        vehicle_type = vehicle_type;
        display_name = display_name;
        paint_variant = paint_variant;
      }))
read_payload MessageType.ping = do
  nonce ← Reader.u64
  client_time_ms ← Reader.u64
  pure (Message.ping (record { nonce = nonce; client_time_ms = client_time_ms }))
read_payload MessageType.pong = do
  nonce ← Reader.u64
  client_time_ms ← Reader.u64
  server_time_ms ← Reader.u64
  pure (
      Message.pong (record {
        nonce = nonce;
        client_time_ms = client_time_ms;
        server_time_ms = server_time_ms;
      }))
read_payload MessageType.disconnect = do
  reason ← Reader.u8
  detail ← Reader.string8 max_disconnect_text_bytes
  pure (Message.disconnect (record { reason = reason; detail = detail }))
read_payload MessageType.player_state = do
  state ← Reader.read_state
  pure (Message.player_state state)
read_payload MessageType.world_snapshot = do
  server_time_ms ← Reader.u64
  environment ← Reader.read_environment
  count ← Reader.u8
  require (leb count max_snapshot_players)
  players ← Reader.array count Reader.read_state
  pure (
      Message.world_snapshot
        (record { server_time_ms = server_time_ms; players = players; environment = environment }))

pub record PacketHeader : Type 0 where
  pub magic : ℕ
  pub version : ℕ
  pub raw_type : ℕ
  pub flags : ℕ
  pub payload_size : ℕ
  pub reserved : ℕ

unfoldable pub read_header : Reader PacketHeader
read_header = do
  magic ← Reader.u32
  version ← Reader.u8
  raw_type ← Reader.u8
  flags ← Reader.u16
  payload_size ← Reader.u16
  reserved ← Reader.u16
  pure (record {
    magic = magic;
    version = version;
    raw_type = raw_type;
    flags = flags;
    payload_size = payload_size;
    reserved = reserved;
  })

module _ (fp : Arithmetic) where
  -- What decode_packet does with a parsed payload and the bytes that are left.
  unfoldable pub finish_decode : Option (Message × List ℕ) → DecodeResult
  finish_decode none =
      not_decoded truncated (text "message payload is truncated or has an invalid length")
  finish_decode (some (message, b ∷ bytes)) =
      not_decoded trailing_data (text "message payload contains trailing data")
  finish_decode (some (message, [])) = elim (validate fp message default_limits) [
    | invalid code detail ↦ not_decoded invalid_value detail
    | valid ↦ decoded message
  ]

  unfoldable pub decode_payload : MessageType → List ℕ → DecodeResult
  decode_payload type bytes = finish_decode (read_payload type bytes)

  unfoldable pub check_header : PacketHeader → List ℕ → DecodeResult
  check_header h payload =
      if not (h.magic == magic)
      then not_decoded bad_magic (text "invalid packet magic")
      else if not (h.version == protocol_version)
      then not_decoded unsupported_version (text "unsupported protocol version")
      else elim (known_type h.raw_type) [
        | none ↦ not_decoded unknown_message (text "unknown message type")
        | some type ↦
            if not (h.flags == 0) || not (h.reserved == 0)
            then not_decoded invalid_header (text "reserved header bits are non-zero")
            else if not (h.payload_size == length payload)
            then (not_decoded
                (if ltb (length payload) h.payload_size then truncated else trailing_data)
                (text "payload length does not match packet length"))
            else decode_payload type payload
      ]

  unfoldable pub decode_packet : List ℕ → DecodeResult
  decode_packet packet =
      if ltb (length packet) packet_header_size
      then not_decoded too_short (text "packet is shorter than the HT2MP/6 header")
      else if ltb max_packet_size (length packet)
      then not_decoded too_large (text "packet exceeds the HT2MP/6 limit")
      else elim (read_header (take packet_header_size packet)) [
        | none ↦ not_decoded too_short (text "truncated header")
        | some (h, rest) ↦ check_header h (drop packet_header_size packet)
      ]
