-- ===== src/Protocol/Codec/Encode.antt =====
-- encode_packet of src/protocol/codec.cpp, and what the codec knows of a message type.
use Prim.Native.Nat.{bit_and}
use ht2mp.Prelude.{
  ℕ, ◌-◌, ◌/◌, ◌%◌, ◌^◌, Bool, ◌||◌, Option, none, some, List, [], ◌∷◌, ◌++◌, ltb, ◌==◌,
  if◌then◌else◌, length, set,
}
use ht2mp.Prelude.Text.{text}
use ht2mp.Protocol.Float.{Arithmetic}
use ht2mp.Protocol.Validation.{valid, invalid, validate, default_limits}
use ht2mp.Protocol.Types.{
  Message, MessageType, type_code, message_type, protocol_version, packet_header_size,
  max_packet_size, reliable_channel, state_channel,
}
use ht2mp.Protocol.Writer
use ht2mp.Protocol.Writer.{written}

-- "H2MP" on the wire.
abbrev pub magic : ℕ
magic = 0x504d_3248

pub data EncodeError : Type 0 where
  invalid_value packet_too_large : EncodeError

pub data EncodeResult : Type 0 where
  encoded : List ℕ → EncodeResult
  not_encoded : EncodeError → List ℕ → EncodeResult

pub data DecodeError : Type 0 where
  too_short too_large bad_magic unsupported_version unknown_message invalid_header : DecodeError
  truncated trailing_data invalid_value : DecodeError

pub data DecodeResult : Type 0 where
  decoded : Message → DecodeResult
  not_decoded : DecodeError → List ℕ → DecodeResult

unfoldable pub channel_for : MessageType → ℕ
channel_for MessageType.player_state = state_channel
channel_for MessageType.world_snapshot = state_channel
channel_for other = reliable_channel

unfoldable pub is_reliable : MessageType → Bool
is_reliable type = channel_for type == reliable_channel

-- The cast of the header's byte to a MessageType, where known_type accepts it.
unfoldable pub known_type : ℕ → Option MessageType
known_type type =
    if type == 1
    then some MessageType.client_hello
    else if type == 2
    then some MessageType.server_welcome
    else if type == 3
    then some MessageType.peer_joined
    else if type == 4
    then some MessageType.peer_left
    else if type == 5
    then some MessageType.spawn_metadata
    else if type == 6
    then some MessageType.ping
    else if type == 7
    then some MessageType.pong
    else if type == 8
    then some MessageType.disconnect
    else if type == 32
    then some MessageType.player_state
    else if type == 33
    then some MessageType.world_snapshot
    else none

-- The visitor that writes the payload.
unfoldable pub write_payload : Message → List ℕ
write_payload (Message.client_hello m) = written (
    Writer.u64 m.incarnation_id
    ∷ Writer.token m.token
    ∷ Writer.u16 m.vehicle_type
    ∷ Writer.u8 m.paint_variant
    ∷ Writer.string8 m.profile_id
    ∷ Writer.string8 m.display_name
    ∷ [])
write_payload (Message.server_welcome m) = written (
    Writer.u64 m.session_id
    ∷ Writer.u64 m.player_id
    ∷ Writer.u64 m.server_time_ms
    ∷ Writer.u8 m.max_players
    ∷ Writer.u8 m.state_hz
    ∷ Writer.string8 m.profile_id
    ∷ [])
write_payload (Message.peer_joined m) = written (
    Writer.u64 m.player_id
    ∷ Writer.u64 m.incarnation_id
    ∷ Writer.u16 m.vehicle_type
    ∷ Writer.u8 m.paint_variant
    ∷ Writer.string8 m.display_name
    ∷ [])
write_payload (Message.peer_left m) =
    written (Writer.u64 m.player_id ∷ Writer.u64 m.incarnation_id ∷ Writer.u8 m.reason ∷ [])
write_payload (Message.spawn_metadata m) = written (
    Writer.u64 m.player_id
    ∷ Writer.u64 m.incarnation_id
    ∷ Writer.u16 m.vehicle_type
    ∷ Writer.u8 m.paint_variant
    ∷ Writer.string8 m.display_name
    ∷ [])
write_payload (Message.ping m) = written (Writer.u64 m.nonce ∷ Writer.u64 m.client_time_ms ∷ [])
write_payload (Message.pong m) =
    written (Writer.u64 m.nonce ∷ Writer.u64 m.client_time_ms ∷ Writer.u64 m.server_time_ms ∷ [])
write_payload (Message.disconnect m) = written (Writer.u8 m.reason ∷ Writer.string8 m.detail ∷ [])
write_payload (Message.player_state s) = Writer.write_state s
write_payload (Message.world_snapshot m) = written (
    Writer.u64 m.server_time_ms
    ∷ Writer.write_environment m.environment
    ∷ Writer.u8 (length m.players)
    ∷ Writer.array Writer.write_state m.players
    ∷ [])

-- The header with a payload size of 0, which is patched once the payload is there.
unfoldable pub write_header : MessageType → List ℕ
write_header type = written (
    Writer.u32 magic
    ∷ Writer.u8 protocol_version
    ∷ Writer.u8 (type_code type)
    ∷ Writer.u16 0
    ∷ Writer.u16 0
    ∷ Writer.u16 0
    ∷ [])

unfoldable pub patch_size : List ℕ → List ℕ
patch_size bytes =
    let payload_size = (length bytes - packet_header_size) % 2 ^ 16 in
    set (set bytes 8 (bit_and payload_size 0xff)) 9 (payload_size / 2 ^ 8)

unfoldable pub write_packet : Message → List ℕ
write_packet message = write_header (message_type message) ++ write_payload message

-- What encode_packet does after a validation.
unfoldable pub encode_valid : Message → EncodeResult
encode_valid message =
    let bytes = write_packet message in
    if ltb max_packet_size (length bytes) || ltb (2 ^ 16 - 1) (length bytes - packet_header_size)
    then not_encoded packet_too_large (text "encoded packet exceeds HT2MP/6 limit")
    else encoded (patch_size bytes)

module _ (fp : Arithmetic) where
  unfoldable pub encode_packet : Message → EncodeResult
  encode_packet message = elim (validate fp message default_limits) [
    | invalid code detail ↦ not_encoded invalid_value detail
    | valid ↦ encode_valid message
  ]
