-- ===== src/Protocol/Codec.antt =====
-- encode_packet and decode_packet of src/protocol/codec.cpp.
pub mod Encode
pub mod Decode
pub mod Payload
pub mod Header
pub mod RoundTrip
pub mod Canonical
pub use ht2mp.Protocol.Codec.Encode.{
  magic, EncodeError, EncodeResult, DecodeError, DecodeResult, invalid_value, packet_too_large,
  encoded, not_encoded, too_short, too_large, bad_magic, unsupported_version, unknown_message,
  invalid_header, truncated, trailing_data, invalid_value, decoded, not_decoded,
}
unfoldable pub use ht2mp.Protocol.Codec.Encode.{
  channel_for, is_reliable, known_type, write_payload, write_header, patch_size, write_packet,
  encode_valid, encode_packet,
}
pub use ht2mp.Protocol.Codec.Decode.{PacketHeader}
unfoldable pub use ht2mp.Protocol.Codec.Decode.{
  read_payload, read_header, finish_decode, decode_payload, check_header, decode_packet,
}
