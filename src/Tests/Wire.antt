-- ===== src/Tests/Wire.antt =====
-- The wire codec at concrete packets.
use ht2mp.Prelude.{◌≤◌, ◌≡◌, length, arith}
use ht2mp.Protocol.Types.{Message, message_type, type_code, max_packet_size}
use ht2mp.Protocol.Writer
use ht2mp.Protocol.Ranges.{Fits, AreBytes}
use ht2mp.Protocol.Codec.{encoded, write_payload, encode_packet, decoded, decode_packet}
use ht2mp.Protocol.Codec.RoundTrip.{packet_of, encode_packet_valid, decode_packet-encode_packet}
use ht2mp.Protocol.Codec.Canonical.{encode_packet-decode_packet}
use ht2mp.Tests.Samples.{
  zero_one, hello, snapshot, hello-Fits, hello_valid, snapshot-Fits, snapshot_valid,
}

encode_packet_valid_example :
    (encode_packet zero_one (Message.world_snapshot snapshot)
      ≡ encoded (packet_of (Message.world_snapshot snapshot)))
    × (length (packet_of (Message.world_snapshot snapshot)) ≤ max_packet_size)
encode_packet_valid_example =
    encode_packet_valid zero_one (Message.world_snapshot snapshot) snapshot-Fits snapshot_valid

decode_packet-encode_packet_example :
    decode_packet zero_one (packet_of (Message.world_snapshot snapshot))
    ≡ decoded (Message.world_snapshot snapshot)
decode_packet-encode_packet_example =
    decode_packet-encode_packet zero_one (Message.world_snapshot snapshot)
      (packet_of (Message.world_snapshot snapshot)) snapshot-Fits encode_packet_valid_example.0

hello_packet_bytes : AreBytes (packet_of (Message.client_hello hello))
unfolding write_payload type_code message_type Writer.u8 Writer.u16 Writer.u32 Writer.u64
    Writer.string8 Writer.token
hello_packet_bytes = omega arith

encode_packet-decode_packet_example :
    Fits (Message.client_hello hello)
    × (encode_packet zero_one (Message.client_hello hello)
        ≡ encoded (packet_of (Message.client_hello hello)))
encode_packet-decode_packet_example =
    encode_packet-decode_packet zero_one (packet_of (Message.client_hello hello))
      (Message.client_hello hello) hello_packet_bytes
      (decode_packet-encode_packet zero_one (Message.client_hello hello)
        (packet_of (Message.client_hello hello)) hello-Fits
        (encode_packet_valid zero_one (Message.client_hello hello) hello-Fits hello_valid).0)
