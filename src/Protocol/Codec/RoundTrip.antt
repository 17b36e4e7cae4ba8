-- ===== src/Protocol/Codec/RoundTrip.antt =====
-- decode_packet after encode_packet, and the packet limit.
use ht2mp.Prelude.{
  ℕ, ◌+◌, ◌≤◌, ◌≡◌, ◌∙◌, List, [], ◌++◌, length, take, drop, arith, some, length-append, append-nil,
  ==_refl,
}
use ht2mp.Protocol.Float.{Arithmetic}
use ht2mp.Protocol.Types.{Message, MessageType, message_type, packet_header_size, max_packet_size}
use ht2mp.Protocol.Ranges.{Fits}
use ht2mp.Protocol.Validation.{
  valid, validate, validate_hello, validate_welcome, validate_peer, validate_disconnect,
  validate_snapshot, validate_name, validate_profile, default_limits,
}
use ht2mp.Protocol.Codec.{
  encoded, decoded, write_payload, encode_valid, encode_packet, read_header, check_header,
  decode_payload, finish_decode, decode_packet, PacketHeader,
}
use ht2mp.Protocol.Codec.Payload.{WithinLimits, payload-Reads}
use ht2mp.Protocol.Codec.Header.{
  sized_header, length-sized_header, header_of, known_type-type_code, header-Reads,
  patch_size-write_packet, length-write_packet, take-packet, drop-packet,
}
use ht2mp.Protocol.Writer
use ht2mp.Protocol.Wire.Sizes.{sizes, length-state, length-states, length-environment}

module _ (fp : Arithmetic) where
  -- A message that validates keeps to the limits that the reader checks.
  pub validate-WithinLimits : (m : Message) → validate fp m default_limits ≡ valid → WithinLimits m
  unfolding validate validate_hello validate_welcome validate_peer validate_disconnect
      validate_snapshot validate_name validate_profile
  validate-WithinLimits (Message.client_hello m) h = ground arith
  validate-WithinLimits (Message.server_welcome m) h = ground arith
  validate-WithinLimits (Message.peer_joined m) h = ground arith
  validate-WithinLimits (Message.peer_left m) h = tt
  validate-WithinLimits (Message.spawn_metadata m) h = ground arith
  validate-WithinLimits (Message.ping m) h = tt
  validate-WithinLimits (Message.pong m) h = tt
  validate-WithinLimits (Message.disconnect m) h = ground arith
  validate-WithinLimits (Message.player_state m) h = tt
  validate-WithinLimits (Message.world_snapshot m) h = ground arith

-- The largest payload is that of a snapshot of three players: 1188 bytes.
pub payload_bound : (m : Message) → Fits m → WithinLimits m → length (write_payload m) ≤ 1188
unfolding write_payload Writer.token
payload_bound (Message.client_hello m) h l = simp sizes (omega arith)
payload_bound (Message.server_welcome m) h l = simp sizes (omega arith)
payload_bound (Message.peer_joined m) h l = simp sizes (omega arith)
payload_bound (Message.peer_left m) h l = simp sizes (omega arith)
payload_bound (Message.spawn_metadata m) h l = simp sizes (omega arith)
payload_bound (Message.ping m) h l = simp sizes (omega arith)
payload_bound (Message.pong m) h l = simp sizes (omega arith)
payload_bound (Message.disconnect m) h l = simp sizes (omega arith)
payload_bound (Message.player_state s) h l = rw (length-state s h) (omega arith)
payload_bound (Message.world_snapshot m) h l =
    simp (sizes, length-environment, length-states m.players h.players) (omega arith)

-- The packet of a message.
abbrev pub packet_of : Message → List ℕ
packet_of m = sized_header (message_type m) (length (write_payload m)) ++ write_payload m

encode_valid-lem :
    (m : Message) → length (write_payload m) ≤ 1188 → encode_valid m ≡ encoded (packet_of m)
unfolding encode_valid
encode_valid-lem m small = ground (arith, length-write_packet m, patch_size-write_packet m small)

module _ (fp : Arithmetic) where
  -- A message that validates and whose fields fit their C++ types is encoded, and its packet is
  -- packet_of the message and at most 1200 bytes long.
  pub encode_packet_valid :
      (m : Message)
      → Fits m
      → validate fp m default_limits ≡ valid
      → (encode_packet fp m ≡ encoded (packet_of m)) × (length (packet_of m) ≤ max_packet_size)
  unfolding encode_packet
  encode_packet_valid m h v =
      let small = payload_bound m h (validate-WithinLimits fp m v) in
      (
        rw (encode_packet, v) (encode_valid-lem m small),
        omega (
          arith,
          length-append (sized_header (message_type m) (length (write_payload m)))
              (write_payload m),
          length-sized_header (message_type m) (length (write_payload m)),
        ),
      )

  -- A packet that is encoded comes from a message that validates.
  pub encode_packet_inv :
      (m : Message) {bytes : List ℕ}
      → encode_packet fp m ≡ encoded bytes
      → validate fp m default_limits ≡ valid
  unfolding encode_packet
  encode_packet_inv m e = ground arith

  check_header-lem :
      (m : Message)
      → Fits m
      → validate fp m default_limits ≡ valid
      → check_header fp (header_of (message_type m) (length (write_payload m))) (write_payload m)
        ≡ decoded m
  unfolding check_header decode_payload finish_decode
  check_header-lem m h v =
      let parsed = (payload-Reads m h (validate-WithinLimits fp m v)).on [] in
      let whole = append-nil (write_payload m) in
      rw (
        known_type-type_code (message_type m),
        ==_refl (length (write_payload m)),
        rw (whole) at parsed,
        finish_decode,
        v,
      )

  -- A packet of a legal length whose header is read goes on to the tests on the header.
  pub decode_packet_step :
      (packet rest : List ℕ) (header : PacketHeader)
      → packet_header_size ≤ length packet
      → length packet ≤ max_packet_size
      → read_header (take packet_header_size packet) ≡ some (header, rest)
      → decode_packet fp packet ≡ check_header fp header (drop packet_header_size packet)
  unfolding decode_packet
  decode_packet_step packet rest header lo hi e = ground arith

  decode_packet-packet_of :
      (m : Message)
      → Fits m
      → validate fp m default_limits ≡ valid
      → decode_packet fp (packet_of m) ≡ decoded m
  decode_packet-packet_of m h v =
      decode_packet_step (packet_of m) [] (header_of type n) (omega (arith, long, twelve))
        (encode_packet_valid m h v).1 read
      ∙ rw (drop-packet type n (write_payload m)) (check_header-lem m h v)
    where
      type : MessageType
      type = message_type m

      n : ℕ
      n = length (write_payload m)

      long : length (packet_of m) ≡ length (sized_header type n) + n
      long = length-append (sized_header type n) (write_payload m)

      twelve : length (sized_header type n) ≡ 12
      twelve = length-sized_header type n

      small : n ≤ 1188
      small = payload_bound m h (validate-WithinLimits fp m v)

      header : read_header (sized_header type n ++ []) ≡ some (header_of type n, [])
      header = (header-Reads type n (omega (arith, small))).on []

      read : read_header (take packet_header_size (packet_of m)) ≡ some (header_of type n, [])
      read =
          rw (take-packet type n (write_payload m))
            (rw (append-nil (sized_header type n)) at header)

  -- For a message whose fields fit their C++ types and that encode_packet encodes, decode_packet
  -- gives that message back from the packet.
  pub decode_packet-encode_packet :
      (m : Message) (bytes : List ℕ)
      → Fits m
      → encode_packet fp m ≡ encoded bytes
      → decode_packet fp bytes ≡ decoded m
  decode_packet-encode_packet m bytes h e =
      let v = encode_packet_inv m e in
      let same : bytes ≡ packet_of m = cc (e, (encode_packet_valid m h v).0) in
      rw same (decode_packet-packet_of m h v)
