-- ===== src/Protocol/Codec/Canonical.antt =====
-- encode_packet after decode_packet: the decoder accepts canonical packets only.
use ht2mp.Prelude.{
  ℕ, ◌≤◌, ◌≡◌, refl, sym, ap, ◌∙◌, List, [], ◌∷◌, ◌++◌, length, take, drop, arith, none, some,
  Option, Option-cases, inl, inr, length-append, append-nil, append_assoc, take-append-drop,
  length-take, All-drop,
}
use ht2mp.Protocol.Float.{Arithmetic}
use ht2mp.Protocol.Types.{Message, MessageType, type_code, packet_header_size, protocol_version}
use ht2mp.Protocol.Ranges.{Fits, AreBytes, IsU8}
use ht2mp.Protocol.Validation.{valid, validate, default_limits}
use ht2mp.Protocol.Writer
use ht2mp.Protocol.Writer.{written}
use ht2mp.Protocol.Codec.{
  magic, PacketHeader, known_type, encoded, encode_packet, decoded, write_payload, read_header,
  read_payload, check_header, decode_payload, finish_decode, decode_packet,
}
use ht2mp.Protocol.Wire.Canon.{Canon, Ends-bind, Ends-pure}
use ht2mp.Protocol.Wire.CanonWords.{u8-Canon, u16-Canon, u32-Canon, All-take}
use ht2mp.Protocol.Codec.Payload.{payload-Canon}
use ht2mp.Protocol.Codec.Header.{sized_header}
use ht2mp.Protocol.Codec.RoundTrip.{packet_of, encode_packet_valid}

nil_of_length : (bytes : List ℕ) → length bytes ≡ 0 → bytes ≡ []
nil_of_length [] e = refl
nil_of_length (b ∷ bytes) e = absurd (omega arith)

abbrev header_bytes : PacketHeader → List ℕ
header_bytes h = written (
    Writer.u32 h.magic
    ∷ Writer.u8 h.version
    ∷ Writer.u8 h.raw_type
    ∷ Writer.u16 h.flags
    ∷ Writer.u16 h.payload_size
    ∷ Writer.u16 h.reserved
    ∷ [])

header-Canon : Canon read_header header_bytes (λ h. Unit {0})
unfolding read_header
header-Canon = Ends-bind _ u32-Canon λ m _. Ends-bind _ u8-Canon λ version _.
    Ends-bind _ u8-Canon λ raw_type _. Ends-bind _ u16-Canon λ flags _.
      Ends-bind _ u16-Canon λ payload_size _.
        Ends-bind _ u16-Canon λ reserved _. Ends-pure _ (simp (append_assoc, append-nil)) tt

known_type_inv : (raw : ℕ) (type : MessageType) → known_type raw ≡ some type → raw ≡ type_code type
unfolding known_type type_code
known_type_inv raw MessageType.client_hello e = ground arith
known_type_inv raw _ e = ground arith

-- The header that check_header lets through.
record Passed (h : PacketHeader) (type : MessageType) (size : ℕ) : Type 0 where
  is_magic : h.magic ≡ magic
  is_version : h.version ≡ protocol_version
  is_type : known_type h.raw_type ≡ some type
  no_flags : h.flags ≡ 0
  is_size : h.payload_size ≡ size
  no_reserved : h.reserved ≡ 0

module _ (fp : Arithmetic) where
  finish_decode_inv :
      (o : Option (Message × List ℕ)) (m : Message)
      → finish_decode fp o ≡ decoded m
      → (o ≡ some (m, [])) × (validate fp m default_limits ≡ valid)
  unfolding finish_decode
  finish_decode_inv none m e = cc
  finish_decode_inv (some (m', b ∷ bytes)) m e = cc
  finish_decode_inv (some (m', [])) m e = ground arith

  check_header_inv :
      (h : PacketHeader) (payload : List ℕ) (m : Message)
      → check_header fp h payload ≡ decoded m
      → (type : MessageType) × Passed h type (length payload)
        × (decode_payload fp type payload ≡ decoded m)
  unfolding check_header
  check_header_inv h payload m e = elim (Option-cases (known_type h.raw_type)) [
    | inl no_type ↦ absurd (ground (arith, no_type))
    | inr (type, known) ↦ (type, ground (arith, known), ground (arith, known))
  ]

  -- What decode_packet found in a packet that it accepts.
  Found : List ℕ → Message → Type 0
  Found packet m =
      (h : PacketHeader) × (rest : List ℕ) × (type : MessageType) × (packet_header_size
        ≤ length packet)
      × (read_header (take packet_header_size packet) ≡ some (h, rest))
      × Passed h type (length (drop packet_header_size packet))
      × (read_payload type (drop packet_header_size packet) ≡ some (m, []))
      × (validate fp m default_limits ≡ valid)

  decode_packet_inv :
      (packet : List ℕ) (m : Message) → decode_packet fp packet ≡ decoded m → Found packet m
  unfolding decode_packet decode_payload Found
  decode_packet_inv packet m e =
      elim (Option-cases (read_header (take packet_header_size packet))) [
        | inl no_header ↦ absurd (ground (arith, no_header))
        | inr ((h, rest), read) ↦
            let passed : check_header fp h (drop packet_header_size packet) ≡ decoded m =
              ground (arith, read) in
            let (type, ok, parsed) = check_header_inv h (drop packet_header_size packet) m passed in
            let (payload, v) = finish_decode_inv _ m parsed in
            (h, rest, type, ground (arith, read), read, ok, payload, v)
      ]

  header_bytes_of :
      (h : PacketHeader) (type : MessageType) (size : ℕ)
      → Passed h type size
      → header_bytes h ≡ sized_header type size
  header_bytes_of h type size p = rw (
    p.is_magic,
    p.is_version,
    known_type_inv h.raw_type type p.is_type,
    p.no_flags,
    p.is_size,
    p.no_reserved,
  )

  length-header_bytes : (h : PacketHeader) → length (header_bytes h) ≡ 12
  unfolding Writer.u32 Writer.u16 Writer.u8
  length-header_bytes h = refl

  -- The first twelve bytes of an accepted packet.
  front-of-decoded :
      (packet rest : List ℕ) (h : PacketHeader) (type : MessageType) (size : ℕ)
      → AreBytes packet
      → packet_header_size ≤ length packet
      → read_header (take packet_header_size packet) ≡ some (h, rest)
      → Passed h type size
      → take packet_header_size packet ≡ sized_header type size
  front-of-decoded packet rest h type size bytes long read passed =
      let (eq, _, _) =
        header-Canon.from (take packet_header_size packet) rest h
          (All-take packet_header_size packet bytes) read in
      let none_left : rest ≡ [] = nil_of_length rest (
        omega (
          arith,
          ap length eq,
          length-append (header_bytes h) rest,
          length-header_bytes h,
          length-take packet_header_size packet,
        )) in
      eq
      ∙ ap (◌++◌ (header_bytes h)) none_left
      ∙ append-nil (header_bytes h)
      ∙ header_bytes_of h type size passed

  -- The bytes of an accepted packet are those of its message.
  packet-of-decoded :
      (packet : List ℕ) (m : Message)
      → AreBytes packet
      → Found packet m
      → (packet ≡ packet_of m) × Fits m
  unfolding Found
  packet-of-decoded packet m bytes (h, rest, type, long, read, passed, parsed, v) =
      let payload = drop packet_header_size packet in
      let (eq, (fits, same_type), _) =
        (payload-Canon type).from payload [] m (All-drop IsU8 packet_header_size packet bytes)
          parsed in
      let back : payload ≡ write_payload m = eq ∙ append-nil (write_payload m) in
      let front = front-of-decoded packet rest h type (length payload) bytes long read passed in
      (
        sym (take-append-drop packet_header_size packet)
            ∙ ap (λ (t : List ℕ). t ++ payload) front
            ∙ rw (back, same_type) refl,
        fits,
      )

  -- If decode_packet accepts a packet of bytes, the fields of the message fit their C++ types, and
  -- the packet is exactly what encode_packet writes for the message.
  pub encode_packet-decode_packet :
      (packet : List ℕ) (m : Message)
      → AreBytes packet
      → decode_packet fp packet ≡ decoded m
      → Fits m × (encode_packet fp m ≡ encoded packet)
  unfolding Found
  encode_packet-decode_packet packet m bytes e =
      let found = decode_packet_inv packet m e in
      let (same, fits) = packet-of-decoded packet m bytes found in
      let v = found.7 in (fits, rw same (encode_packet_valid fp m fits v).0)
