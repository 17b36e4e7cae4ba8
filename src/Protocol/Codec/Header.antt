-- ===== src/Protocol/Codec/Header.antt =====
-- The header: its twelve bytes, and the size that is patched into them.
use ht2mp.Prelude.{
  ℕ, ◌+◌, ◌-◌, ◌%◌, ◌^◌, ◌≤◌, ◌≡◌, refl, some, List, [], ◌∷◌, ◌++◌, length, take, drop, arith,
}
use ht2mp.Prelude.Bits.{low_byte}
use ht2mp.Protocol.Types.{
  MessageType, type_code, protocol_version, packet_header_size, Message, message_type,
}
use ht2mp.Protocol.Ranges.{IsU16, IsU8}
use ht2mp.Protocol.Writer
use ht2mp.Protocol.Writer.{written}
use ht2mp.Protocol.Codec.{
  magic, known_type, write_header, write_payload, write_packet, patch_size, PacketHeader,
  read_header,
}
use ht2mp.Protocol.Wire.Reads.{Reads, Reads-bind, Reads-pure}
use ht2mp.Protocol.Wire.Words.{u8-Reads, u16-Reads, u32-Reads, raw_take, raw_drop}

-- A header that announces a payload of `size` bytes.
abbrev pub sized_header : MessageType → ℕ → List ℕ
sized_header type size = written (
    Writer.u32 magic
    ∷ Writer.u8 protocol_version
    ∷ Writer.u8 (type_code type)
    ∷ Writer.u16 0
    ∷ Writer.u16 size
    ∷ Writer.u16 0
    ∷ [])

pub length-sized_header : (type : MessageType) (size : ℕ) → length (sized_header type size) ≡ 12
unfolding Writer.u32 Writer.u16 Writer.u8
length-sized_header type size = refl

abbrev pub header_of : MessageType → ℕ → PacketHeader
header_of type size = record {
  magic = magic;
  version = protocol_version;
  raw_type = type_code type;
  flags = 0;
  payload_size = size;
  reserved = 0;
}

pub type_code-IsU8 : (type : MessageType) → IsU8 (type_code type)
unfolding type_code
type_code-IsU8 MessageType.client_hello = omega arith
type_code-IsU8 _ = omega arith

-- The cast back from the byte gives the type.
pub known_type-type_code : (type : MessageType) → known_type (type_code type) ≡ some type
unfolding type_code known_type
known_type-type_code MessageType.client_hello = refl
known_type-type_code _ = refl

pub header-Reads :
    (type : MessageType) (size : ℕ)
    → IsU16 size
    → Reads read_header (sized_header type size) (header_of type size)
unfolding read_header
header-Reads type size h = Reads-bind _ (u32-Reads magic (omega arith)) (
    Reads-bind _ (u8-Reads protocol_version (omega arith)) (
      Reads-bind _ (u8-Reads (type_code type) (type_code-IsU8 type)) (
        Reads-bind _ (u16-Reads 0 (omega arith)) (
          Reads-bind _ (u16-Reads size h)
            (Reads-bind _ (u16-Reads 0 (omega arith)) (Reads-pure _))))))

pub length-write_packet : (m : Message) → length (write_packet m) ≡ 12 + length (write_payload m)
unfolding write_packet write_header Writer.u32 Writer.u16 Writer.u8
length-write_packet m = omega arith

-- The patch turns the header into the one with the payload's size.
pub patch_size-write_packet :
    (m : Message)
    → length (write_payload m) ≤ 1188
    → patch_size (write_packet m)
      ≡ sized_header (message_type m) (length (write_payload m)) ++ write_payload m
unfolding patch_size write_packet write_header Writer.u32 Writer.u16 Writer.u8
patch_size-write_packet m h =
    let n = length (write_payload m) in
    let size : (12 + n - packet_header_size) % 2 ^ 16 ≡ n = omega arith in
    ground (arith, size, low_byte n)

pub take-packet :
    (type : MessageType) (size : ℕ) (payload : List ℕ)
    → take packet_header_size (sized_header type size ++ payload) ≡ sized_header type size
unfolding Writer.u32 Writer.u16 Writer.u8
take-packet type size payload = raw_take (sized_header type size) payload

pub drop-packet :
    (type : MessageType) (size : ℕ) (payload : List ℕ)
    → drop packet_header_size (sized_header type size ++ payload) ≡ payload
unfolding Writer.u32 Writer.u16 Writer.u8
drop-packet type size payload = raw_drop (sized_header type size) payload
