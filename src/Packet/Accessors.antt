-- ===== src/Packet/Accessors.antt =====
-- The accessors of a packet that was parsed: the fields as the machine's order gives them.
use bifrost_sdk.Base.{
  ℕ, ◌+◌, ◌*◌, ◌%◌, ◌≤◌, ◌<◌, ◌≡◌, Option, some, ◌>>=◌, List, length, get_elem?, All, Returns,
  u16_mod, u32_mod, arith,
}
use bifrost_sdk.Packet.{RtpPacket}
use bifrost_sdk.Packet.Parse.{header_size, ParsedPacket, read_u32}
use bifrost_sdk.Packet.Layout.{IsByte, get_elem?-IsByte, read_u32_lem}

-- A `uint16_t` at the offset i.
unfoldable pub read_u16 : List ℕ → ℕ → Option ℕ
read_u16 bytes i =
    get_elem? bytes i >>= λ b0. get_elem? bytes (i + 1) >>= λ b1. some (b0 + 256 * b1)

-- `GetPayloadType`, `GetSequenceNumber`, `GetTimestamp`, `GetSsrc` and `GetSize`.
unfoldable pub fields : ParsedPacket → Option RtpPacket
fields q = get_elem? q.bytes 1 >>= λ second. read_u16 q.bytes 2 >>= λ sequence_number.
    read_u32 q.bytes 4 >>= λ timestamp. read_u32 q.bytes 8 >>= λ ssrc. some record {
      payload_type = second % 128;
      sequence_number = sequence_number;
      timestamp = timestamp;
      ssrc = ssrc;
      size = q.size;
    }

read_u16_lem :
    (bytes : List ℕ) (i : ℕ)
    → All IsByte bytes
    → i + 2 ≤ length bytes
    → Returns (read_u16 bytes i) (λ n. n < u16_mod)
unfolding read_u16 IsByte
read_u16_lem bytes i a h =
    ground (arith, get_elem?-IsByte bytes i a, get_elem?-IsByte bytes (i + 1) a)

-- The accessors of a packet of at least 12 bytes read nothing out of them, and give numbers within
-- the widths of their fields, as the streams rely on.
pub fields_lem :
    (q : ParsedPacket)
    → All IsByte q.bytes
    → header_size ≤ length q.bytes
    → Returns (fields q) (λ p.
      (p.payload_type < 128)
      × (p.sequence_number < u16_mod)
      × (p.timestamp < u32_mod)
      × (p.ssrc < u32_mod)
      × (p.size ≡ q.size))
unfolding fields
fields_lem q a h = ground (
  arith,
  get_elem?-IsByte q.bytes 1 a,
  read_u16_lem q.bytes 2 a,
  read_u32_lem q.bytes 4 a,
  read_u32_lem q.bytes 8 a,
)
