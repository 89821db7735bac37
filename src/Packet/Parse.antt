-- ===== src/Packet/Parse.antt =====
-- `RtpPacket::IsRtp`, `RtpPacket::Parse` and the constructor that reads a packet from its bytes, on a
-- little-endian machine. A pointer into the packet is the offset in it; a read out of the packet is
-- a fault.
use bifrost_sdk.Base.{
  ℕ, ◌+◌, ◌*◌, ◌/◌, ◌%◌, Bool, false, ltb, leb, ◌==◌, ◌&&◌, ◌||◌, if◌then◌else◌, Option, none, some,
  ◌>>=◌, List, length, get_elem?, u32_mod, sub32, add64, sub64,
}

abbrev pub header_size : ℕ
header_size = 12

-- The data members that the constructor sets.
pub record ParsedPacket : Type 0 where
  pub bytes : List ℕ
  pub size : ℕ
  pub header_extension : Option ℕ
  pub payload : Option ℕ
  pub payload_length : ℕ
  pub payload_padding : ℕ

-- The bit fields of the first byte.
abbrev pub csrc_count : ℕ → ℕ
csrc_count first = first % 16

abbrev pub extension : ℕ → ℕ
extension first = first / 16 % 2

abbrev pub padding : ℕ → ℕ
padding first = first / 32 % 2

abbrev pub version : ℕ → ℕ
version first = first / 64

-- A `uint32_t` at the offset i, in the order of the machine.
unfoldable pub read_u32 : List ℕ → ℕ → Option ℕ
read_u32 bytes i = get_elem? bytes i >>= λ b0. get_elem? bytes (i + 1) >>= λ b1.
    get_elem? bytes (i + 2) >>= λ b2.
    get_elem? bytes (i + 3) >>= λ b3. some (b0 + 256 * b1 + 65536 * b2 + 16777216 * b3)

-- `IsRtp`. The first byte is read only of a packet that is long enough.
unfoldable pub is_rtp : List ℕ → Option Bool
is_rtp bytes =
    if leb header_size (length bytes)
    then (get_elem? bytes 0 >>= λ first.
        some ((ltb 127 first && ltb first 192) && version first == 2))
    else some false

-- The members before the constructor runs.
abbrev pub unparsed : List ℕ → ParsedPacket
unparsed bytes = record {
  bytes = bytes;
  size = length bytes % u32_mod;
  header_extension = none;
  payload = none;
  payload_length = 0;
  payload_padding = 0;
}

-- The fourth part of the constructor: padding. Each early return keeps what is set so far.
unfoldable pub parse_padding : ParsedPacket → ℕ → Option ParsedPacket
parse_padding q first =
    if padding first == 0
    then some q
    else (if q.payload_length == 0
        then some q
        else (get_elem? q.bytes (sub64 (length q.bytes) 1) >>= λ last.
            if last == 0 || ltb q.payload_length last
            then some (record q { payload_padding = last })
            else some (record q {
              payload_padding = last;
              payload_length = sub32 q.payload_length last;
            })))

-- The third part: the payload is all from the offset on.
unfoldable pub parse_payload : ParsedPacket → ℕ → ℕ → Option ParsedPacket
parse_payload q first ptr =
    parse_padding
      (record q { payload = some ptr; payload_length = sub64 (length q.bytes) ptr % u32_mod }) first

-- The header extension.
unfoldable pub parse_extension : ParsedPacket → ℕ → ℕ → Option ParsedPacket
parse_extension q first ptr =
    if extension first == 1
    then (if ltb (length q.bytes) (add64 ptr 4)
        then some q
        else (read_u32 q.bytes ptr >>= λ extension_value_size.
            let q' = record q { header_extension = some ptr } in
            if ltb (length q.bytes) (add64 (add64 ptr 4) extension_value_size)
            then some q'
            else parse_payload q' first (add64 ptr (add64 4 extension_value_size))))
    else parse_payload q first ptr

-- The constructor of a packet from bytes: the list of contributing sources first.
unfoldable pub construct : List ℕ → Option ParsedPacket
construct bytes = get_elem? bytes 0 >>= λ first.
    if csrc_count first == 0
    then parse_extension (unparsed bytes) first header_size
    else (if ltb (length bytes) (header_size + csrc_count first * 4)
        then some (unparsed bytes)
        else parse_extension (unparsed bytes) first (header_size + csrc_count first * 4))

-- `Parse`: none inside is the null pointer.
unfoldable pub parse : List ℕ → Option (Option ParsedPacket)
parse bytes =
    is_rtp bytes >>= λ ok. if ok then (construct bytes >>= λ q. some (some q)) else some none
