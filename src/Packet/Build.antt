-- ===== src/Packet/Build.antt =====
-- A packet that is put together in place: the constructor from a header, `CopyPayload` and the
-- setters. The packet has the members of one that was parsed, with its block of memory for the bytes; the
-- contents of a new block are an argument. A write out of the block is a fault.
use bifrost_sdk.Base.{
  ℕ, zero, suc, ◌+◌, ◌*◌, ◌/◌, ◌%◌, Option, none, some, ◌>>=◌, List, [], ◌∷◌, length, take,
  get_elem?, replicate, u32_mod, add64,
}
use bifrost_sdk.Packet.Parse.{header_size, ParsedPacket}

-- The size of the block.
abbrev pub block_size : ℕ
block_size = 1400

-- `memcpy` of bytes to an offset in a block.
unfoldable pub write_bytes : List ℕ → ℕ → List ℕ → Option (List ℕ)
write_bytes block i [] = some block
write_bytes [] i (b ∷ bytes) = none
write_bytes (x ∷ block) zero (b ∷ bytes) = write_bytes block zero bytes >>= λ rest. some (b ∷ rest)
write_bytes (x ∷ block) (suc i) (b ∷ bytes) =
    write_bytes block i (b ∷ bytes) >>= λ rest. some (x ∷ rest)

-- The constructor, from a header of zeros.
unfoldable pub new_rtp_packet : List ℕ → Option ParsedPacket
new_rtp_packet block = write_bytes block 0 (replicate header_size 0) >>= λ bytes. some record {
  bytes = bytes;
  size = 0;
  header_extension = none;
  payload = none;
  payload_length = 0;
  payload_padding = 0;
}

-- `CopyPayload`. Nothing compares the length with the block.
unfoldable pub copy_payload : ParsedPacket → List ℕ → Option ParsedPacket
copy_payload q payload = write_bytes q.bytes header_size payload >>= λ bytes.
    some
      (record q { bytes = bytes; size = (q.size + add64 header_size (length payload)) % u32_mod })

abbrev write_field : ParsedPacket → ℕ → List ℕ → Option ParsedPacket
write_field q i field = write_bytes q.bytes i field >>= λ bytes. some (record q { bytes = bytes })

-- `SetVersion` and `SetPayloadType`, bit fields of a byte.
unfoldable pub set_version : ParsedPacket → ℕ → Option ParsedPacket
set_version q version =
    get_elem? q.bytes 0 >>= λ first. write_field q 0 ((first % 64 + version % 4 * 64) ∷ [])

unfoldable pub set_payload_type : ParsedPacket → ℕ → Option ParsedPacket
set_payload_type q payload_type = get_elem? q.bytes 1 >>= λ second.
    write_field q 1 ((second / 128 * 128 + payload_type % 128) ∷ [])

-- The bytes of a number in the order of the machine.
abbrev pub bytes_of_u16 : ℕ → List ℕ
bytes_of_u16 n = (n % 256) ∷ (n / 256 % 256) ∷ []

abbrev pub bytes_of_u32 : ℕ → List ℕ
bytes_of_u32 n = (n % 256) ∷ (n / 256 % 256) ∷ (n / 65536 % 256) ∷ (n / 16777216 % 256) ∷ []

unfoldable pub set_sequence_number : ParsedPacket → ℕ → Option ParsedPacket
set_sequence_number q seq = write_field q 2 (bytes_of_u16 seq)

unfoldable pub set_timestamp : ParsedPacket → ℕ → Option ParsedPacket
set_timestamp q timestamp = write_field q 4 (bytes_of_u32 timestamp)

unfoldable pub set_ssrc : ParsedPacket → ℕ → Option ParsedPacket
set_ssrc q ssrc = write_field q 8 (bytes_of_u32 ssrc)

-- `GetData` and `GetSize`: what is sent.
abbrev pub sent_bytes : ParsedPacket → List ℕ
sent_bytes q = take q.size q.bytes
