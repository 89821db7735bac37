-- ===== src/Heartbeat/RoundTrip.antt =====
-- What of a heartbeat packet arrives.
use bifrost_sdk.Base.{
  ap, ◌∙◌, ◌++◌, ◌∷◌, ◌+◌, ◌*◌, ◌%◌, ◌/◌, ℕ, ◌<◌, ◌≡◌, true, false, some, List, [], u32_mod,
  u64_mod, arith,
}
use bifrost_sdk.Wire.{get_2_bytes, get_4_bytes, get_8_bytes, set_2_bytes, set_4_bytes, set_8_bytes}
use bifrost_sdk.Receiver.Report.{ℤ, pos}
use bifrost_sdk.Heartbeat.{
  HeartbeatType, req, Network, udp, Protocol, ipv4, HeartbeatPacket, packet_size, magic_cookie,
  flags, create, new_heartbeat_packet, set_time, get_packet, is_heartbeat_packet, read_heartbeat,
  parse,
}

-- The second byte is 1, whatever the packet is.
flags_lem : (p : HeartbeatPacket) → flags p ≡ 1
unfolding flags
flags_lem p = ground arith

number_lem :
    (v : ℕ)
    → v < u32_mod
    → v % 256 + v / 256 % 256 * 256 + v / 65536 % 256 * 65536 + v / 16777216 % 256 * 16777216 ≡ v
number_lem v h = omega arith

time_lem :
    (v : ℕ)
    → v < u64_mod
    → (v / u32_mod % 256
            + v / u32_mod / 256 % 256 * 256
            + v / u32_mod / 65536 % 256 * 65536
            + v / u32_mod / 16777216 % 256 * 16777216)
          * u32_mod
        + (v % 256 + v / 256 % 256 * 256 + v / 65536 % 256 * 65536 + v / 16777216 % 256 * 16777216)
      ≡ v
time_lem v h = omega arith

-- The bytes that are sent.
abbrev bytes_of : ℕ → ℕ → ℕ → List ℕ
bytes_of second ssrc time =
    (0 ∷ second ∷ [])
    ++ (set_2_bytes packet_size ++ (magic_cookie ++ (set_4_bytes ssrc ++ set_8_bytes time)))

parse-bytes_of :
    (ssrc time : ℕ)
    → ssrc < u32_mod
    → time < u64_mod
    → parse (bytes_of 1 ssrc time)
      ≡ some (some (new_heartbeat_packet (pos 0) ssrc time req udp ipv4 false))
unfolding parse is_heartbeat_packet read_heartbeat get_2_bytes get_4_bytes get_8_bytes
parse-bytes_of ssrc time h k =
    let n = number_lem ssrc h in
    rw n (
      ap (λ t. some (some (new_heartbeat_packet (pos 0) ssrc t req udp ipv4 false)))
        (time_lem time k))

-- A persistent packet, sent after its time is set anew, is parsed without a fault, with this time and the ssrc as
-- they were. Of the version, the type, the network and the protocol nothing arrives: whatever they
-- were, they are read as 0, a request, UDP and IPv4.
pub parse-get_packet :
    (version : ℤ) (ssrc time now : ℕ) (type : HeartbeatType) (network : Network)
    (protocol : Protocol)
    → ssrc < u32_mod
    → now < u64_mod
    → parse (
        get_packet
          (set_time (new_heartbeat_packet version ssrc time type network protocol true) now))
      ≡ some (some (new_heartbeat_packet (pos 0) ssrc now req udp ipv4 false))
unfolding get_packet set_time create new_heartbeat_packet
parse-get_packet version ssrc time now type network protocol h k =
    let e = flags_lem (record (new_heartbeat_packet version ssrc time type network protocol true) {
      packet = [];
    }) in
    ap (λ second. parse (bytes_of second ssrc now)) e ∙ parse-bytes_of ssrc now h k
