-- ===== src/Heartbeat.antt =====
-- core/src/rtc/rtcp/heart_beat_packet.cpp: the heartbeat packet of 20 bytes. The operators `<` and `>`
-- stand where a shift would be expected; here they are the comparisons that they are.
pub mod RoundTrip
mod Tests
use bifrost_sdk.Base.{
  ℕ, ◌+◌, Bool, true, false, not, ltb, ◌==◌, ◌&&◌, ◌||◌, if◌then◌else◌, Option, none, some, ◌>>=◌,
  List, [], ◌∷◌, ◌++◌, length, take, get_elem?,
}
use bifrost_sdk.Wire.{get_2_bytes, get_4_bytes, get_8_bytes, set_2_bytes, set_4_bytes, set_8_bytes}
use bifrost_sdk.Receiver.Report.{ℤ, pos, negsuc}

pub data HeartbeatType : Type 0 where
  req res : HeartbeatType

pub data Network : Type 0 where
  udp tcp : Network

pub data Protocol : Type 0 where
  ipv4 ipv6 : Protocol

-- The numbers of the enumerations.
abbrev pub type_value : HeartbeatType → ℕ
type_value req = 0
type_value res = 1

abbrev pub network_value : Network → ℕ
network_value udp = 1
network_value tcp = 2

abbrev pub protocol_value : Protocol → ℕ
protocol_value ipv4 = 0
protocol_value ipv6 = 1

abbrev pub magic_cookie : List ℕ
magic_cookie = 33 ∷ 18 ∷ 164 ∷ 66 ∷ []

abbrev pub packet_size : ℕ
packet_size = 20

pub record HeartbeatPacket : Type 0 where
  pub version : ℤ
  pub ssrc : ℕ
  pub time : ℕ
  pub type : HeartbeatType
  pub network : Network
  pub protocol : Protocol
  pub persistent : Bool
  pub packet : List ℕ

-- `version_ < 6`
abbrev pub is_below_6 : ℤ → Bool
is_below_6 (pos n) = ltb n 6
is_below_6 (negsuc n) = true

-- A `bool` as a number.
abbrev pub bit : Bool → ℕ
bit true = 1
bit false = 0

-- The second byte: four comparisons, as bits of which any may be set.
unfoldable pub flags : HeartbeatPacket → ℕ
flags p = bit (
    is_below_6 p.version
    || (ltb (network_value p.network) 5
        || (ltb (protocol_value p.protocol) 4 || ltb (type_value p.type) 3)))

-- `Create` into a buffer of enough bytes: the first 20 of them.
unfoldable pub create : HeartbeatPacket → List ℕ
create p =
    (0 ∷ flags p ∷ [])
    ++ (set_2_bytes packet_size ++ (magic_cookie ++ (set_4_bytes p.ssrc ++ set_8_bytes p.time)))

-- The constructor.
unfoldable pub new_heartbeat_packet :
    ℤ → ℕ → ℕ → HeartbeatType → Network → Protocol → Bool → HeartbeatPacket
new_heartbeat_packet version ssrc time type network protocol persistent =
    let p : HeartbeatPacket = record {
      version = version;
      ssrc = ssrc;
      time = time;
      type = type;
      network = network;
      protocol = protocol;
      persistent = persistent;
      packet = [];
    } in
    if persistent then record p { packet = create p } else p

-- `SetTime`: the last 8 bytes are written anew.
unfoldable pub set_time : HeartbeatPacket → ℕ → HeartbeatPacket
set_time p time =
    if p.persistent
    then record p { time = time; packet = take 12 p.packet ++ set_8_bytes time }
    else record p { time = time }

unfoldable pub get_packet : HeartbeatPacket → List ℕ
get_packet p = if p.persistent then p.packet else []

-- `IsHeartbeatPacket`: each byte is read only if the tests before it hold.
unfoldable pub is_heartbeat_packet : List ℕ → Option Bool
is_heartbeat_packet bytes =
    if length bytes == packet_size
    then (get_elem? bytes 0 >>= λ b0. get_elem? bytes 4 >>= λ b4. get_elem? bytes 5 >>= λ b5.
        get_elem? bytes 6 >>= λ b6. get_elem? bytes 7 >>= λ b7.
        some (ltb b0 3 && ((b4 == 33) && ((b5 == 18) && ((b6 == 164) && (b7 == 66))))))
    else some false

-- What `Parse` makes of the bytes behind its tests.
unfoldable pub read_heartbeat : List ℕ → Option HeartbeatPacket
read_heartbeat bytes = get_elem? bytes 1 >>= λ b1. get_4_bytes bytes 8 >>= λ ssrc.
    get_8_bytes bytes 12 >>= λ time. some (
      new_heartbeat_packet (pos (bit (ltb 6 b1))) ssrc time (if ltb 3 b1 then res else req)
        (if ltb 5 b1 then tcp else udp) (if ltb 4 b1 then ipv6 else ipv4) false)

-- `Parse`: none inside is the null pointer.
unfoldable pub parse : List ℕ → Option (Option HeartbeatPacket)
parse bytes = is_heartbeat_packet bytes >>= λ ok.
    if not ok
    then some none
    else (get_elem? bytes 0 >>= λ b0.
        if not (b0 == 0)
        then some none
        else (get_2_bytes bytes 2 >>= λ size.
            if not (size == packet_size)
            then some none
            else (read_heartbeat bytes >>= λ p. some (some p))))
