-- ===== src/Rtcp/RoundTrip.antt =====
-- A compound of packets is read back from the bytes that were written of it.
use bifrost_sdk.Base.{
  ℕ, zero, suc, ◌+◌, ◌-◌, ◌*◌, ◌/◌, ◌≤◌, ◌<◌, ◌≡◌, refl, sym, ap, ◌∙◌, true, false, ltb, Option,
  none, some, List, [], ◌∷◌, length, drop, take, take-append, drop-append, length-append, All,
  arith,
}
use bifrost_sdk.Wire.{get_1_byte, get_2_bytes}
use bifrost_sdk.Rtcp.Defs.{
  RtcpPacket, sender_report_packet, receiver_report_packet, nack_packet, get_type, get_size,
}
use bifrost_sdk.Rtcp.Parse.{is_rtcp, packet_length, parse_one, parse_loop, parse}
use bifrost_sdk.Rtcp.Serialize.{serialize}
use bifrost_sdk.Rtcp.Safety.{IsPacket}
use bifrost_sdk.Rtcp.Packets.{serialize-append, length-serialize, parse_by_type-serialize}

-- The length field has 16 bits.
abbrev pub Fits : RtcpPacket → Type 0
Fits p = get_size p ≤ 262144

-- What the loop reads of the common header.
pub is_rtcp-serialize : (p : RtcpPacket) (rest : List ℕ) → is_rtcp (serialize p rest) ≡ some true
unfolding is_rtcp serialize get_1_byte
is_rtcp-serialize (sender_report_packet rs) rest = ground arith
is_rtcp-serialize (receiver_report_packet ssrc rs) rest = ground arith
is_rtcp-serialize (nack_packet sender media is) rest = ground arith

words-serialize :
    (p : RtcpPacket) (rest : List ℕ)
    → Fits p
    → get_2_bytes (serialize p rest) 2 ≡ some (get_size p / 4 - 1)
unfolding serialize get_2_bytes
words-serialize (sender_report_packet rs) rest h = ap some (omega arith)
words-serialize (receiver_report_packet ssrc rs) rest h = ap some (omega arith)
words-serialize (nack_packet sender media is) rest h = ap some (omega arith)

type-serialize :
    (p : RtcpPacket) (rest : List ℕ) → get_1_byte (serialize p rest) 1 ≡ some (get_type p)
unfolding serialize get_1_byte
type-serialize (sender_report_packet rs) rest = refl
type-serialize (receiver_report_packet ssrc rs) rest = refl
type-serialize (nack_packet sender media is) rest = refl

packet_length-size : (p : RtcpPacket) → packet_length (get_size p / 4 - 1) ≡ get_size p
packet_length-size (sender_report_packet rs) = omega arith
packet_length-size (receiver_report_packet ssrc rs) = omega arith
packet_length-size (nack_packet sender media is) = omega arith

parse_one-serialize :
    (p : RtcpPacket) (rest : List ℕ) (current : Option RtcpPacket)
    → IsPacket p
    → Fits p
    → parse_one (serialize p rest) current ≡ some (some (p, get_size p))
unfolding parse_one
parse_one-serialize p rest current v h =
    let e : length (serialize p rest) ≡ get_size p + length rest = omega (
      arith,
      ap length (serialize-append p rest),
      length-append (serialize p []) rest,
      length-serialize p,
    ) in
    let t : ltb (length (serialize p rest)) (get_size p) ≡ false = ground arith in
    let k : take (get_size p) (serialize p rest) ≡ serialize p [] =
      ap (take (get_size p)) (serialize-append p rest)
      ∙ take-append (serialize p []) rest (get_size p) (sym (length-serialize p)) in
    rw
      (
        is_rtcp-serialize p rest,
        words-serialize p rest h,
        type-serialize p rest,
        packet_length-size p,
        t,
        k,
      )
      (rw (parse_by_type-serialize p current v)
        (ap (λ n. some (some (p, n))) (packet_length-size p)))

-- The bytes of a compound: its packets one after the other.
unfoldable pub serialize_all : List RtcpPacket → List ℕ
serialize_all [] = []
serialize_all (p ∷ ps) = serialize p (serialize_all ps)

abbrev pub last : RtcpPacket → List RtcpPacket → RtcpPacket
last p [] = p
last p (q ∷ qs) = last q qs

parse_loop-nil :
    (fuel : ℕ) (current : Option RtcpPacket) → parse_loop fuel [] current ≡ some current
unfolding parse_loop
parse_loop-nil fuel current = refl

-- A round of the loop on bytes from which a packet is parsed.
parse_loop_step :
    (fuel : ℕ) (bytes : List ℕ) (current : Option RtcpPacket) (p : RtcpPacket) (len : ℕ)
    → 0 < length bytes
    → parse_one bytes current ≡ some (some (p, len))
    → parse_loop (suc fuel) bytes current ≡ parse_loop fuel (drop len bytes) (some p)
unfolding parse_loop
parse_loop_step fuel [] current p len h e = absurd (omega arith)
parse_loop_step fuel (b ∷ bytes) current p len h e = rw e refl

length-serialize_rest :
    (p : RtcpPacket) (rest : List ℕ) → length (serialize p rest) ≡ get_size p + length rest
length-serialize_rest p rest = omega (
  arith,
  ap length (serialize-append p rest),
  length-append (serialize p []) rest,
  length-serialize p,
)

get_size_positive : (p : RtcpPacket) → 4 ≤ get_size p
get_size_positive (sender_report_packet rs) = omega arith
get_size_positive (receiver_report_packet ssrc rs) = omega arith
get_size_positive (nack_packet sender media is) = omega arith

parse_loop-serialize :
    (fuel : ℕ) (p : RtcpPacket) (rest : List ℕ) (current : Option RtcpPacket)
    → IsPacket p
    → Fits p
    → parse_loop (suc fuel) (serialize p rest) current ≡ parse_loop fuel rest (some p)
parse_loop-serialize fuel p rest current v h =
    parse_loop_step fuel (serialize p rest) current p (get_size p)
      (omega (arith, length-serialize_rest p rest, get_size_positive p))
      (parse_one-serialize p rest current v h)
    ∙ ap (λ bytes. parse_loop fuel bytes (some p))
        (ap (drop (get_size p)) (serialize-append p rest)
          ∙ drop-append (serialize p []) rest 0 (omega (arith, length-serialize p)))

parse_loop-serialize_all :
    (fuel : ℕ) (p : RtcpPacket) (ps : List RtcpPacket)
    → All IsPacket ps
    → All Fits ps
    → length ps ≤ fuel
    → parse_loop fuel (serialize_all ps) (some p) ≡ some (some (last p ps))
unfolding serialize_all
parse_loop-serialize_all fuel p [] v h l = parse_loop-nil fuel (some p)
parse_loop-serialize_all zero p (q ∷ qs) v h l = absurd (omega arith)
parse_loop-serialize_all (suc fuel) p (q ∷ qs) v h l =
    parse_loop-serialize fuel q (serialize_all qs) (some p) v.0 h.0
    ∙ parse_loop-serialize_all fuel q qs v.1 h.1 (omega arith)

length-serialize_all : (ps : List RtcpPacket) → 4 * length ps ≤ length (serialize_all ps)
unfolding serialize_all
length-serialize_all [] = omega arith
length-serialize_all (p ∷ ps) = omega (
  arith,
  length-serialize_rest p (serialize_all ps),
  get_size_positive p,
  length-serialize_all ps,
)

pub parse-serialize_all :
    (p : RtcpPacket) (ps : List RtcpPacket)
    → All IsPacket (p ∷ ps)
    → All Fits (p ∷ ps)
    → parse (serialize_all (p ∷ ps)) ≡ some (some (last p ps))
unfolding parse serialize_all
parse-serialize_all p ps v h =
    let l = length-serialize_rest p (serialize_all ps) in
    let m = length-serialize_all ps in
    let n = get_size_positive p in
    let e : length (serialize p (serialize_all ps))
        ≡ suc (get_size p + length (serialize_all ps) - 1) =
      omega arith in
    rw e (
      parse_loop-serialize (get_size p + length (serialize_all ps) - 1) p (serialize_all ps) none
        v.0 h.0
      ∙ parse_loop-serialize_all (get_size p + length (serialize_all ps) - 1) p ps v.1 h.1
          (omega arith))
