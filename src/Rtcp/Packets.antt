-- ===== src/Rtcp/Packets.antt =====
-- Each packet is read back by its own `Parse`.
use bifrost_sdk.Base.{
  ℕ, ◌+◌, ◌*◌, ◌/◌, ◌%◌, ◌≡◌, refl, false, ltb, Option, some, List, [], ◌∷◌, ◌++◌, length, arith,
}
use bifrost_sdk.Wire.{get_1_byte, get_4_bytes}
use bifrost_sdk.Receiver.Report.{ReceiverReport}
use bifrost_sdk.Rtcp.Defs.{
  SenderReport, NackItem, RtcpPacket, sender_report_packet, receiver_report_packet, nack_packet,
  get_type, get_size,
}
use bifrost_sdk.Rtcp.Parse.{
  parse_sender_report, parse_sender_report_packet, parse_receiver_report_packet, parse_items_packet,
  parse_feedback, parse_by_type,
}
use bifrost_sdk.Rtcp.Serialize.{
  serialize_sender_reports, serialize_receiver_reports, serialize_items, serialize,
}
use bifrost_sdk.Rtcp.Safety.{IsSenderReport, IsPacket}
use bifrost_sdk.Rtcp.Reports.{
  parse_sender_report-serialize, parse_reports-serialize, parse_items-serialize,
  length-serialize_items, length-serialize_sender_reports, length-serialize_receiver_reports,
}

-- The reports and items before what follows.
sender_reports-append :
    (rs : List SenderReport) (rest : List ℕ)
    → serialize_sender_reports rs rest ≡ serialize_sender_reports rs [] ++ rest
unfolding serialize_sender_reports
sender_reports-append [] rest = refl
sender_reports-append (r ∷ rs) rest = rw (sender_reports-append rs rest) refl

receiver_reports-append :
    (rs : List ReceiverReport) (rest : List ℕ)
    → serialize_receiver_reports rs rest ≡ serialize_receiver_reports rs [] ++ rest
unfolding serialize_receiver_reports
receiver_reports-append [] rest = refl
receiver_reports-append (r ∷ rs) rest = rw (receiver_reports-append rs rest) refl

items-append :
    (is : List NackItem) (rest : List ℕ) → serialize_items is rest ≡ serialize_items is [] ++ rest
unfolding serialize_items
items-append [] rest = refl
items-append (i ∷ is) rest = rw (items-append is rest) refl

pub serialize-append : (p : RtcpPacket) (rest : List ℕ) → serialize p rest ≡ serialize p [] ++ rest
unfolding serialize
serialize-append (sender_report_packet rs) rest = rw (sender_reports-append rs rest) refl
serialize-append (receiver_report_packet ssrc rs) rest = rw (receiver_reports-append rs rest) refl
serialize-append (nack_packet sender media is) rest = rw (items-append is rest) refl

pub length-serialize : (p : RtcpPacket) → length (serialize p []) ≡ get_size p
unfolding serialize
length-serialize (sender_report_packet rs) = omega (arith, length-serialize_sender_reports rs [])
length-serialize (receiver_report_packet ssrc rs) =
    omega (arith, length-serialize_receiver_reports rs [])
length-serialize (nack_packet sender media is) = omega (arith, length-serialize_items is [])

no_sender_report :
    parse_sender_report_packet (serialize (sender_report_packet []) [])
    ≡ some (some (sender_report_packet []))
unfolding parse_sender_report_packet parse_sender_report serialize serialize_sender_reports
no_sender_report = refl

one_sender_report :
    (r : SenderReport)
    → IsSenderReport r
    → parse_sender_report_packet (serialize (sender_report_packet (r ∷ [])) [])
      ≡ some (some (sender_report_packet (r ∷ [])))
unfolding parse_sender_report_packet serialize serialize_sender_reports
one_sender_report r v = rw (parse_sender_report-serialize r [] v) refl

parse_receiver_report_packet-serialize :
    (ssrc : ℕ) (rs : List ReceiverReport)
    → IsPacket (receiver_report_packet ssrc rs)
    → parse_receiver_report_packet (serialize (receiver_report_packet ssrc rs) [])
      ≡ some (some (receiver_report_packet ssrc rs))
unfolding parse_receiver_report_packet serialize get_4_bytes get_1_byte
parse_receiver_report_packet-serialize ssrc rs v =
    let t : ltb (length (serialize (receiver_report_packet ssrc rs) [])) 8 ≡ false = ground arith in
    let n : (128 + length rs % 32) % 32 ≡ length rs = omega arith in
    let e : ssrc % 256
          + ssrc / 256 % 256 * 256
          + ssrc / 65536 % 256 * 65536
          + ssrc / 16777216 % 256 * 16777216
        ≡ ssrc =
      omega arith in
    rw (t, n, e) (rw (parse_reports-serialize rs v.1) refl)

parse_feedback-serialize :
    (sender media : ℕ) (is : List NackItem)
    → IsPacket (nack_packet sender media is)
    → parse_feedback (serialize (nack_packet sender media is) [])
      ≡ some (some (nack_packet sender media is))
unfolding parse_feedback parse_items_packet serialize get_4_bytes get_1_byte
parse_feedback-serialize sender media is v =
    let l = length-serialize_items is [] in
    let t : ltb (length (serialize (nack_packet sender media is) [])) 12 ≡ false = ground arith in
    let e : sender % 256
          + sender / 256 % 256 * 256
          + sender / 65536 % 256 * 65536
          + sender / 16777216 % 256 * 16777216
        ≡ sender =
      omega arith in
    let f : media % 256
          + media / 256 % 256 * 256
          + media / 65536 % 256 * 65536
          + media / 16777216 % 256 * 16777216
        ≡ media =
      omega arith in
    rw (t, e, f)
      (rw
        (parse_items-serialize (length (serialize (nack_packet sender media is) [])) is v.2
          (omega arith))
        refl)

-- The packet that its own `Parse` reads.
pub parse_by_type-serialize :
    (p : RtcpPacket) (current : Option RtcpPacket)
    → IsPacket p
    → parse_by_type (get_type p) (serialize p []) current ≡ some (some p)
unfolding parse_by_type
parse_by_type-serialize (sender_report_packet []) current v = no_sender_report
parse_by_type-serialize (sender_report_packet (r ∷ [])) current v = one_sender_report r v.0.0
parse_by_type-serialize (sender_report_packet (r ∷ s ∷ rs)) current v = absurd (omega arith)
parse_by_type-serialize (receiver_report_packet ssrc rs) current v =
    parse_receiver_report_packet-serialize ssrc rs v
parse_by_type-serialize (nack_packet sender media is) current v =
    parse_feedback-serialize sender media is v
