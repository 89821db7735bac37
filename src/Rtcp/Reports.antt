-- ===== src/Rtcp/Reports.antt =====
-- Reports and items are read back from the bytes that were written of them.
use bifrost_sdk.Base.{
  ℕ, zero, suc, ◌+◌, ◌*◌, ◌≤◌, ◌≡◌, refl, ap, false, ltb, some, List, [], ◌∷◌, length, All, arith,
}
use bifrost_sdk.Wire.{get_1_byte, get_2_bytes, get_3_bytes, get_4_bytes}
use bifrost_sdk.Receiver.Report.{ReceiverReport}
use bifrost_sdk.Rtcp.Defs.{SenderReport, NackItem}
use bifrost_sdk.Rtcp.Parse.{
  sender_report_at, receiver_report_at, parse_sender_report, parse_receiver_report, parse_reports,
  parse_item, parse_items,
}
use bifrost_sdk.Rtcp.Serialize.{
  serialize_sender_report, serialize_receiver_report, serialize_item, serialize_sender_reports,
  serialize_receiver_reports, serialize_items,
}
use bifrost_sdk.Rtcp.Safety.{IsSenderReport, IsReceiverReport, IsItem}

sender_report_at-serialize :
    (r : SenderReport) (rest : List ℕ)
    → IsSenderReport r
    → sender_report_at (serialize_sender_report r rest) ≡ some r
unfolding sender_report_at get_4_bytes
sender_report_at-serialize r rest h = ap some (ground arith)

receiver_report_at-serialize :
    (r : ReceiverReport) (rest : List ℕ)
    → IsReceiverReport r
    → receiver_report_at (serialize_receiver_report r rest) ≡ some r
unfolding receiver_report_at get_4_bytes get_1_byte get_3_bytes
receiver_report_at-serialize r rest h = ap some (ground arith)

length-serialize_sender_report :
    (r : SenderReport) (rest : List ℕ) → length (serialize_sender_report r rest) ≡ 24 + length rest
length-serialize_sender_report r rest = omega arith

length-serialize_receiver_report :
    (r : ReceiverReport) (rest : List ℕ)
    → length (serialize_receiver_report r rest) ≡ 24 + length rest
length-serialize_receiver_report r rest = omega arith

pub parse_sender_report-serialize :
    (r : SenderReport) (rest : List ℕ)
    → IsSenderReport r
    → parse_sender_report (serialize_sender_report r rest) ≡ some (some r)
unfolding parse_sender_report
parse_sender_report-serialize r rest h =
    let e : ltb (length (serialize_sender_report r rest)) 24 ≡ false = ground arith in
    rw (e, sender_report_at-serialize r rest h) refl

pub parse_receiver_report-serialize :
    (r : ReceiverReport) (rest : List ℕ)
    → IsReceiverReport r
    → parse_receiver_report (serialize_receiver_report r rest) ≡ some (some r)
unfolding parse_receiver_report
parse_receiver_report-serialize r rest h =
    let e : ltb (length (serialize_receiver_report r rest)) 24 ≡ false = ground arith in
    rw (e, receiver_report_at-serialize r rest h) refl

pub parse_item-serialize :
    (i : NackItem) (rest : List ℕ) → IsItem i → parse_item (serialize_item i rest) ≡ some (some i)
unfolding parse_item get_2_bytes
parse_item-serialize i rest h = ground arith

pub parse_reports-serialize :
    (rs : List ReceiverReport)
    → All IsReceiverReport rs
    → parse_reports (length rs) (serialize_receiver_reports rs []) ≡ some rs
unfolding parse_reports serialize_receiver_reports
parse_reports-serialize [] a = refl
parse_reports-serialize (r ∷ rs) a =
    rw (parse_receiver_report-serialize r (serialize_receiver_reports rs []) a.0)
      (rw (parse_reports-serialize rs a.1) refl)

pub length-serialize_items :
    (is : List NackItem) (rest : List ℕ)
    → length (serialize_items is rest) ≡ 4 * length is + length rest
unfolding serialize_items
length-serialize_items [] rest = omega arith
length-serialize_items (i ∷ is) rest = omega (arith, length-serialize_items is rest)

pub length-serialize_sender_reports :
    (rs : List SenderReport) (rest : List ℕ)
    → length (serialize_sender_reports rs rest) ≡ 24 * length rs + length rest
unfolding serialize_sender_reports
length-serialize_sender_reports [] rest = omega arith
length-serialize_sender_reports (r ∷ rs) rest =
    omega (arith, length-serialize_sender_reports rs rest)

pub length-serialize_receiver_reports :
    (rs : List ReceiverReport) (rest : List ℕ)
    → length (serialize_receiver_reports rs rest) ≡ 24 * length rs + length rest
unfolding serialize_receiver_reports
length-serialize_receiver_reports [] rest = omega arith
length-serialize_receiver_reports (r ∷ rs) rest =
    omega (arith, length-serialize_receiver_reports rs rest)

pub parse_items-serialize :
    (fuel : ℕ) (is : List NackItem)
    → All IsItem is
    → length is ≤ fuel
    → parse_items fuel (serialize_items is []) ≡ some is
unfolding parse_items serialize_items
parse_items-serialize fuel [] a h = refl
parse_items-serialize zero (i ∷ is) a h = absurd (omega arith)
parse_items-serialize (suc fuel) (i ∷ is) a h =
    rw (parse_item-serialize i (serialize_items is []) a.0)
      (rw (parse_items-serialize fuel is a.1 (omega arith)) refl)
