-- ===== src/Rtcp/Compound.antt =====
-- `CompoundPacket`, core/src/rtc/rtcp/compound_packet.cpp. A shared pointer to a report is the report
-- with a number that identifies the object.
use bifrost_sdk.Base.{
  ℕ, ◌+◌, Bool, true, false, leb, ltb, ◌==◌, if◌then◌else◌, List, [], ◌∷◌, ◌++◌, length,
}
use bifrost_sdk.Receiver.Report.{ReceiverReport}
use bifrost_sdk.Rtcp.Defs.{
  SenderReport, RtcpPacket, sender_report_packet, receiver_report_packet, get_size,
}
use bifrost_sdk.Rtcp.Serialize.{serialize}

abbrev pub max_size : ℕ
max_size = 1292

-- The two packets inside; the ssrc of the second is never set.
pub record CompoundPacket : Type 0 where
  pub sender_reports : List (ℕ × SenderReport)
  pub receiver_reports : List (ℕ × ReceiverReport)

abbrev pub reports_of {ℓ} : {A : Type ℓ} → List (ℕ × A) → List A
reports_of [] = []
reports_of ((_, r) ∷ rs) = r ∷ reports_of rs

abbrev pub sender_packet : CompoundPacket → RtcpPacket
sender_packet c = sender_report_packet (reports_of c.sender_reports)

abbrev pub receiver_packet : CompoundPacket → RtcpPacket
receiver_packet c = receiver_report_packet 0 (reports_of c.receiver_reports)

-- `AddReport` and `RemoveReport`, the same in both packets.
module _ {ℓ} {A : Type ℓ} where
  unfoldable pub add_report : ℕ × A → List (ℕ × A) → List (ℕ × A)
  add_report r rs = rs ++ (r ∷ [])

  unfoldable pub remove_report : ℕ × A → List (ℕ × A) → List (ℕ × A)
  remove_report r [] = []
  remove_report r (s ∷ rs) = if s.0 == r.0 then rs else s ∷ remove_report r rs

-- `GetSize`
unfoldable pub compound_size : CompoundPacket → ℕ
compound_size c =
    (if ltb 0 (length c.sender_reports) then get_size (sender_packet c) else 0)
    + (if ltb 0 (length c.receiver_reports) then get_size (receiver_packet c) else 0)

unfoldable pub add_sender_report : CompoundPacket → ℕ × SenderReport → CompoundPacket × Bool
add_sender_report c r =
    let c' = record c { sender_reports = add_report r c.sender_reports } in
    if leb (compound_size c') max_size
    then (c', true)
    else (record c' { sender_reports = remove_report r c'.sender_reports }, false)

unfoldable pub add_receiver_report : CompoundPacket → ℕ × ReceiverReport → CompoundPacket × Bool
add_receiver_report c r =
    let c' = record c { receiver_reports = add_report r c.receiver_reports } in
    if leb (compound_size c') max_size
    then (c', true)
    else (record c' { receiver_reports = remove_report r c'.receiver_reports }, false)

-- `Serialize`
unfoldable pub serialize_compound : CompoundPacket → List ℕ
serialize_compound c =
    let behind =
      if ltb 0 (length c.receiver_reports) then serialize (receiver_packet c) [] else [] in
    if ltb 0 (length c.sender_reports) then serialize (sender_packet c) behind else behind
