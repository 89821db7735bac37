-- ===== src/Rtcp/Serialize.antt =====
-- `Serialize` of each packet: the bytes that it writes.
use bifrost_sdk.Base.{ℕ, ◌+◌, ◌-◌, ◌/◌, ◌%◌, List, [], ◌∷◌, ◌++◌}
use bifrost_sdk.Wire.{set_1_byte, set_2_bytes, set_3_bytes, set_4_bytes}
use bifrost_sdk.Receiver.Report.{ReceiverReport}
use bifrost_sdk.Rtcp.Defs.{
  SenderReport, NackItem, RtcpPacket, sender_report_packet, receiver_report_packet, nack_packet,
  get_type, get_count, get_size,
}

abbrev pub serialize_sender_report : SenderReport → List ℕ → List ℕ
serialize_sender_report r rest =
    set_4_bytes r.ssrc
    ++ (set_4_bytes r.ntp_sec
        ++ (set_4_bytes r.ntp_frac
            ++ (set_4_bytes r.rtp_ts
                ++ (set_4_bytes r.packet_count ++ (set_4_bytes r.octet_count ++ rest)))))

abbrev pub serialize_receiver_report : ReceiverReport → List ℕ → List ℕ
serialize_receiver_report r rest =
    set_4_bytes r.ssrc
    ++ (set_1_byte r.fraction_lost
        ++ (set_3_bytes r.total_lost
            ++ (set_4_bytes r.last_seq
                ++ (set_4_bytes r.jitter
                    ++ (set_4_bytes r.last_sender_report
                        ++ (set_4_bytes r.delay_since_last_sender_report ++ rest))))))

abbrev pub serialize_item : NackItem → List ℕ → List ℕ
serialize_item item rest =
    set_2_bytes item.packet_id ++ (set_2_bytes item.lost_packet_bitmask ++ rest)

-- The loops over the reports and the items, before what follows them.
unfoldable pub serialize_sender_reports : List SenderReport → List ℕ → List ℕ
serialize_sender_reports [] rest = rest
serialize_sender_reports (r ∷ rs) rest =
    serialize_sender_report r (serialize_sender_reports rs rest)

unfoldable pub serialize_receiver_reports : List ReceiverReport → List ℕ → List ℕ
serialize_receiver_reports [] rest = rest
serialize_receiver_reports (r ∷ rs) rest =
    serialize_receiver_report r (serialize_receiver_reports rs rest)

unfoldable pub serialize_items : List NackItem → List ℕ → List ℕ
serialize_items [] rest = rest
serialize_items (i ∷ is) rest = serialize_item i (serialize_items is rest)

-- `RtcpPacket::Serialize`: version 2, no padding, and the length in words less one.
abbrev pub serialize_header : RtcpPacket → List ℕ → List ℕ
serialize_header p rest =
    (128 + get_count p % 32) ∷ get_type p ∷ (set_2_bytes (get_size p / 4 - 1) ++ rest)

unfoldable pub serialize : RtcpPacket → List ℕ → List ℕ
serialize (sender_report_packet reports) rest =
    serialize_header (sender_report_packet reports) (serialize_sender_reports reports rest)
serialize (receiver_report_packet ssrc reports) rest =
    serialize_header (receiver_report_packet ssrc reports)
      (set_4_bytes ssrc ++ serialize_receiver_reports reports rest)
serialize (nack_packet sender media items) rest =
    serialize_header (nack_packet sender media items)
      (set_4_bytes sender ++ (set_4_bytes media ++ serialize_items items rest))
