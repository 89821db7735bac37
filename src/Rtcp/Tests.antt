-- ===== src/Rtcp/Tests.antt =====
-- RTCP packets at concrete bytes and reports.
use bifrost_sdk.Base.{ℕ, ◌≡◌, refl, some, List, [], ◌∷◌, arith, Returns}
use bifrost_sdk.Receiver.Report.{ReceiverReport}
use bifrost_sdk.Rtcp.Defs.{SenderReport, RtcpPacket, nack_packet}
use bifrost_sdk.Rtcp.Parse.{parse}
use bifrost_sdk.Rtcp.Serialize.{serialize_items, serialize}
use bifrost_sdk.Rtcp.Safety.{IsPacket, OrNull, parse-IsPacket}
use bifrost_sdk.Rtcp.Compound.{
  CompoundPacket, add_sender_report, add_receiver_report, serialize_compound,
}
use bifrost_sdk.Rtcp.Limit.{IsAdded, add_report-IsAdded, read_back, parse-serialize_compound}

-- A NACK for the packet 513 and for the two behind it, of a length field that is one word too long.
abbrev cut_nack : List ℕ
cut_nack = 129 ∷ 205 ∷ 0 ∷ 4 ∷ 0 ∷ 0 ∷ 0 ∷ 7 ∷ 0 ∷ 0 ∷ 0 ∷ 7 ∷ 2 ∷ 1 ∷ 0 ∷ 3 ∷ []

parse-IsPacket_example : Returns (parse cut_nack) (OrNull IsPacket)
parse-IsPacket_example = parse-IsPacket cut_nack (omega arith)

abbrev sender_report : SenderReport
sender_report = record {
  ssrc = 7;
  ntp_sec = 100;
  ntp_frac = 4000000000;
  rtp_ts = 90000;
  packet_count = 12;
  octet_count = 12000;
}

abbrev receiver_report : ReceiverReport
receiver_report = record {
  ssrc = 7;
  total_lost = 3;
  fraction_lost = 77;
  last_seq = 65550;
  jitter = 0;
  last_sender_report = 65536;
  delay_since_last_sender_report = 3276;
}

abbrev nack : RtcpPacket
nack = nack_packet 0 7 (record { packet_id = 513; lost_packet_bitmask = 3 } ∷ [])

nack_in_bytes :
    serialize nack [] ≡ 129 ∷ 205 ∷ 0 ∷ 3 ∷ 0 ∷ 0 ∷ 0 ∷ 0 ∷ 0 ∷ 0 ∷ 0 ∷ 7 ∷ 2 ∷ 1 ∷ 0 ∷ 3 ∷ []
unfolding serialize serialize_items
nack_in_bytes = refl

abbrev compound : CompoundPacket
compound = record { sender_reports = (1, sender_report) ∷ []; receiver_reports = [] }

abbrev both : CompoundPacket
both = record compound { receiver_reports = (3, receiver_report) ∷ [] }

add_report-IsAdded_example :
    IsAdded compound
      (record compound { sender_reports = (1, sender_report) ∷ (2, sender_report) ∷ [] })
      (add_sender_report compound (2, sender_report))
    × IsAdded compound both (add_receiver_report compound (3, receiver_report))
add_report-IsAdded_example =
    add_report-IsAdded compound (2, sender_report) (3, receiver_report) (omega arith) tt

parse-serialize_compound_example : parse (serialize_compound both) ≡ some (read_back both)
parse-serialize_compound_example = parse-serialize_compound both (omega arith) (omega arith)
