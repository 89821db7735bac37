-- ===== src/Rtcp/Parse.antt =====
-- `RtcpPacket::Parse` and the `Parse` of each packet. Of the two options, the outer one is a fault,
-- the inner one the null pointer.
use bifrost_sdk.Base.{
  ℕ, zero, suc, ◌+◌, ◌*◌, ◌/◌, ◌%◌, Bool, false, not, ltb, leb, ◌==◌, ◌&&◌, if◌then◌else◌, Option,
  none, some, ◌>>=◌, List, [], ◌∷◌, length, drop, take,
}
use bifrost_sdk.Wire.{get_1_byte, get_2_bytes, get_3_bytes, get_4_bytes}
use bifrost_sdk.Receiver.Report.{ReceiverReport}
use bifrost_sdk.Rtcp.Defs.{
  SenderReport, NackItem, RtcpPacket, sender_report_packet, receiver_report_packet, nack_packet,
  common_header_size, sender_report_size, receiver_report_size, feedback_header_size,
  nack_item_size, type_sr, type_rr, type_rtpfb, message_type_nack,
}

-- What the getters of a report read behind its header pointer.
unfoldable pub sender_report_at : List ℕ → Option SenderReport
sender_report_at bytes = get_4_bytes bytes 0 >>= λ ssrc. get_4_bytes bytes 4 >>= λ ntp_sec.
    get_4_bytes bytes 8 >>= λ ntp_frac. get_4_bytes bytes 12 >>= λ rtp_ts.
    get_4_bytes bytes 16 >>= λ packet_count. get_4_bytes bytes 20 >>= λ octet_count. some record {
      ssrc = ssrc;
      ntp_sec = ntp_sec;
      ntp_frac = ntp_frac;
      rtp_ts = rtp_ts;
      packet_count = packet_count;
      octet_count = octet_count;
    }

unfoldable pub receiver_report_at : List ℕ → Option ReceiverReport
receiver_report_at bytes = get_4_bytes bytes 0 >>= λ ssrc. get_1_byte bytes 4 >>= λ fraction_lost.
    get_3_bytes bytes 5 >>= λ total_lost. get_4_bytes bytes 8 >>= λ last_seq.
    get_4_bytes bytes 12 >>= λ jitter. get_4_bytes bytes 16 >>= λ lsr.
    get_4_bytes bytes 20 >>= λ dlsr. some record {
      ssrc = ssrc;
      total_lost = total_lost;
      fraction_lost = fraction_lost;
      last_seq = last_seq;
      jitter = jitter;
      last_sender_report = lsr;
      delay_since_last_sender_report = dlsr;
    }

-- `SenderReport::Parse` and `ReceiverReport::Parse`
unfoldable pub parse_sender_report : List ℕ → Option (Option SenderReport)
parse_sender_report bytes =
    if ltb (length bytes) sender_report_size
    then some none
    else (sender_report_at bytes >>= λ report. some (some report))

unfoldable pub parse_receiver_report : List ℕ → Option (Option ReceiverReport)
parse_receiver_report bytes =
    if ltb (length bytes) receiver_report_size
    then some none
    else (receiver_report_at bytes >>= λ report. some (some report))

-- `SenderReportPacket::Parse`: one report at most.
unfoldable pub parse_sender_report_packet : List ℕ → Option (Option RtcpPacket)
parse_sender_report_packet bytes = parse_sender_report (drop common_header_size bytes) >>= λ parsed.
    elim parsed [
      | some report ↦ some (some (sender_report_packet (report ∷ [])))
      | none ↦ some (some (sender_report_packet []))
    ]

-- The loop of `ReceiverReportPacket::Parse`, over the count and the bytes from `offset` on. The code
-- asks the size of a report through a pointer that it has moved from; no member is read for it, so
-- that this counts as the size of the header and not as a fault.
unfoldable pub parse_reports : ℕ → List ℕ → Option (List ReceiverReport)
parse_reports zero bytes = some []
parse_reports (suc count) [] = some []
parse_reports (suc count) (b ∷ bytes) = parse_receiver_report (b ∷ bytes) >>= λ parsed.
    elim parsed [
      | none ↦ some []
      | some report ↦ parse_reports count (drop receiver_report_size (b ∷ bytes)) >>= λ reports.
          some (report ∷ reports)
    ]

-- `ReceiverReportPacket::Parse`, with its offset 0.
unfoldable pub parse_receiver_report_packet : List ℕ → Option (Option RtcpPacket)
parse_receiver_report_packet bytes =
    if ltb (length bytes) (common_header_size + 4)
    then some none
    else (get_4_bytes bytes common_header_size >>= λ ssrc. get_1_byte bytes 0 >>= λ first.
        parse_reports (first % 32) (drop (common_header_size + 4) bytes) >>= λ reports.
        some (some (receiver_report_packet ssrc reports)))

-- `FeedbackItem::Parse` of an item, and the loop of `FeedbackRtpItemsPacket::Parse` over the bytes
-- from `offset` on.
unfoldable pub parse_item : List ℕ → Option (Option NackItem)
parse_item bytes =
    if ltb (length bytes) nack_item_size
    then some none
    else (get_2_bytes bytes 0 >>= λ packet_id. get_2_bytes bytes 2 >>= λ bitmask.
        some (some record { packet_id = packet_id; lost_packet_bitmask = bitmask }))

-- The fuel is the number of bytes.
unfoldable pub parse_items : ℕ → List ℕ → Option (List NackItem)
parse_items fuel [] = some []
parse_items zero (b ∷ bytes) = none
parse_items (suc fuel) (b ∷ bytes) = parse_item (b ∷ bytes) >>= λ parsed. elim parsed [
  | none ↦ some []
  | some item ↦ parse_items fuel (drop nack_item_size (b ∷ bytes)) >>= λ items. some (item ∷ items)
]

unfoldable pub parse_items_packet : List ℕ → Option (Option RtcpPacket)
parse_items_packet bytes =
    if ltb (length bytes) (common_header_size + feedback_header_size)
    then some none
    else (get_4_bytes bytes 4 >>= λ sender_ssrc. get_4_bytes bytes 8 >>= λ media_ssrc.
        parse_items (length bytes) (drop (common_header_size + feedback_header_size) bytes)
        >>= λ items. some (some (nack_packet sender_ssrc media_ssrc items)))

-- `FeedbackPacket<FeedbackRtp>::Parse`: other message types than the NACK give the null pointer.
unfoldable pub parse_feedback : List ℕ → Option (Option RtcpPacket)
parse_feedback bytes =
    if ltb (length bytes) (common_header_size + feedback_header_size)
    then some none
    else (get_1_byte bytes 0 >>= λ first.
        if first % 32 == message_type_nack then parse_items_packet bytes else some none)

-- `IsRtcp`
unfoldable pub is_rtcp : List ℕ → Option Bool
is_rtcp bytes =
    if leb common_header_size (length bytes)
    then (get_1_byte bytes 0 >>= λ first. get_1_byte bytes 1 >>= λ packet_type. some (
        (ltb 127 first && ltb first 192)
        && ((first / 64 == 2) && (leb 192 packet_type && leb packet_type 223))))
    else some false

-- The number of bytes of a packet, by its length field.
abbrev pub packet_length : ℕ → ℕ
packet_length words = (words + 1) * 4

-- The switch of `RtcpPacket::Parse`: the packet parsed before stays, where the type is not parsed.
unfoldable pub parse_by_type : ℕ → List ℕ → Option RtcpPacket → Option (Option RtcpPacket)
parse_by_type packet_type bytes current =
    if packet_type == type_sr
    then parse_sender_report_packet bytes
    else (if packet_type == type_rr
        then parse_receiver_report_packet bytes
        else (if packet_type == type_rtpfb then parse_feedback bytes else some current))

-- The body of the loop of `RtcpPacket::Parse`: the packet, and the number of its bytes.
unfoldable pub parse_one : List ℕ → Option RtcpPacket → Option (Option (RtcpPacket × ℕ))
parse_one bytes current = is_rtcp bytes >>= λ ok.
    if not ok
    then some none
    else (get_2_bytes bytes 2 >>= λ words. get_1_byte bytes 1 >>= λ packet_type.
        if ltb (length bytes) (packet_length words)
        then some none
        else (parse_by_type packet_type (take (packet_length words) bytes) current >>= λ parsed.
            elim parsed [ none ↦ some none | some p ↦ some (some (p, packet_length words)) ]))

-- The loop, with the number of bytes as its fuel: each round takes four of them at least.
unfoldable pub parse_loop : ℕ → List ℕ → Option RtcpPacket → Option (Option RtcpPacket)
parse_loop fuel [] current = some current
parse_loop zero (b ∷ bytes) current = none
parse_loop (suc fuel) (b ∷ bytes) current = parse_one (b ∷ bytes) current >>= λ parsed.
    elim parsed [
      | none ↦ some none
      | some (p, len) ↦ parse_loop fuel (drop len (b ∷ bytes)) (some p)
    ]

unfoldable pub parse : List ℕ → Option (Option RtcpPacket)
parse bytes = parse_loop (length bytes) bytes none
