-- ===== src/Rtcp/Defs.antt =====
-- The packets that `RtcpPacket::Parse` knows, with the fields that their getters give.
use bifrost_sdk.Base.{ℕ, ◌+◌, ◌*◌, List, length}
use bifrost_sdk.Receiver.Report.{ReceiverReport}

-- `SenderReport`, the fields of its header.
pub record SenderReport : Type 0 where
  pub ssrc : ℕ
  pub ntp_sec : ℕ
  pub ntp_frac : ℕ
  pub rtp_ts : ℕ
  pub packet_count : ℕ
  pub octet_count : ℕ

-- `FeedbackRtpNackItem`
pub record NackItem : Type 0 where
  pub packet_id : ℕ
  pub lost_packet_bitmask : ℕ

-- `SenderReportPacket`, `ReceiverReportPacket` with its ssrc, and `FeedbackRtpNackPacket` with the
-- ssrc of the sender and of the media.
pub data RtcpPacket : Type 0 where
  sender_report_packet : List SenderReport → RtcpPacket
  receiver_report_packet : ℕ → List ReceiverReport → RtcpPacket
  nack_packet : ℕ → ℕ → List NackItem → RtcpPacket

-- `sizeof` of the headers.
abbrev pub common_header_size : ℕ
common_header_size = 4

abbrev pub sender_report_size : ℕ
sender_report_size = 24

abbrev pub receiver_report_size : ℕ
receiver_report_size = 24

abbrev pub feedback_header_size : ℕ
feedback_header_size = 8

abbrev pub nack_item_size : ℕ
nack_item_size = 4

-- The values of `Type`, and of the one message type that is parsed.
abbrev pub type_sr : ℕ
type_sr = 200

abbrev pub type_rr : ℕ
type_rr = 201

abbrev pub type_rtpfb : ℕ
type_rtpfb = 205

abbrev pub message_type_nack : ℕ
message_type_nack = 1

-- `GetType` and `GetCount`
abbrev pub get_type : RtcpPacket → ℕ
get_type (sender_report_packet reports) = type_sr
get_type (receiver_report_packet ssrc reports) = type_rr
get_type (nack_packet sender media items) = type_rtpfb

abbrev pub get_count : RtcpPacket → ℕ
get_count (sender_report_packet reports) = length reports
get_count (receiver_report_packet ssrc reports) = length reports
get_count (nack_packet sender media items) = message_type_nack

-- `GetSize`
abbrev pub get_size : RtcpPacket → ℕ
get_size (sender_report_packet reports) = common_header_size + length reports * sender_report_size
get_size (receiver_report_packet ssrc reports) =
    common_header_size + 4 + length reports * receiver_report_size
get_size (nack_packet sender media items) =
    common_header_size + feedback_header_size + length items * nack_item_size
