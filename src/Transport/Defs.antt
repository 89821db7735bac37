-- ===== src/Transport/Defs.antt =====
-- `RtcTransport`: its tables of streams and `Dispatch` of a datagram. A shared pointer to a stream is
-- the number under which a table has it, so that a change of the stream is seen in the table. The
-- addresses of the peers are left out, since nothing here reads them.
use bifrost_sdk.Base.{
  ℕ, ◌/◌, Bool, true, false, ltb, leb, ◌==◌, ◌&&◌, if◌then◌else◌, Option, none, some, ◌>>=◌, List,
  [], ◌∷◌, length, get_elem?,
}
use bifrost_sdk.Packet.{RtpPacket}
use bifrost_sdk.Packet.Parse as PacketParse
use bifrost_sdk.Packet.Accessors.{fields}
use bifrost_sdk.Stream.{fresh}
use bifrost_sdk.Nack.Defs.{Event, default_rtt}
use bifrost_sdk.Rate.Counter.{new_rtp_data_counter}
use bifrost_sdk.Receiver.Report.{ReceiverReport}
use bifrost_sdk.Receiver.Defs.{
  RtpStreamReceiver, receive_rtcp_sender_report, get_rtcp_receiver_report,
}
use bifrost_sdk.Receiver.Defs as ReceiverDefs
use bifrost_sdk.Sender.Defs.{
  RtpStreamSender, new_rtp_stream_sender, receive_rtcp_receiver_report, get_rtcp_sender_report,
}
use bifrost_sdk.Sender.Defs as SenderDefs
use bifrost_sdk.Rtcp.Defs.{
  SenderReport, RtcpPacket, sender_report_packet, receiver_report_packet, nack_packet,
}
use bifrost_sdk.Rtcp.Parse as RtcpParse
use bifrost_sdk.Rtcp.Compound.{add_sender_report, add_receiver_report, serialize_compound}

abbrev pub rtp_min_header_length : ℕ
rtp_min_header_length = 12

abbrev pub rtcp_min_header_length : ℕ
rtcp_min_header_length = 4

abbrev pub send_nack_delay : ℕ
send_nack_delay = 10

-- The first byte, of RTP and of RTCP.
abbrev pub is_version_2 : ℕ → Bool
is_version_2 first = (ltb 127 first && ltb first 192) && (first / 64 == 2)

-- The two tests of the file.
unfoldable pub is_rtp : List ℕ → Option Bool
is_rtp bytes =
    if leb rtp_min_header_length (length bytes)
    then (get_elem? bytes 0 >>= λ first. some (is_version_2 first))
    else some false

unfoldable pub is_rtcp : List ℕ → Option Bool
is_rtcp bytes =
    if leb rtcp_min_header_length (length bytes)
    then (get_elem? bytes 0 >>= λ first. get_elem? bytes 1 >>= λ second.
        some (is_version_2 first && (leb 192 second && leb second 223)))
    else some false

pub record RtcTransport : Type 0 where
  pub senders : List (ℕ × RtpStreamSender)
  pub receivers : List (ℕ × RtpStreamReceiver)
  pub test_seq : ℕ
  pub timestamp : ℕ

-- The members before any stream is created.
abbrev pub new_rtc_transport : RtcTransport
new_rtc_transport = record { senders = []; receivers = []; test_seq = 0; timestamp = 2000 }

-- `find` in a table, the assignment to what it finds, and `erase`.
module _ {ℓ} {A : Type ℓ} where
  unfoldable pub find_stream : ℕ → List (ℕ × A) → Option A
  find_stream ssrc [] = none
  find_stream ssrc (s ∷ rest) = if s.0 == ssrc then some s.1 else find_stream ssrc rest

  unfoldable pub update_stream : ℕ → A → List (ℕ × A) → List (ℕ × A)
  update_stream ssrc a [] = []
  update_stream ssrc a (s ∷ rest) =
      if s.0 == ssrc then (ssrc, a) ∷ rest else s ∷ update_stream ssrc a rest

  unfoldable pub erase_stream : ℕ → List (ℕ × A) → List (ℕ × A)
  erase_stream ssrc [] = []
  erase_stream ssrc (s ∷ rest) = if s.0 == ssrc then rest else s ∷ erase_stream ssrc rest

-- The constructor of a receiver that uses NACKs.
abbrev pub new_rtp_stream_receiver : ℕ → RtpStreamReceiver
new_rtp_stream_receiver ssrc = record {
  ssrc = ssrc;
  stream = fresh;
  nack_generator = some record {
    send_nack_delay_ms = send_nack_delay;
    nack_list = [];
    key_frame_list = [];
    recovered_list = [];
    started = false;
    last_seq = 0;
    rtt = default_rtt;
  };
  media_transmission_counter = new_rtp_data_counter;
  expected_prior = 0;
  received_prior = 0;
  reported_packet_lost = 0;
  packets_lost = 0;
  fraction_lost = 0;
  last_sr_received = 0;
  last_sr_timestamp = 0;
}

pub data StreamType : Type 0 where
  stream_sender stream_receiver : StreamType

-- `CreateRtpStream`, given whether the address is one. A stream that is there stays as it is.
unfoldable pub create_rtp_stream : RtcTransport → ℕ → StreamType → Bool → RtcTransport
create_rtp_stream t ssrc type false = t
create_rtp_stream t ssrc stream_receiver true = elim (find_stream ssrc t.receivers) [
  | some r ↦ t
  | none ↦ record t { receivers = (ssrc, new_rtp_stream_receiver ssrc) ∷ t.receivers }
]
create_rtp_stream t ssrc stream_sender true = elim (find_stream ssrc t.senders) [
  | some s ↦ t
  | none ↦ record t { senders = (ssrc, new_rtp_stream_sender true ssrc 16000) ∷ t.senders }
]

-- `DeleteRtpStream`: a sender under the number goes before a receiver.
unfoldable pub delete_rtp_stream : RtcTransport → ℕ → RtcTransport
delete_rtp_stream t ssrc = elim (find_stream ssrc t.senders) [
  | some s ↦ record t { senders = erase_stream ssrc t.senders }
  | none ↦ record t { receivers = erase_stream ssrc t.receivers }
]

-- `begin` gives the entry that `begin()` of the table points at.
module _ (begin : List (ℕ × RtpStreamReceiver) → Option (ℕ × RtpStreamReceiver)) where
  -- `GetStreamReceiverBySsrc`: a stream that is not there stands for the first one; of an empty table
  -- the iterator is that of the end, and reading it a fault.
  unfoldable pub get_stream_receiver_by_ssrc : RtcTransport → ℕ → Option (ℕ × RtpStreamReceiver)
  get_stream_receiver_by_ssrc t ssrc = elim (find_stream ssrc t.receivers) [
    | some r ↦ some (ssrc, r)
    | none ↦ begin t.receivers
  ]

  -- The loops of `ReceiveRtcpPacket` over the reports.
  unfoldable pub receive_sender_reports : RtcTransport → List SenderReport → ℕ → Option RtcTransport
  receive_sender_reports t [] now_ms = some t
  receive_sender_reports t (report ∷ reports) now_ms =
      get_stream_receiver_by_ssrc t report.ssrc >>= λ (ssrc, r).
      receive_sender_reports
        (record t {
          receivers =
              update_stream ssrc
                (receive_rtcp_sender_report r report.ntp_sec report.ntp_frac now_ms) t.receivers;
        })
        reports now_ms

  module _ (fractions : ℕ → ℕ) where
    unfoldable pub receive_receiver_reports : RtcTransport → List ReceiverReport → ℕ → RtcTransport
    receive_receiver_reports t [] now_ms = t
    receive_receiver_reports t (report ∷ reports) now_ms =
        elim (find_stream report.ssrc t.senders) [
          | none ↦ receive_receiver_reports t reports now_ms
          | some s ↦
              receive_receiver_reports
                (record t {
                  senders =
                      update_stream report.ssrc
                        (receive_rtcp_receiver_report fractions s report now_ms) t.senders;
                })
                reports now_ms
        ]

    -- `ReceiveRtcpPacket`. It reads the type through the pointer that it is given.
    unfoldable pub receive_rtcp_packet : RtcTransport → Option RtcpPacket → ℕ → Option RtcTransport
    receive_rtcp_packet t none now_ms = none
    receive_rtcp_packet t (some (sender_report_packet reports)) now_ms =
        receive_sender_reports t reports now_ms
    receive_rtcp_packet t (some (receiver_report_packet ssrc reports)) now_ms =
        some (receive_receiver_reports t reports now_ms)
    receive_rtcp_packet t (some (nack_packet sender media items)) now_ms = some t

    -- `ReceiveRtpPacket`, the sender first: the packets that go out again, and the calls of the
    -- receiver's listener.
    unfoldable pub receive_sender_part :
        RtcTransport → RtpPacket → ℕ → Option (RtcTransport × List RtpPacket)
    receive_sender_part t p now_ms = elim (find_stream p.ssrc t.senders) [
      | none ↦ some (t, [])
      | some s ↦ SenderDefs.receive_packet s p now_ms >>= λ r.
          some (record t { senders = update_stream p.ssrc r.0 t.senders }, r.2)
    ]

    unfoldable pub receive_rtp_packet :
        RtcTransport → RtpPacket → (ℕ → ℕ) → ℕ → Option (RtcTransport × List RtpPacket × List Event)
    receive_rtp_packet t p created_at now_ms = receive_sender_part t p now_ms >>= λ (t', packets).
        get_stream_receiver_by_ssrc t' p.ssrc >>= λ (ssrc, r).
        ReceiverDefs.receive_packet r p created_at now_ms >>= λ n.
        some (record t' { receivers = update_stream ssrc n.0 t'.receivers }, packets, n.2)

    -- `Dispatch` of a datagram; the packet is read through the pointer that the parser gives.
    unfoldable pub dispatch_rtp :
        RtcTransport → List ℕ → (ℕ → ℕ) → ℕ → Option (RtcTransport × List RtpPacket × List Event)
    dispatch_rtp t bytes created_at now_ms = PacketParse.parse bytes >>= λ parsed. elim parsed [
      | none ↦ none
      | some q ↦ fields q >>= λ p. receive_rtp_packet t p created_at now_ms
    ]

    unfoldable pub dispatch :
        RtcTransport → List ℕ → (ℕ → ℕ) → ℕ → Option (RtcTransport × List RtpPacket × List Event)
    dispatch t bytes created_at now_ms = is_rtcp bytes >>= λ rtcp.
        if rtcp
        then (RtcpParse.parse bytes >>= λ packet.
            receive_rtcp_packet t packet now_ms >>= λ t'. some (t', [], []))
        else (is_rtp bytes >>= λ rtp.
            if rtp then dispatch_rtp t bytes created_at now_ms else some (t, [], []))

-- The body of each loop of `SendRtcpPacket`: a compound packet with the report of the stream.
unfoldable pub send_receiver_report :
    (ℕ → ℕ → ℕ) → RtpStreamReceiver → ℕ → Option (RtpStreamReceiver × List ℕ)
send_receiver_report round_quotient r now_ms =
    get_rtcp_receiver_report round_quotient r now_ms >>= λ (r', report). some (
      r',
      serialize_compound
          (add_receiver_report (record { sender_reports = []; receiver_reports = [] })
            (0, report)).0,
    )

unfoldable pub send_sender_report : (ℕ → ℕ) → RtpStreamSender → ℕ → List ℕ
send_sender_report fractions s now_ms =
    serialize_compound
      (add_sender_report (record { sender_reports = []; receiver_reports = [] })
        (0, get_rtcp_sender_report fractions s now_ms)).0
