-- ===== src/Transport/Reports.antt =====
-- The reports of a client as they reach the transport of its peer.
use bifrost_sdk.Base.{
  ℕ, ◌/◌, ◌%◌, ◌<◌, ◌≡◌, refl, ap, ◌∙◌, true, Option, some, ◌>>=◌, List, [], ◌∷◌, u32_mod, arith,
}
use bifrost_sdk.Wire.{get_1_byte}
use bifrost_sdk.Receiver.Report.{ReceiverReport}
use bifrost_sdk.Receiver.Defs.{
  RtpStreamReceiver, get_rtcp_receiver_report, receive_rtcp_sender_report,
}
use bifrost_sdk.Sender.Defs.{RtpStreamSender, get_rtcp_sender_report, receive_rtcp_receiver_report}
use bifrost_sdk.Rtcp.Defs.{SenderReport, sender_report_packet, receiver_report_packet}
use bifrost_sdk.Rtcp.Parse as RtcpParse
use bifrost_sdk.Rtcp.Serialize.{serialize}
use bifrost_sdk.Rtcp.Safety.{IsSenderReport, IsReceiverReport}
use bifrost_sdk.Rtcp.RoundTrip.{is_rtcp-serialize}
use bifrost_sdk.Rtcp.Compound.{
  CompoundPacket, add_report, compound_size, add_sender_report, add_receiver_report,
  serialize_compound,
}
use bifrost_sdk.Rtcp.Limit.{parse-serialize_compound}
use bifrost_sdk.Transport.Widths.{sent-IsSenderReport, made-IsReceiverReport}
use bifrost_sdk.Transport.Defs.{
  is_rtcp, RtcTransport, find_stream, update_stream, get_stream_receiver_by_ssrc,
  receive_sender_reports, receive_receiver_reports, receive_rtcp_packet, dispatch,
  send_receiver_report, send_sender_report,
}

-- The test of the transport is that of the parser.
pub is_rtcp_agrees : (bytes : List ℕ) → is_rtcp bytes ≡ RtcpParse.is_rtcp bytes
unfolding is_rtcp RtcpParse.is_rtcp get_1_byte
is_rtcp_agrees bytes = ground arith

abbrev of_sender : SenderReport → CompoundPacket
of_sender r = record { sender_reports = (0, r) ∷ []; receiver_reports = [] }

abbrev of_receiver : ReceiverReport → CompoundPacket
of_receiver r = record { sender_reports = []; receiver_reports = (0, r) ∷ [] }

is_rtcp-of_sender : (r : SenderReport) → is_rtcp (serialize_compound (of_sender r)) ≡ some true
unfolding serialize_compound
is_rtcp-of_sender r =
    is_rtcp_agrees (serialize (sender_report_packet (r ∷ [])) [])
    ∙ is_rtcp-serialize (sender_report_packet (r ∷ [])) []

is_rtcp-of_receiver :
    (r : ReceiverReport) → is_rtcp (serialize_compound (of_receiver r)) ≡ some true
unfolding serialize_compound
is_rtcp-of_receiver r =
    is_rtcp_agrees (serialize (receiver_report_packet 0 (r ∷ [])) [])
    ∙ is_rtcp-serialize (receiver_report_packet 0 (r ∷ [])) []

parse-of_sender :
    (r : SenderReport)
    → IsSenderReport r
    → RtcpParse.parse (serialize_compound (of_sender r))
      ≡ some (some (sender_report_packet (r ∷ [])))
parse-of_sender r h = parse-serialize_compound (of_sender r) ((h, tt), omega arith) (omega arith)

parse-of_receiver :
    (r : ReceiverReport)
    → IsReceiverReport r
    → RtcpParse.parse (serialize_compound (of_receiver r))
      ≡ some (some (receiver_report_packet 0 (r ∷ [])))
parse-of_receiver r h =
    parse-serialize_compound (of_receiver r) (omega arith) (omega arith, (h, tt), omega arith)

module _ (begin : List (ℕ × RtpStreamReceiver) → Option (ℕ × RtpStreamReceiver))
    (fractions : ℕ → ℕ) where
  receive_one_sender_report :
      (t : RtcTransport) (r : RtpStreamReceiver) (report : SenderReport) (now_ms : ℕ)
      → find_stream report.ssrc t.receivers ≡ some r
      → receive_sender_reports begin t (report ∷ []) now_ms
        ≡ some (record t {
          receivers =
              update_stream report.ssrc
                (receive_rtcp_sender_report r report.ntp_sec report.ntp_frac now_ms)
                t.receivers;
        })
  unfolding receive_sender_reports get_stream_receiver_by_ssrc
  receive_one_sender_report t r report now_ms e =
      rw (receive_sender_reports, get_stream_receiver_by_ssrc, e) refl

  receive_one_receiver_report :
      (t : RtcTransport) (s : RtpStreamSender) (report : ReceiverReport) (now_ms : ℕ)
      → find_stream report.ssrc t.senders ≡ some s
      → receive_receiver_reports begin fractions t (report ∷ []) now_ms ≡ record t {
        senders =
            update_stream report.ssrc
              (receive_rtcp_receiver_report fractions s report now_ms)
              t.senders;
      }
  unfolding receive_receiver_reports
  receive_one_receiver_report t s report now_ms e = rw (receive_receiver_reports, e) refl

  -- The report that a sender sends reaches the receiver that the peer has under its ssrc, with the
  -- sender's time as it was, and nothing else of the peer's transport changes.
  pub dispatch-send_sender_report :
      (s : RtpStreamSender) (t : RtcTransport) (r : RtpStreamReceiver) (sent_ms : ℕ)
      (created_at : ℕ → ℕ) (arrived_ms : ℕ)
      → find_stream s.ssrc t.receivers ≡ some r
      → s.ssrc < u32_mod
      → fractions sent_ms < u32_mod
      → dispatch begin fractions t (send_sender_report fractions s sent_ms) created_at arrived_ms
        ≡ some (
          record t {
            receivers =
                update_stream s.ssrc
                  (receive_rtcp_sender_report r
                    (sent_ms / 1000 % u32_mod)
                    (fractions sent_ms)
                    arrived_ms)
                  t.receivers;
          },
          [],
          [],
        )
  unfolding dispatch send_sender_report receive_rtcp_packet add_sender_report compound_size
      add_report get_rtcp_sender_report
  dispatch-send_sender_report s t r sent_ms created_at arrived_ms e h f =
      let report = get_rtcp_sender_report fractions s sent_ms in
      rw
        (
          is_rtcp-of_sender report,
          parse-of_sender report (sent-IsSenderReport fractions s sent_ms h f),
          receive_one_sender_report t r report arrived_ms e,
        )
        refl

  -- The report that a receiver sends reaches the sender that the peer has under its ssrc, as it was made,
  -- and nothing else of the peer's transport changes.
  pub dispatch-send_receiver_report :
      (round_quotient : ℕ → ℕ → ℕ) (r r' : RtpStreamReceiver) (report : ReceiverReport)
      (t : RtcTransport) (s : RtpStreamSender) (sent_ms : ℕ) (created_at : ℕ → ℕ) (arrived_ms : ℕ)
      → get_rtcp_receiver_report round_quotient r sent_ms ≡ some (r', report)
      → find_stream r.ssrc t.senders ≡ some s
      → r.ssrc < u32_mod
      → r.last_sr_timestamp < u32_mod
      → (send_receiver_report round_quotient r sent_ms >>= λ made.
          dispatch begin fractions t made.1 created_at arrived_ms)
        ≡ some (
          record t {
            senders =
                update_stream r.ssrc
                  (receive_rtcp_receiver_report fractions s report arrived_ms)
                  t.senders;
          },
          [],
          [],
        )
  unfolding dispatch send_receiver_report receive_rtcp_packet add_receiver_report compound_size
      add_report
  dispatch-send_receiver_report round_quotient r r' report t s sent_ms created_at arrived_ms m e h
        k =
      let made = made-IsReceiverReport round_quotient r r' report sent_ms m h k in
      rw
        (
          m,
          is_rtcp-of_receiver report,
          parse-of_receiver report made.0,
          receive_one_receiver_report t s report arrived_ms
              (ap (λ n. find_stream n t.senders) made.1 ∙ e),
          made.1,
        )
        refl
