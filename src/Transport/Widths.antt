-- ===== src/Transport/Widths.antt =====
-- The fields of the reports that are made stay within their widths.
use bifrost_sdk.Base.{ℕ, ◌%◌, ◌<◌, ◌≡◌, some, u32_mod, add32, sub32, sub64, arith}
use bifrost_sdk.Receiver.Report.{ReceiverReport, get_total_lost-set}
use bifrost_sdk.Stream.{expected_packets}
use bifrost_sdk.Receiver.Defs.{
  lost, to_signed, RtpStreamReceiver, delay_units, fraction, since_sender_report,
  get_rtcp_receiver_report,
}
use bifrost_sdk.Sender.Defs.{RtpStreamSender, get_rtcp_sender_report}
use bifrost_sdk.Rtcp.Safety.{IsSenderReport, IsReceiverReport}

-- The report of a sender has fields within their widths, and so has that of a receiver.
pub sent-IsSenderReport :
    (fractions : ℕ → ℕ) (s : RtpStreamSender) (now_ms : ℕ)
    → s.ssrc < u32_mod
    → fractions now_ms < u32_mod
    → IsSenderReport (get_rtcp_sender_report fractions s now_ms)
unfolding get_rtcp_sender_report
sent-IsSenderReport fractions s now_ms h f =
    (h, omega arith, f, omega arith, omega arith, omega arith)

fraction_byte :
    (round_quotient : ℕ → ℕ → ℕ) (a b n : ℕ) → fraction round_quotient a b ≡ some n → n < 256
unfolding fraction
fraction_byte round_quotient a b n e = ground arith

delay_units_bound : (ms : ℕ) → delay_units ms < u32_mod
unfolding delay_units
delay_units_bound ms = omega arith

since_bound :
    (r : RtpStreamReceiver) (now_ms : ℕ)
    → r.last_sr_timestamp < u32_mod
    → ((since_sender_report r now_ms).0 < u32_mod) × ((since_sender_report r now_ms).1 < u32_mod)
unfolding since_sender_report
since_bound r now_ms h =
    ground (arith, delay_units_bound (sub64 now_ms r.last_sr_received % u32_mod))

-- The report that a receiver makes is well-formed, and names the receiver's stream.
pub made-IsReceiverReport :
    (round_quotient : ℕ → ℕ → ℕ) (r r' : RtpStreamReceiver) (report : ReceiverReport) (now_ms : ℕ)
    → get_rtcp_receiver_report round_quotient r now_ms ≡ some (r', report)
    → r.ssrc < u32_mod
    → r.last_sr_timestamp < u32_mod
    → IsReceiverReport report × (report.ssrc ≡ r.ssrc)
unfolding get_rtcp_receiver_report
made-IsReceiverReport round_quotient r r' report now_ms e h k =
    let expected = expected_packets r.stream in
    let reported =
      add32 r.reported_packet_lost
        (sub32 (lost expected r.media_transmission_counter.packets) r.packets_lost) in
    ground (
      arith,
      fraction_byte round_quotient (sub32 expected r.expected_prior)
          (sub64 r.media_transmission_counter.packets r.received_prior % u32_mod)
          report.fraction_lost,
      (get_total_lost-set (to_signed reported)).1,
      since_bound r now_ms k,
    )
