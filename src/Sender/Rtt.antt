-- ===== src/Sender/Rtt.antt =====
-- The round trip time, over an exchange of reports.
use bifrost_sdk.Base.{
  ℕ, ◌+◌, ◌-◌, ◌*◌, ◌/◌, ◌%◌, ◌<◌, ◌≡◌, refl, ap, ◌∙◌, false, ◌==◌, some, u32_mod, u64_mod, add32,
  sub64, arith,
}
use bifrost_sdk.Receiver.Report.{ReceiverReport}
use bifrost_sdk.Receiver.Defs.{
  RtpStreamReceiver, delay_units, since_sender_report, get_rtcp_receiver_report,
  receive_rtcp_sender_report,
}
use bifrost_sdk.Sender.Defs.{
  RtpStreamSender, compact_ntp, compact_at, round_trip, receive_rtcp_receiver_report,
  get_rtcp_sender_report,
}

-- The middle bits of the time, and what a report says of it and of the delay.
round_trip_lem :
    (compact last_sr dlsr : ℕ)
    → compact < u32_mod
    → 0 < last_sr
    → 0 < dlsr
    → last_sr + dlsr < compact
    → round_trip compact last_sr dlsr ≡ compact - last_sr - dlsr
unfolding round_trip
round_trip_lem compact last_sr dlsr h p q l = ground arith

-- The fields of a report that was made say when the last sender report came.
report_fields :
    (round_quotient : ℕ → ℕ → ℕ) (r r' : RtpStreamReceiver) (report : ReceiverReport) (now_ms : ℕ)
    → get_rtcp_receiver_report round_quotient r now_ms ≡ some (r', report)
    → (report.last_sender_report ≡ (since_sender_report r now_ms).0)
      × (report.delay_since_last_sender_report ≡ (since_sender_report r now_ms).1)
unfolding get_rtcp_receiver_report
report_fields round_quotient r r' report now_ms e = ground arith

-- The middle bits that the receiver puts together are those of the sender's time.
stamp_lem :
    (sec frac : ℕ)
    → frac < u32_mod
    → add32 (sec * 65536 % u32_mod) (frac / 65536) ≡ compact_ntp sec frac
stamp_lem sec frac f = omega arith

compact_ntp_bound : (sec frac : ℕ) → frac < u32_mod → compact_ntp sec frac < u32_mod
compact_ntp_bound sec frac f = omega arith

since_receive :
    (r : RtpStreamReceiver) (sec frac arrived_ms delay_ms : ℕ)
    → frac < u32_mod
    → 0 < arrived_ms
    → arrived_ms + delay_ms < u64_mod
    → delay_ms < u32_mod
    → since_sender_report (receive_rtcp_sender_report r sec frac arrived_ms) (arrived_ms + delay_ms)
      ≡ (compact_ntp sec frac, delay_units delay_ms)
unfolding since_sender_report receive_rtcp_sender_report
since_receive r sec frac arrived_ms delay_ms f a w d =
    let e : (arrived_ms == 0) ≡ false = ground arith in
    let i : sub64 (arrived_ms + delay_ms) arrived_ms % u32_mod ≡ delay_ms = omega arith in
    rw (e, i, stamp_lem sec frac f) refl

-- A sender makes its report at the time sent_ms; the receiver takes it at arrived_ms, by its own clock,
-- and makes a report delay_ms later; the sender takes that at returned_ms. Unless the middle bits of the
-- sender's time are 0 or wrap on the way, the round trip time is what passed at the sender, less the
-- receiver's delay in the same units.
pub rtt_of_exchange :
    (fractions : ℕ → ℕ) (round_quotient : ℕ → ℕ → ℕ) (s : RtpStreamSender)
    (r r' : RtpStreamReceiver) (report : ReceiverReport)
    (sent_ms arrived_ms delay_ms returned_ms : ℕ)
    → fractions sent_ms < u32_mod
    → fractions returned_ms < u32_mod
    → 0 < arrived_ms
    → arrived_ms + delay_ms < u64_mod
    → delay_ms < u32_mod
    → 0 < delay_units delay_ms
    → 0 < compact_at fractions sent_ms
    → compact_at fractions sent_ms + delay_units delay_ms < compact_at fractions returned_ms
    → get_rtcp_receiver_report round_quotient
        (receive_rtcp_sender_report r
          (get_rtcp_sender_report fractions s sent_ms).ntp_sec
          (get_rtcp_sender_report fractions s sent_ms).ntp_frac
          arrived_ms)
        (arrived_ms + delay_ms)
      ≡ some (r', report)
    → (receive_rtcp_receiver_report fractions s report returned_ms).rtt
      ≡ compact_at fractions returned_ms - compact_at fractions sent_ms - delay_units delay_ms
unfolding get_rtcp_sender_report receive_rtcp_receiver_report
rtt_of_exchange fractions round_quotient s r r' report sent_ms arrived_ms delay_ms returned_ms f g a
      w d p q l e =
    let fields =
      report_fields round_quotient
        (receive_rtcp_sender_report r (sent_ms / 1000 % u32_mod) (fractions sent_ms) arrived_ms) r'
        report (arrived_ms + delay_ms) e in
    let since =
      since_receive r (sent_ms / 1000 % u32_mod) (fractions sent_ms) arrived_ms delay_ms f a w d in
    let last_sr = fields.0 ∙ ap (λ t. t.0) since in
    let delay = fields.1 ∙ ap (λ t. t.1) since in
    rw (last_sr, delay)
      (round_trip_lem (compact_at fractions returned_ms) (compact_at fractions sent_ms)
        (delay_units delay_ms)
        (compact_ntp_bound (returned_ms / 1000 % u32_mod) (fractions returned_ms) g) q p l)
