-- ===== src/Receiver/Loss.antt =====
-- The numbers in a receiver report.
use bifrost_sdk.Base.{
  ℕ, ◌+◌, ◌-◌, ◌*◌, ◌/◌, ◌%◌, ◌≤◌, ◌<◌, ◌≡◌, refl, ap, none, ◌⊎◌, inl, inr, u32_mod, sub32, add32,
  sub64, arith,
}
use bifrost_sdk.Stream.{expected_packets}
use bifrost_sdk.Receiver.Report.{ReceiverReport, get_total_lost, clamped}
use bifrost_sdk.Receiver.Defs.{
  RtpStreamReceiver, to_signed, lost, delay_units, fraction, get_rtcp_receiver_report,
}

-- For delays below 18 hours, the units of 1/65536 seconds are those of the whole delay, rounded
-- down: the split into seconds and the rest loses nothing.
pub delay_units_lem :
    (delay_ms : ℕ) → delay_ms < 65536000 → delay_units delay_ms ≡ delay_ms * 65536 / 1000
unfolding delay_units
delay_units_lem delay_ms h = omega arith

-- r is a nearest number to the quotient of a and b.
unfoldable pub IsNearest : ℕ → ℕ → ℕ → Type 0
IsNearest a b r = (2 * (b * r) ≤ 2 * a + b) × (2 * a ≤ 2 * (b * r) + b)

split : (r : ℕ) → (r ≤ 255) ⊎ (255 < r)
split r = omega arith

-- Every loss that was counted has been reported.
unfoldable pub IsAccounted : RtpStreamReceiver → Type 0
IsAccounted r = (r.reported_packet_lost ≡ r.packets_lost) × (r.packets_lost < u32_mod)

-- The packets expected and received since the last report.
abbrev pub expected_interval : RtpStreamReceiver → ℕ
expected_interval r = sub32 (expected_packets r.stream) r.expected_prior

abbrev pub received_interval : RtpStreamReceiver → ℕ
received_interval r = sub64 r.media_transmission_counter.packets r.received_prior % u32_mod

abbrev pub lost_interval : RtpStreamReceiver → ℕ
lost_interval r = sub32 (expected_interval r) (received_interval r)

-- The report, and the receiver after it, are those of the receiver r.
unfoldable pub IsReportOf : RtpStreamReceiver → RtpStreamReceiver × ReceiverReport → Type 0
IsReportOf r (r', report) =
    IsAccounted r'
    × (r'.expected_prior ≡ expected_packets r.stream)
    × (r'.received_prior ≡ r.media_transmission_counter.packets % u32_mod)
    × (get_total_lost report.total_lost
        ≡ clamped
            (to_signed (lost (expected_packets r.stream) r.media_transmission_counter.packets)))
    × (report.last_seq ≡ add32 r.stream.max_seq r.stream.cycles)
    × IsNearest (lost_interval r * 256) (expected_interval r) report.fraction_lost

more_than_byte : (b r : ℕ) → 0 < b → IsNearest (b * 256) b r → 255 < r
unfolding IsNearest
more_than_byte b r p n = elim (split r) [
  | inr h ↦ h
  | inl h ↦
      let e : r + (255 - r) ≡ 255 = omega arith in
      let m : b * (r + (255 - r)) ≡ b * r + b * (255 - r) = omega arith in
      absurd (omega (arith, m, ap (λ x. b * x) e))
]

fraction_of_all :
    (round_quotient : ℕ → ℕ → ℕ) (e i : ℕ)
    → i ≡ 0
    → 0 < e
    → e < 8388608
    → IsNearest (e * 256) e (round_quotient (e * 256) e)
    → fraction round_quotient e i ≡ none
unfolding fraction
fraction_of_all round_quotient e i z p h n =
    let l : sub32 e i ≡ e = omega arith in
    let b = more_than_byte e (round_quotient (e * 256) e) p n in rw l (ground arith)

-- With every packet lost since the last report, and fewer than 2^23, the fraction is 256 of 256: the
-- report converts it to one byte, which cannot hold it, and faults.
pub report_of_all_lost :
    (round_quotient : ℕ → ℕ → ℕ) (r : RtpStreamReceiver) (now_ms : ℕ)
    → received_interval r ≡ 0
    → 0 < expected_interval r
    → expected_interval r < 8388608
    → IsNearest
        (expected_interval r * 256)
        (expected_interval r)
        (round_quotient (expected_interval r * 256) (expected_interval r))
    → get_rtcp_receiver_report round_quotient r now_ms ≡ none
unfolding get_rtcp_receiver_report
report_of_all_lost round_quotient r now_ms z p h n =
    rw (fraction_of_all round_quotient (expected_interval r) (received_interval r) z p h n) refl
