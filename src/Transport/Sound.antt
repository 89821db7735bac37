-- ===== src/Transport/Sound.antt =====
-- What holds of every stream in the tables of a client, and what the methods of a stream keep of it.
use bifrost_sdk.Base.{
  ℕ, ◌<◌, ◌≡◌, refl, Option, none, some, u16_mod, u32_mod, arith, Ensures, Ensures-all,
  Ensures-bind, Ensures-Returns, Ensures-map, Bool-cases, inl, inr, true, false,
}
use bifrost_sdk.Packet.{RtpPacket}
use bifrost_sdk.Stream.{receive_stream_packet}
use bifrost_sdk.Stream.Invariant.{IsValid, fresh-IsValid, receive_stream_packet-IsValid}
use bifrost_sdk.Nack.Defs.{NackGenerator}
use bifrost_sdk.Nack.Receive.{on_timer}
use bifrost_sdk.Nack.Receive as NackReceive
use bifrost_sdk.Nack.Limits.{IsWithinLimits, receive_packet-IsWithinLimits, on_timer-IsWithinLimits}
use bifrost_sdk.Receiver.Defs.{
  RtpStreamReceiver, receive_nack, receive_rtcp_sender_report, get_rtcp_receiver_report,
}
use bifrost_sdk.Receiver.Defs as ReceiverDefs
use bifrost_sdk.Rate.Counter.{update_counter}
use bifrost_sdk.Receiver.Report.{ReceiverReport}
use bifrost_sdk.Sender.Defs.{RtpStreamSender, new_rtp_stream_sender, receive_rtcp_receiver_report}
use bifrost_sdk.Sender.Defs as SenderDefs
use bifrost_sdk.Transport.Defs.{new_rtp_stream_receiver}

abbrev pub HasLimits : Option NackGenerator → Type 0
HasLimits none = Unit {0}
HasLimits (some g) = IsWithinLimits g

-- A receiver under its number: the number is its own, its stream has counters within their ranges, its
-- generator keeps to its limits.
pub record IsSoundReceiver (ssrc : ℕ) (r : RtpStreamReceiver) : Type 0 where
  pub same_ssrc : r.ssrc ≡ ssrc
  pub ssrc_in : ssrc < u32_mod
  pub stream_valid : IsValid r.stream
  pub limits : HasLimits r.nack_generator
  pub timestamp_in : r.last_sr_timestamp < u32_mod

pub record IsSoundSender (ssrc : ℕ) (s : RtpStreamSender) : Type 0 where
  pub same_ssrc : s.ssrc ≡ ssrc
  pub ssrc_in : ssrc < u32_mod
  pub stream_valid : IsValid s.stream

pub new-IsSoundReceiver :
    (ssrc : ℕ) → ssrc < u32_mod → IsSoundReceiver ssrc (new_rtp_stream_receiver ssrc)
new-IsSoundReceiver ssrc h = record {
  same_ssrc = refl;
  ssrc_in = h;
  stream_valid = fresh-IsValid;
  limits = (omega arith, tt);
  timestamp_in = omega arith;
}

pub new-IsSoundSender :
    (ssrc clock_rate : ℕ)
    → ssrc < u32_mod
    → IsSoundSender ssrc (new_rtp_stream_sender true ssrc clock_rate)
unfolding new_rtp_stream_sender
new-IsSoundSender ssrc clock_rate h = record {
  same_ssrc = refl;
  ssrc_in = h;
  stream_valid = fresh-IsValid;
}

receive_nack-HasLimits :
    (g : Option NackGenerator) (seq : ℕ) (created_at : ℕ → ℕ) (now_ms : ℕ)
    → HasLimits g
    → Ensures (receive_nack g seq created_at now_ms) (λ n. HasLimits n.0)
unfolding receive_nack
receive_nack-HasLimits none seq created_at now_ms h = tt
receive_nack-HasLimits (some g) seq created_at now_ms h =
    Ensures-bind (NackReceive.receive_packet g seq false created_at now_ms) _ _ (
      Ensures-Returns (NackReceive.receive_packet g seq false created_at now_ms) _
        (receive_packet-IsWithinLimits g seq false created_at now_ms h))

module _ (ssrc : ℕ) (p : RtpPacket) (now_ms : ℕ) (h : p.sequence_number < u16_mod) where
  pub received-IsSoundReceiver :
      (r : RtpStreamReceiver) (created_at : ℕ → ℕ)
      → IsSoundReceiver ssrc r
      → Ensures (ReceiverDefs.receive_packet r p created_at now_ms) (λ n. IsSoundReceiver ssrc n.0)
  unfolding ReceiverDefs.receive_packet
  received-IsSoundReceiver r created_at v =
      let stream = receive_stream_packet-IsValid r.stream p now_ms h v.stream_valid in
      elim (Bool-cases (receive_stream_packet r.stream p now_ms).1) [
        | inl e ↦ rw e (
            Ensures-bind (receive_nack r.nack_generator p.sequence_number created_at now_ms) _ _ (
              Ensures-map (receive_nack r.nack_generator p.sequence_number created_at now_ms) _ _
                (receive_nack-HasLimits r.nack_generator p.sequence_number created_at now_ms
                  v.limits)
                λ n _ l. Ensures-bind (update_counter r.media_transmission_counter p now_ms) _ _ (
                  Ensures-all (update_counter r.media_transmission_counter p now_ms) _ λ c. record {
                    same_ssrc = v.same_ssrc;
                    ssrc_in = v.ssrc_in;
                    stream_valid = stream;
                    limits = l;
                    timestamp_in = v.timestamp_in;
                  })))
        | inr e ↦ rw e record {
          same_ssrc = v.same_ssrc;
          ssrc_in = v.ssrc_in;
          stream_valid = stream;
          limits = v.limits;
          timestamp_in = v.timestamp_in;
        }
      ]

  pub received-IsSoundSender :
      (s : RtpStreamSender)
      → IsSoundSender ssrc s
      → Ensures (SenderDefs.receive_packet s p now_ms) (λ n. IsSoundSender ssrc n.0)
  unfolding SenderDefs.receive_packet
  received-IsSoundSender s v =
      let stream = receive_stream_packet-IsValid s.stream p now_ms h v.stream_valid in
      elim (Bool-cases (receive_stream_packet s.stream p now_ms).1) [
        | inl e ↦ rw e (
            Ensures-bind (SenderDefs.store_if_nack s.retransmission_buffer p) _ _ (
              Ensures-all (SenderDefs.store_if_nack s.retransmission_buffer p) _ λ b.
                Ensures-bind (update_counter s.wait_transmission_counter p now_ms) _ _ (
                  Ensures-all (update_counter s.wait_transmission_counter p now_ms) _ λ c. record {
                    same_ssrc = v.same_ssrc;
                    ssrc_in = v.ssrc_in;
                    stream_valid = stream;
                  })))
        | inr e ↦
            rw e record { same_ssrc = v.same_ssrc; ssrc_in = v.ssrc_in; stream_valid = stream }
      ]

module _ (ssrc : ℕ) (r : RtpStreamReceiver) (now_ms : ℕ) (v : IsSoundReceiver ssrc r) where
  pub told-IsSoundReceiver :
      (ntp_sec ntp_frac : ℕ)
      → IsSoundReceiver ssrc (receive_rtcp_sender_report r ntp_sec ntp_frac now_ms)
  unfolding receive_rtcp_sender_report
  told-IsSoundReceiver ntp_sec ntp_frac = ground (arith, v)

  pub reported-IsSoundReceiver :
      (round_quotient : ℕ → ℕ → ℕ)
      → Ensures (get_rtcp_receiver_report round_quotient r now_ms) (λ m. IsSoundReceiver ssrc m.0)
  unfolding get_rtcp_receiver_report
  reported-IsSoundReceiver round_quotient = ground (arith, v)

  pub timed-IsSoundReceiver :
      (g : NackGenerator)
      → r.nack_generator ≡ some g
      → IsSoundReceiver ssrc (record r { nack_generator = some (on_timer g now_ms).0 })
  timed-IsSoundReceiver g e = ground (arith, v, on_timer-IsWithinLimits g now_ms)

pub told-IsSoundSender :
    (fractions : ℕ → ℕ) (ssrc : ℕ) (s : RtpStreamSender) (report : ReceiverReport) (now_ms : ℕ)
    → IsSoundSender ssrc s
    → IsSoundSender ssrc (receive_rtcp_receiver_report fractions s report now_ms)
unfolding receive_rtcp_receiver_report
told-IsSoundSender fractions ssrc s report now_ms v = ground (arith, v)
