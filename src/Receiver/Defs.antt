-- ===== src/Receiver/Defs.antt =====
-- `RtpStreamReceiver`: a stream, the NACK generator if the stream uses one, and the counters of the
-- report.
use bifrost_sdk.Base.{
  ℕ, ◌+◌, ◌-◌, ◌*◌, ◌/◌, ◌%◌, Bool, true, false, ltb, leb, ◌==◌, ◌||◌, if◌then◌else◌, Option, none,
  some, ◌>>=◌, List, [], u32_mod, sub32, add32, sub64,
}
use bifrost_sdk.Packet.{RtpPacket}
use bifrost_sdk.Stream.{RtpStream, receive_stream_packet, expected_packets}
use bifrost_sdk.Nack.Defs.{NackGenerator, Event}
use bifrost_sdk.Nack.Receive as NackReceive
use bifrost_sdk.Rate.Counter.{RtpDataCounter, update_counter}
use bifrost_sdk.Receiver.Report.{ℤ, pos, negsuc, ReceiverReport, set_total_lost}

-- `ssrc` is that of `params_`; `jitter_` is 0, since nothing writes it.
pub record RtpStreamReceiver : Type 0 where
  pub ssrc : ℕ
  pub stream : RtpStream
  pub nack_generator : Option NackGenerator
  pub media_transmission_counter : RtpDataCounter
  pub expected_prior : ℕ
  pub received_prior : ℕ
  pub reported_packet_lost : ℕ
  pub packets_lost : ℕ
  pub fraction_lost : ℕ
  pub last_sr_received : ℕ
  pub last_sr_timestamp : ℕ

-- The packet at the NACK generator.
unfoldable pub receive_nack :
    Option NackGenerator → ℕ → (ℕ → ℕ) → ℕ → Option (Option NackGenerator × List Event)
receive_nack none seq created_at now_ms = some (none, [])
receive_nack (some g) seq created_at now_ms =
    NackReceive.receive_packet g seq false created_at now_ms >>= λ r. some (some r.0, r.2)

-- `ReceivePacket`: the new state, whether the packet was accepted, and the calls that the NACK generator makes of its
-- listener. That listener is this class, whose methods for them are empty, so the calls go no further. The stream's
-- listener is handed each accepted packet, which is not a part of the result here.
unfoldable pub receive_packet :
    RtpStreamReceiver → RtpPacket → (ℕ → ℕ) → ℕ → Option (RtpStreamReceiver × Bool × List Event)
receive_packet r p created_at now_ms =
    let (s, accepted) = receive_stream_packet r.stream p now_ms in
    if accepted
    then (receive_nack r.nack_generator p.sequence_number created_at now_ms >>= λ n.
        update_counter r.media_transmission_counter p now_ms >>= λ c.
        some (
          record r { stream = s; nack_generator = n.0; media_transmission_counter = c },
          true,
          n.1,
        ))
    else some (record r { stream = s }, false, [])

-- A `uint32_t` as an `int32_t`.
abbrev pub to_signed : ℕ → ℤ
to_signed n = if ltb n 2147483648 then pos n else negsuc (4294967295 - n)

-- `packets_lost_` of the report. The difference of the counts is cut to 32 bits.
abbrev pub lost : ℕ → ℕ → ℕ
lost expected packets = if ltb packets expected then sub64 expected packets % u32_mod else 0

-- `dlsr`: milliseconds in units of 1/65536 seconds. The second part is below 2^16, so `|=` adds.
unfoldable pub delay_units : ℕ → ℕ
delay_units delay_ms = delay_ms / 1000 * 65536 % u32_mod + delay_ms % 1000 * 65536 / 1000

-- The last two fields of the report.
unfoldable pub since_sender_report : RtpStreamReceiver → ℕ → ℕ × ℕ
since_sender_report r now_ms =
    if r.last_sr_received == 0
    then (0, 0)
    else (r.last_sr_timestamp, delay_units (sub64 now_ms r.last_sr_received % u32_mod))

-- `round_quotient a b` is `std::round` of the quotient of two doubles.
module _ (round_quotient : ℕ → ℕ → ℕ) where
  -- `fraction_lost_` from the two intervals. A shift out of 31 bits is a fault, and so is the
  -- conversion of a value that one byte does not hold, which the language leaves undefined.
  unfoldable pub fraction : ℕ → ℕ → Option ℕ
  fraction expected_interval received_interval =
      let lost_interval = sub32 expected_interval received_interval in
      if expected_interval == 0 || (lost_interval == 0 || leb 2147483648 lost_interval)
      then some 0
      else (if leb 8388608 lost_interval
          then none
          else (if ltb 255 (round_quotient (lost_interval * 256) expected_interval)
              then none
              else some (round_quotient (lost_interval * 256) expected_interval)))

  -- `GetRtcpReceiverReport`
  unfoldable pub get_rtcp_receiver_report :
      RtpStreamReceiver → ℕ → Option (RtpStreamReceiver × ReceiverReport)
  get_rtcp_receiver_report r now_ms =
      let expected = expected_packets r.stream in
      let packets_lost = lost expected r.media_transmission_counter.packets in
      let reported = add32 r.reported_packet_lost (sub32 packets_lost r.packets_lost) in
      let (last_sr, delay) = since_sender_report r now_ms in
      fraction (sub32 expected r.expected_prior)
        (sub64 r.media_transmission_counter.packets r.received_prior % u32_mod)
      >>= λ fraction_lost. some (
        record r {
          packets_lost = packets_lost;
          expected_prior = expected;
          received_prior = r.media_transmission_counter.packets % u32_mod;
          fraction_lost = fraction_lost;
          reported_packet_lost = reported;
        },
        record {
          ssrc = r.ssrc;
          total_lost = set_total_lost (to_signed reported);
          fraction_lost = fraction_lost;
          last_seq = add32 r.stream.max_seq r.stream.cycles;
          jitter = 0;
          last_sender_report = last_sr;
          delay_since_last_sender_report = delay;
        },
      )

-- `ReceiveRtcpSenderReport`, with the seconds and the fraction of the report's NTP time. Two further
-- members that it sets are read nowhere.
unfoldable pub receive_rtcp_sender_report : RtpStreamReceiver → ℕ → ℕ → ℕ → RtpStreamReceiver
receive_rtcp_sender_report r ntp_sec ntp_frac now_ms = record r {
  last_sr_received = now_ms;
  last_sr_timestamp = add32 (ntp_sec * 65536 % u32_mod) (ntp_frac / 65536);
}
