-- ===== src/Receiver/Tests.antt =====
-- Reports of a small receiver.
use bifrost_sdk.Base.{ℕ, ◌*◌, ◌+◌, ◌/◌, ◌<◌, ◌≡◌, refl, true, none, arith}
use bifrost_sdk.Stream.{fresh, expected_packets}
use bifrost_sdk.Rate.Counter.{new_rtp_data_counter}
use bifrost_sdk.Receiver.Report.{negsuc, get_total_lost, set_total_lost, get_total_lost-set}
use bifrost_sdk.Receiver.Defs.{RtpStreamReceiver, get_rtcp_receiver_report}
use bifrost_sdk.Receiver.Loss.{IsNearest, report_of_all_lost}

-- Rounding of a quotient, halves upwards.
abbrev rounded : ℕ → ℕ → ℕ
rounded a b = (2 * a + b) / (2 * b)

-- Ten packets are expected, of which `packets` have come.
abbrev receiver : ℕ → RtpStreamReceiver
receiver packets = record {
  ssrc = 7;
  stream = record fresh { started = true; max_seq = 14; base_seq = 5 };
  nack_generator = none;
  media_transmission_counter = record new_rtp_data_counter { packets = packets };
  expected_prior = 0;
  received_prior = 0;
  reported_packet_lost = 0;
  packets_lost = 0;
  fraction_lost = 0;
  last_sr_received = 0;
  last_sr_timestamp = 0;
}

get_total_lost-set_example :
    (get_total_lost (set_total_lost (negsuc 4)) ≡ negsuc 4) × (set_total_lost (negsuc 4) < 16777216)
get_total_lost-set_example = get_total_lost-set (negsuc 4)

report_of_all_lost_example : get_rtcp_receiver_report rounded (receiver 0) 5 ≡ none
report_of_all_lost_example =
    report_of_all_lost rounded (receiver 0) 5 refl (unfold expected_packets in omega arith)
      (unfold expected_packets in omega arith)
      (unfold expected_packets IsNearest in (omega arith, omega arith))
