-- ===== src/Sender/Tests.antt =====
-- The sender at concrete packets and reports.
use bifrost_sdk.Base.{ℕ, ◌≡◌, refl, true, some, none, [], ◌∷◌, arith, length, Returns, ◌>>=◌}
use bifrost_sdk.Seq.{is_seq_lower_than, is_seq_higher_than}
use bifrost_sdk.Packet.{RtpPacket}
use bifrost_sdk.Stream.{fresh, start, update_sequence, update_timestamp, receive_stream_packet}
use bifrost_sdk.Retransmission.Defs.{
  Slots, RetransmissionBuffer, new_item, get_oldest, get_newest, get,
}
use bifrost_sdk.Retransmission.Slots.{Shape}
use bifrost_sdk.Rate.Counter.{new_rtp_data_counter, new_rtp_data_counter-IsReady}
use bifrost_sdk.Sender.Defs.{
  RtpStreamSender, is_recent, fill_retransmission_container, receive_packet, receive_nack,
}
use bifrost_sdk.Sender.Requested.{requested_numbers, sent_again}
use bifrost_sdk.Sender.Fill.{fill_retransmission_container_lem}
use bifrost_sdk.Sender.Repair.{request, resend_stored}

abbrev packet : ℕ → ℕ → RtpPacket
packet seq timestamp = record {
  payload_type = 100;
  sequence_number = seq;
  timestamp = timestamp;
  ssrc = 7;
  size = 1000;
}

-- 65534, which was sent again at 990 ms, a blank slot and 0.
abbrev slots : Slots
slots =
    some (record (new_item (packet 65534 1000)) { resent_at_ms = 990; sent_times = 1 })
    ∷ none
    ∷ some (new_item (packet 0 2000))
    ∷ []

fill_retransmission_container_lem_example :
    Returns (fill_retransmission_container 1000 100 slots 65534 6) (λ (ys, packets).
      (packets ≡ sent_again 1000 100 slots (requested_numbers 65534 6))
      × Shape ys
      × (length ys ≡ 3))
fill_retransmission_container_lem_example =
    fill_retransmission_container_lem 1000 100 slots 65534 6 (omega arith) (omega arith)
      (omega arith)

-- The packet 0 is sent again, 65534 is not, and 1 is not there.
sent_again_recent : sent_again 1000 100 slots (requested_numbers 65534 6) ≡ packet 0 2000 ∷ []
unfolding sent_again get get_oldest is_seq_lower_than is_recent
sent_again_recent = refl

abbrev buffer : RetransmissionBuffer
buffer = record {
  buffer = slots;
  max_items = 4;
  max_retransmission_delay_ms = 1000;
  clock_rate = 90000;
}

abbrev sender : RtpStreamSender
sender = record {
  stream = record fresh { started = true; max_seq = 0; cycles = 65536; base_seq = 9 };
  retransmission_buffer = some buffer;
  ssrc = 7;
  clock_rate = 90000;
  wait_transmission_counter = new_rtp_data_counter;
  nack_count = 0;
  nack_packet_count = 0;
  rtt = 0;
  packets_lost = 0;
  fraction_lost = 0;
}

resend_stored_example :
    Returns
      (receive_packet sender (packet 3 4000) 1000 >>= λ r.
        receive_nack (λ n. n) (λ n. 0) r.0 (request 3 ∷ []) 1200)
      (λ r. r.1 ≡ packet 3 4000 ∷ [])
unfolding receive_stream_packet start update_sequence update_timestamp get_newest is_seq_higher_than
    is_seq_lower_than
resend_stored_example =
    resend_stored (λ n. n) (λ n. 0) sender buffer (packet 3 4000) (new_item (packet 0 2000)) 1000
      1200 refl (omega arith) (omega arith) refl (omega arith) (omega arith) refl
      (new_rtp_data_counter-IsReady 1000 1000 (omega arith) (omega arith)) refl refl (omega arith)
