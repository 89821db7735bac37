-- ===== src/Stream/Tests.antt =====
-- The stream at concrete packets.
use bifrost_sdk.Base.{ℕ, ◌+◌, ◌≡◌, ◌≢◌, ◌↔◌, refl, true, false, [], ◌∷◌, arith}
use bifrost_sdk.Seq.{is_seq_higher_than}
use bifrost_sdk.Packet.{RtpPacket}
use bifrost_sdk.Stream.{
  RtpStream, fresh, rtp_seq_mod, start, update_sequence, update_timestamp, receive_stream_packet,
  expected_packets,
}
use bifrost_sdk.Stream.Invariant.{IsValid}
use bifrost_sdk.Stream.Unwrap.{receive_all, expected_packets-consecutive}
use bifrost_sdk.Stream.Resync.{receive_rejects, rejected, IsFar, resync}

abbrev packet : ℕ → RtpPacket
packet seq = record {
  payload_type = 100;
  sequence_number = seq;
  timestamp = 3000;
  ssrc = 7;
  size = 1000;
}

-- A stream in its second cycle, that has seen 65534 last.
abbrev running : RtpStream
running = record fresh { started = true; max_seq = 65534; cycles = 65536; base_seq = 9 }

running-IsValid : IsValid running
running-IsValid = omega arith

receive_wrap : (receive_stream_packet running (packet 1) 5).0.cycles ≡ 131072
unfolding receive_stream_packet start update_sequence update_timestamp is_seq_higher_than
receive_wrap = refl

expected_packets-consecutive_example :
    let (s, accepted) =
      receive_all fresh ((packet 65535, 1) ∷ (packet 0, 2) ∷ (packet 1, 3) ∷ []) in
    (accepted ≡ 3) × (expected_packets s ≡ 3)
expected_packets-consecutive_example =
    expected_packets-consecutive (packet 65535) 1 ((packet 0, 2) ∷ (packet 1, 3) ∷ []) (omega arith)
      (refl, (refl, tt)) (omega arith)

receive_rejects_example :
    ((receive_stream_packet running (packet 20000) 5).1 ≡ false
      ↔ IsFar running (packet 20000) × ((packet 20000).sequence_number ≢ 0))
    × ((receive_stream_packet running (packet 20000) 5).1 ≡ false
        → (receive_stream_packet running (packet 20000) 5).0 ≡ rejected running (packet 20000))
receive_rejects_example = receive_rejects running (packet 20000) 5 refl

resync_example :
    let first = receive_stream_packet running (packet 20000) 5 in
    let (s', accepted) = receive_stream_packet first.0 (packet 20001) 6 in
    (accepted ≡ true)
    × (s'.base_seq ≡ 20001)
    × (s'.max_seq ≡ 20001)
    × (s'.bad_seq ≡ rtp_seq_mod + 1)
    × (s'.cycles ≡ 65536)
    × (expected_packets s' ≡ 65537)
resync_example =
    resync running (packet 20000) (packet 20001) 5 6 running-IsValid refl (omega arith)
      (omega arith) refl (omega arith)
