-- ===== src/Stream/Resync.antt =====
-- Packets whose number is far from the last one: two in a row restart the count.
use bifrost_sdk.Base.{
  ℕ, ◌+◌, ◌-◌, ◌%◌, ◌≤◌, ◌≡◌, ◌≢◌, ◌↔◌, ap, true, false, arith, u16_mod, u32_mod, sub16, add64,
}
use bifrost_sdk.Packet.{RtpPacket}
use bifrost_sdk.Stream.{
  RtpStream, max_dropout, max_misorder, rtp_seq_mod, update_sequence, receive_stream_packet,
  expected_packets,
}
use bifrost_sdk.Stream.Invariant.{IsValid}
use bifrost_sdk.Stream.Unwrap.{start_of_started, update_timestamp_keeps}

-- The packet's number is neither close ahead nor an acceptable misorder.
abbrev pub IsFar : RtpStream → RtpPacket → Type 0
IsFar s p =
    (max_dropout ≤ sub16 p.sequence_number s.max_seq)
    × (sub16 p.sequence_number s.max_seq ≤ rtp_seq_mod - max_misorder)

-- The stream after it has rejected a packet.
abbrev pub rejected : RtpStream → RtpPacket → RtpStream
rejected s p = record s {
  bad_seq = (p.sequence_number + 1) % rtp_seq_mod;
  packets_discarded = add64 s.packets_discarded 1;
}

module _ (s : RtpStream) (p : RtpPacket) (now_ms : ℕ) where
  update_far :
      IsFar s p → p.sequence_number ≢ s.bad_seq → update_sequence s p now_ms ≡ (rejected s p, false)
  unfolding update_sequence
  update_far f ne = ground arith

  update_resync :
      IsFar s p
      → p.sequence_number ≡ s.bad_seq
      → let (s', accepted) = update_sequence s p now_ms in
        (accepted ≡ true)
        × (s'.base_seq ≡ p.sequence_number)
        × (s'.max_seq ≡ p.sequence_number)
        × (s'.bad_seq ≡ rtp_seq_mod + 1)
        × (s'.cycles ≡ s.cycles)
  unfolding update_sequence
  update_resync f e = ground arith

  update_rejected-IsFar :
      (update_sequence s p now_ms).1 ≡ false → IsFar s p × (p.sequence_number ≢ s.bad_seq)
  unfolding update_sequence
  update_rejected-IsFar h = ground arith

  receive_far :
      s.started ≡ true
      → IsFar s p
      → p.sequence_number ≢ s.bad_seq
      → receive_stream_packet s p now_ms ≡ (rejected s p, false)
  unfolding receive_stream_packet
  receive_far st f ne = rw (start_of_started s p now_ms st, update_far f ne)

  receive_rejected-IsFar :
      s.started ≡ true
      → (receive_stream_packet s p now_ms).1 ≡ false
      → IsFar s p × (p.sequence_number ≢ s.bad_seq)
  unfolding receive_stream_packet
  receive_rejected-IsFar st h =
      let e = start_of_started s p now_ms st in ground (arith, e, update_rejected-IsFar)

-- A running stream rejects a packet exactly when it is far and is not the one that follows the last
-- rejected packet. The rejection counts it, and remembers the number that would follow it; nothing
-- else of the stream changes.
pub receive_rejects :
    (s : RtpStream) (p : RtpPacket) (now_ms : ℕ)
    → s.started ≡ true
    → ((receive_stream_packet s p now_ms).1 ≡ false ↔ IsFar s p × (p.sequence_number ≢ s.bad_seq))
      × ((receive_stream_packet s p now_ms).1 ≡ false
          → (receive_stream_packet s p now_ms).0 ≡ rejected s p)
receive_rejects s p now_ms st = (
  (receive_rejected-IsFar s p now_ms st, λ h. ap (λ r. r.1) (receive_far s p now_ms st h.0 h.1)),
  λ h.
      let far = receive_rejected-IsFar s p now_ms st h in
      ap (λ r. r.0) (receive_far s p now_ms st far.0 far.1),
)

-- The packet that follows a rejected one, if it is far too, is accepted and restarts the stream at
-- its number. The count of cycles is not restarted with it: the stream then expects one packet for
-- each number of the past cycles, besides the one received.
pub resync :
    (s : RtpStream) (p q : RtpPacket) (now_ms later_ms : ℕ)
    → IsValid s
    → s.started ≡ true
    → IsFar s p
    → p.sequence_number ≢ s.bad_seq
    → q.sequence_number ≡ (p.sequence_number + 1) % u16_mod
    → IsFar s q
    → let (s', accepted) = receive_stream_packet (receive_stream_packet s p now_ms).0 q later_ms in
      (accepted ≡ true)
      × (s'.base_seq ≡ q.sequence_number)
      × (s'.max_seq ≡ q.sequence_number)
      × (s'.bad_seq ≡ rtp_seq_mod + 1)
      × (s'.cycles ≡ s.cycles)
      × (expected_packets s' ≡ (s.cycles + 1) % u32_mod)
unfolding receive_stream_packet expected_packets
resync s p q now_ms later_ms v st f ne e g = rw (receive_far s p now_ms st f ne) (
    rw (start_of_started (rejected s p) q later_ms st) (
      ground (
        arith,
        update_resync (rejected s p) q later_ms g e,
        update_timestamp_keeps (update_sequence (rejected s p) q later_ms).0 q later_ms,
      )))
