-- ===== src/Stream/Invariant.antt =====
-- The ranges of the fields of a stream, kept by every packet.
use bifrost_sdk.Base.{ℕ, ◌+◌, ◌%◌, ◌≤◌, ◌<◌, ◌≡◌, true, arith, u16_mod, u32_mod}
use bifrost_sdk.Packet.{RtpPacket}
use bifrost_sdk.Stream.{
  RtpStream, fresh, rtp_seq_mod, update_sequence, start, update_timestamp, receive_stream_packet,
}

pub record IsValid (s : RtpStream) : Type 0 where
  pub max_seq_in : s.max_seq < u16_mod
  pub cycles_in : s.cycles < u32_mod
  pub whole_cycles : s.cycles % rtp_seq_mod ≡ 0
  pub base_seq_in : s.base_seq < u16_mod
  pub bad_seq_in : s.bad_seq ≤ rtp_seq_mod + 1

pub fresh-IsValid : IsValid fresh
fresh-IsValid = omega arith

module _ (s : RtpStream) (p : RtpPacket) (now_ms : ℕ) where
  pub start-started : (start s p now_ms).started ≡ true
  unfolding start
  start-started = ground arith

  start-IsValid : p.sequence_number < u16_mod → IsValid s → IsValid (start s p now_ms)
  unfolding start
  start-IsValid h v = ground arith

  pub update_sequence-IsValid :
      p.sequence_number < u16_mod → IsValid s → IsValid (update_sequence s p now_ms).0
  unfolding update_sequence
  update_sequence-IsValid h v = ground arith

  update_timestamp-IsValid : IsValid s → IsValid (update_timestamp s p now_ms)
  unfolding update_timestamp
  update_timestamp-IsValid v = ground arith

-- Whatever is received, the counters stay in their ranges and `cycles` a whole number of cycles.
pub receive_stream_packet-IsValid :
    (s : RtpStream) (p : RtpPacket) (now_ms : ℕ)
    → p.sequence_number < u16_mod
    → IsValid s
    → IsValid (receive_stream_packet s p now_ms).0
unfolding receive_stream_packet
receive_stream_packet-IsValid s p now_ms h v = ground (
  arith,
  start-IsValid s p now_ms h v,
  update_sequence-IsValid (start s p now_ms) p now_ms h,
  update_timestamp-IsValid (update_sequence (start s p now_ms) p now_ms).0 p now_ms,
)
