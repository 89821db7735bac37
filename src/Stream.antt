-- ===== src/Stream.antt =====
-- core/src/rtc/rtp_stream.cpp: what a stream knows of the sequence numbers that it has received.
-- The reading of the clock that a call makes is an argument, `now_ms`.
pub mod Invariant
pub mod Unwrap
pub mod Resync
mod Tests
use bifrost_sdk.Base.{
  ℕ, ◌+◌, ◌-◌, ◌%◌, Bool, true, false, ltb, leb, ◌==◌, if◌then◌else◌, u32_mod, sub16, add32, add64,
  sub32,
}
use bifrost_sdk.Seq.{is_seq_higher_than}
use bifrost_sdk.Packet.{RtpPacket}

abbrev pub max_dropout : ℕ
max_dropout = 3000

abbrev pub max_misorder : ℕ
max_misorder = 1500

abbrev pub rtp_seq_mod : ℕ
rtp_seq_mod = 65536

pub record RtpStream : Type 0 where
  pub started : Bool
  pub max_seq : ℕ
  pub cycles : ℕ
  pub base_seq : ℕ
  pub bad_seq : ℕ
  pub max_packet_ts : ℕ
  pub max_packet_ms : ℕ
  pub packets_discarded : ℕ

-- The state that the member initialisers give.
abbrev pub fresh : RtpStream
fresh = record {
  started = false;
  max_seq = 0;
  cycles = 0;
  base_seq = 0;
  bad_seq = 0;
  max_packet_ts = 0;
  max_packet_ms = 0;
  packets_discarded = 0;
}

unfoldable pub init_sequence : RtpStream → ℕ → RtpStream
init_sequence s seq = record s { base_seq = seq; max_seq = seq; bad_seq = rtp_seq_mod + 1 }

-- The three branches on `udelta`. The result is the new state and whether the packet is accepted.
unfoldable pub update_sequence : RtpStream → RtpPacket → ℕ → RtpStream × Bool
unfolding init_sequence
update_sequence s p now_ms =
    if ltb udelta max_dropout
    then (
      record s {
        cycles = if ltb seq s.max_seq then add32 s.cycles rtp_seq_mod else s.cycles;
        max_seq = seq;
      },
      true,
    )
    else (if leb udelta (rtp_seq_mod - max_misorder)
        then (if seq == s.bad_seq
            then (
              record (init_sequence s seq) { max_packet_ts = p.timestamp; max_packet_ms = now_ms },
              true,
            )
            else (
              record s {
                bad_seq = (seq + 1) % rtp_seq_mod;
                packets_discarded = add64 s.packets_discarded 1;
              },
              false,
            ))
        else (s, true))
  where
    seq : ℕ
    seq = p.sequence_number

    udelta : ℕ
    udelta = sub16 p.sequence_number s.max_seq

-- The part of `ReceiveStreamPacket` before `UpdateSequence`.
unfoldable pub start : RtpStream → RtpPacket → ℕ → RtpStream
unfolding init_sequence
start s p now_ms = if s.started then s else record (init_sequence s p.sequence_number) {
  started = true;
  max_seq = sub16 p.sequence_number 1;
  max_packet_ts = p.timestamp;
  max_packet_ms = now_ms;
}

-- The part after it, which runs for an accepted packet.
unfoldable pub update_timestamp : RtpStream → RtpPacket → ℕ → RtpStream
update_timestamp s p now_ms =
    if is_seq_higher_than (u32_mod - 1) p.timestamp s.max_packet_ts
    then record s { max_packet_ts = p.timestamp; max_packet_ms = now_ms }
    else s

unfoldable pub receive_stream_packet : RtpStream → RtpPacket → ℕ → RtpStream × Bool
receive_stream_packet s p now_ms =
    let (s', accepted) = update_sequence (start s p now_ms) p now_ms in
    if accepted then (update_timestamp s' p now_ms, true) else (s', false)

-- `RtpStreamReceiver::GetExpectedPackets`
unfoldable pub expected_packets : RtpStream → ℕ
expected_packets s = add32 (sub32 (add32 s.cycles s.max_seq) s.base_seq) 1
