-- ===== src/Stream/Unwrap.antt =====
-- `cycles + max_seq` is the sequence number with the wrap-around undone.
use bifrost_sdk.Base.{
  ℕ, suc, ◌+◌, ◌*◌, ◌%◌, ◌<◌, ◌≡◌, refl, true, ◌==◌, Bool-cases, inl, inr, if◌then◌else◌, List, [],
  ◌∷◌, arith, length, u16_mod, u32_mod, sub16,
}
use bifrost_sdk.Packet.{RtpPacket}
use bifrost_sdk.Stream.{
  RtpStream, max_dropout, rtp_seq_mod, fresh, update_sequence, start, update_timestamp,
  receive_stream_packet, expected_packets,
}
use bifrost_sdk.Stream.Invariant.{IsValid, receive_stream_packet-IsValid, start-started}

abbrev pub extended_seq : RtpStream → ℕ
extended_seq s = s.cycles + s.max_seq

module _ (s : RtpStream) (p : RtpPacket) (now_ms : ℕ) where
  pub update_timestamp_keeps :
      let s' = update_timestamp s p now_ms in
      (s'.cycles ≡ s.cycles)
      × (s'.max_seq ≡ s.max_seq)
      × (s'.base_seq ≡ s.base_seq)
      × (s'.bad_seq ≡ s.bad_seq)
      × (s'.packets_discarded ≡ s.packets_discarded)
      × (s'.started ≡ s.started)
  unfolding update_timestamp
  update_timestamp_keeps = ground arith

  pub start_of_started : s.started ≡ true → start s p now_ms ≡ s
  unfolding start
  start_of_started h = rw h

  update_in_order :
      IsValid s
      → p.sequence_number < u16_mod
      → s.cycles + rtp_seq_mod < u32_mod
      → sub16 p.sequence_number s.max_seq < max_dropout
      → let (s', accepted) = update_sequence s p now_ms in
        (accepted ≡ true)
        × (extended_seq s' ≡ extended_seq s + sub16 p.sequence_number s.max_seq)
        × (s'.max_seq ≡ p.sequence_number)
        × (s'.base_seq ≡ s.base_seq)
        × (s'.started ≡ s.started)
  unfolding update_sequence
  update_in_order v h c d = ground arith

-- A packet ahead of a running stream by fewer than 3000 is accepted, and moves the extended number
-- ahead by exactly that distance, the wrap from 65535 to 0 included. The first number stays.
pub receive_in_order :
    (s : RtpStream) (p : RtpPacket) (now_ms : ℕ)
    → IsValid s
    → s.started ≡ true
    → p.sequence_number < u16_mod
    → s.cycles + rtp_seq_mod < u32_mod
    → sub16 p.sequence_number s.max_seq < max_dropout
    → let (s', accepted) = receive_stream_packet s p now_ms in
      (accepted ≡ true)
      × (extended_seq s' ≡ extended_seq s + sub16 p.sequence_number s.max_seq)
      × (s'.max_seq ≡ p.sequence_number)
      × (s'.base_seq ≡ s.base_seq)
      × (s'.started ≡ true)
unfolding receive_stream_packet
receive_in_order s p now_ms v st h c d = rw (start_of_started s p now_ms st) (
    ground (
      arith,
      update_in_order s p now_ms v h c d,
      update_timestamp_keeps (update_sequence s p now_ms).0 p now_ms,
    ))

-- Packets with the clock readings of their calls: the last state, and how many were accepted.
pub receive_all : RtpStream → List (RtpPacket × ℕ) → RtpStream × ℕ
receive_all s [] = (s, 0)
receive_all s ((p, now_ms) ∷ rest) =
    let (s', accepted) = receive_stream_packet s p now_ms in
    let (s'', n) = receive_all s' rest in (s'', if accepted then suc n else n)

-- The sequence numbers are n, n + 1, … modulo 2^16.
abbrev pub IsConsecutive : ℕ → List (RtpPacket × ℕ) → Type 0
IsConsecutive n [] = Unit {0}
IsConsecutive n ((p, _) ∷ rest) = (p.sequence_number ≡ n % u16_mod) × IsConsecutive (n + 1) rest

receive_next :
    (s : RtpStream) (p : RtpPacket) (now_ms n : ℕ)
    → IsValid s
    → s.started ≡ true
    → extended_seq s + 1 ≡ n
    → n + rtp_seq_mod < u32_mod
    → p.sequence_number ≡ n % u16_mod
    → let (s', accepted) = receive_stream_packet s p now_ms in
      (accepted ≡ true)
      × (extended_seq s' ≡ n)
      × (s'.base_seq ≡ s.base_seq)
      × (s'.started ≡ true)
      × IsValid s'
receive_next s p now_ms n v st e b c =
    ground (arith, receive_in_order s p now_ms v st, receive_stream_packet-IsValid s p now_ms)

receive_all_consecutive :
    (ps : List (RtpPacket × ℕ)) (s : RtpStream) (n : ℕ)
    → IsValid s
    → s.started ≡ true
    → extended_seq s + 1 ≡ n
    → n + length ps + rtp_seq_mod < u32_mod
    → IsConsecutive n ps
    → let (s', k) = receive_all s ps in
      (k ≡ length ps)
      × (extended_seq s' + 1 ≡ n + length ps)
      × (s'.base_seq ≡ s.base_seq)
      × IsValid s'
unfolding receive_all
receive_all_consecutive [] s n v st e b c = (refl, omega arith, refl, v)
receive_all_consecutive ((p, now_ms) ∷ rest) s n v st e b c = ground (
  arith,
  receive_next s p now_ms n v st e,
  receive_all_consecutive rest (receive_stream_packet s p now_ms).0 (n + 1),
)

start_twice :
    (s : RtpStream) (p : RtpPacket) (now_ms : ℕ)
    → receive_stream_packet (start s p now_ms) p now_ms ≡ receive_stream_packet s p now_ms
unfolding receive_stream_packet
start_twice s p now_ms =
    rw (start_of_started (start s p now_ms) p now_ms (start-started s p now_ms))

-- A run does not depend on whether its first packet has already been used to start the stream.
receive_all-start :
    (s : RtpStream) (p : RtpPacket) (now_ms : ℕ) (rest : List (RtpPacket × ℕ))
    → receive_all (start s p now_ms) ((p, now_ms) ∷ rest) ≡ receive_all s ((p, now_ms) ∷ rest)
unfolding receive_all
receive_all-start s p now_ms rest = rw (start_twice s p now_ms)

-- Consecutive numbers are the same a cycle later.
IsConsecutive-cycle :
    (n : ℕ) (ps : List (RtpPacket × ℕ)) → IsConsecutive n ps → IsConsecutive (n + rtp_seq_mod) ps
IsConsecutive-cycle n [] c = tt
IsConsecutive-cycle n ((p, _) ∷ rest) c =
    let e : n + rtp_seq_mod + 1 ≡ n + 1 + rtp_seq_mod = omega arith in
    (omega (arith, c.0), rw e (IsConsecutive-cycle (n + 1) rest c.1))

-- The number that the first packet counts as: 0 is taken for a wrap from 65535.
abbrev pub counted_as : ℕ → ℕ
counted_as seq = if seq == 0 then rtp_seq_mod else seq

start_fresh :
    (p : RtpPacket) (now_ms : ℕ)
    → p.sequence_number < u16_mod
    → let s = start fresh p now_ms in
      IsValid s
      × (s.started ≡ true)
      × (extended_seq s + 1 ≡ counted_as p.sequence_number)
      × (s.base_seq ≡ p.sequence_number)
unfolding start
start_fresh p now_ms k = ground arith

IsConsecutive-counted_as :
    (seq : ℕ) (ps : List (RtpPacket × ℕ)) → IsConsecutive seq ps → IsConsecutive (counted_as seq) ps
IsConsecutive-counted_as seq ps c = elim (Bool-cases (seq == 0)) [
  | inl e ↦ let z : 0 ≡ seq = ground arith in rw e (IsConsecutive-cycle 0 ps (rw z c))
  | inr e ↦ rw e c
]

-- A new stream that receives packets with consecutive numbers, from any first number, accepts all of
-- them. It expects as many packets as it received, so that no loss is reported, however often the
-- 16-bit numbers wrap; but if the first number is 0, it expects a whole cycle of 65536 packets more.
-- (The count with three spare cycles fits in 32 bits.)
pub expected_packets-consecutive :
    (p : RtpPacket) (now_ms : ℕ) (rest : List (RtpPacket × ℕ))
    → p.sequence_number < u16_mod
    → IsConsecutive (p.sequence_number + 1) rest
    → length rest + 3 * rtp_seq_mod < u32_mod
    → let (s, accepted) = receive_all fresh ((p, now_ms) ∷ rest) in
      (accepted ≡ length rest + 1)
      × (expected_packets s ≡ length rest + 1 + (if p.sequence_number == 0 then rtp_seq_mod else 0))
unfolding expected_packets
expected_packets-consecutive p now_ms rest k c b =
    let ps = (p, now_ms) ∷ rest in
    let whole : IsConsecutive p.sequence_number ps = (omega arith, c) in
    rw (← receive_all-start fresh p now_ms rest) (
      ground (
        arith,
        start_fresh p now_ms k,
        IsConsecutive-counted_as p.sequence_number ps whole,
        receive_all_consecutive ps (start fresh p now_ms) (counted_as p.sequence_number),
      ))
