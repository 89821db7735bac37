-- ===== src/Sender/Repair.antt =====
-- A packet that was sent is sent again when it is asked for.
use bifrost_sdk.Base.{
  ℕ, ◌+◌, ◌^◌, ◌≤◌, ◌<◌, ◌≡◌, refl, ap, ◌∙◌, true, false, ltb, some, ◌>>=◌, [], ◌∷◌, ◌++◌,
  append-nil, length, u16_mod, add16, Returns, Returns-bind, Returns-map, Returns-both,
  Returns-some, arith,
}
use bifrost_sdk.Packet.{RtpPacket}
use bifrost_sdk.Stream.{receive_stream_packet}
use bifrost_sdk.Retransmission.Defs.{
  Item, new_item, RetransmissionBuffer, higher16, lower32, get_newest, get,
}
use bifrost_sdk.Retransmission.Store.{insert}
use bifrost_sdk.Retransmission.Slots.{Shape}
use bifrost_sdk.Retransmission.Insert.{IsValid, insert-IsValid}
use bifrost_sdk.Retransmission.Found.{gap, insert_in_order}
use bifrost_sdk.Rtcp.Defs.{NackItem}
use bifrost_sdk.Rate.Counter.{IsReady, update_counter, update_counter_lem}
use bifrost_sdk.Sender.Defs.{
  mtu_size, RtpStreamSender, store_packet, receive_packet, is_recent, fill_retransmission_container,
  rtt_of, receive_items, receive_nack,
}
use bifrost_sdk.Sender.Requested.{requested_numbers, answer, sent_again}
use bifrost_sdk.Sender.Fill.{requested_after-zero, fill_retransmission_container_lem}

-- The item that asks for one number only.
abbrev pub request : ℕ → NackItem
request seq = record { packet_id = seq; lost_packet_bitmask = 0 }

-- A packet that was just stored is all that a request for its number is answered with.
answer_stored :
    (now_ms rtt : ℕ) (b : RetransmissionBuffer) (p : RtpPacket)
    → get b.buffer p.sequence_number ≡ some (new_item p)
    → sent_again now_ms rtt b.buffer (requested_numbers p.sequence_number 0) ≡ p ∷ []
unfolding sent_again is_recent
answer_stored now_ms rtt b p e =
    ap
      (λ ns.
        answer now_ms rtt (get b.buffer p.sequence_number) ++ sent_again now_ms rtt b.buffer ns)
      (requested_after-zero 16 (add16 p.sequence_number 1))
    ∙ ap (λ found. answer now_ms rtt found ++ []) e

fill_stored :
    (now_ms rtt : ℕ) (b : RetransmissionBuffer) (p : RtpPacket)
    → Shape b.buffer
    → p.sequence_number < u16_mod
    → get b.buffer p.sequence_number ≡ some (new_item p)
    → Returns
        (fill_retransmission_container now_ms rtt b.buffer p.sequence_number 0)
        (λ r. r.1 ≡ p ∷ [])
fill_stored now_ms rtt b p s h e =
    Returns-map (fill_retransmission_container now_ms rtt b.buffer p.sequence_number 0)
      (λ (ys, packets).
        (packets ≡ sent_again now_ms rtt b.buffer (requested_numbers p.sequence_number 0))
        × Shape ys
        × (length ys ≡ length b.buffer))
      (λ r. r.1 ≡ p ∷ [])
      (fill_retransmission_container_lem now_ms rtt b.buffer p.sequence_number 0 s h (omega arith))
      λ r f. f.0 ∙ answer_stored now_ms rtt b p e

module _ (rtt_ms count_set_bits : ℕ → ℕ) where
  receive_nack_stored :
      (s : RtpStreamSender) (b : RetransmissionBuffer) (p : RtpPacket) (now_ms : ℕ)
      → s.retransmission_buffer ≡ some b
      → Shape b.buffer
      → p.sequence_number < u16_mod
      → get b.buffer p.sequence_number ≡ some (new_item p)
      → Returns
          (receive_nack rtt_ms count_set_bits s (request p.sequence_number ∷ []) now_ms)
          (λ r. r.1 ≡ p ∷ [])
  unfolding receive_nack receive_items
  receive_nack_stored s b p now_ms e v h g =
      rw (e, Returns)
        (Returns-bind
          (fill_retransmission_container now_ms (rtt_of rtt_ms s) b.buffer p.sequence_number 0) _
          (λ r. r.1 ≡ p ∷ []) (λ r. r.1 ≡ p ∷ []) (fill_stored now_ms (rtt_of rtt_ms s) b p v h g)
          λ r _ q. append-nil (r.1) ∙ q)

  -- A packet that the sender's stream accepts and its counter can take, of at most 1500 bytes, newer than the newest one in a
  -- well-formed buffer and with no lower timestamp, is stored so that a NACK for its number is then
  -- answered with this packet and no other, at any time, with no fault on the way. (The slots that the
  -- packet makes the buffer span are at most 2^15.)
  pub resend_stored :
      (s : RtpStreamSender) (b : RetransmissionBuffer) (p : RtpPacket) (newest : Item)
      (sent_ms now_ms : ℕ)
      → s.retransmission_buffer ≡ some b
      → IsValid b
      → length b.buffer ≤ 2 ^ 15
      → get_newest b.buffer ≡ some newest
      → p.sequence_number < u16_mod
      → p.size ≤ mtu_size
      → (receive_stream_packet s.stream p sent_ms).1 ≡ true
      → IsReady s.wait_transmission_counter p.size sent_ms
      → higher16 p.sequence_number newest.sequence_number ≡ true
      → lower32 p.timestamp newest.timestamp ≡ false
      → length b.buffer + gap p newest + 1 ≤ 2 ^ 15
      → Returns
          (receive_packet s p sent_ms >>= λ r.
            receive_nack rtt_ms count_set_bits r.0 (request p.sequence_number ∷ []) now_ms)
          (λ r. r.1 ≡ p ∷ [])
  unfolding receive_packet store_packet
  resend_stored s b p newest sent_ms now_ms e v l w h z acc ready hi ts g =
      let f : ltb mtu_size p.size ≡ false = ground arith in
      let (b', stored, (valid, found)) =
        Returns-some (insert b p)
          (λ b'. IsValid b' × (get b'.buffer p.sequence_number ≡ some (new_item p)))
          (Returns-both (insert b p) IsValid
            (λ b'. get b'.buffer p.sequence_number ≡ some (new_item p)) (insert-IsValid b p v l h)
            (insert_in_order b p newest v w h hi ts g)) in
      let (c', counted, _) =
        Returns-some (update_counter s.wait_transmission_counter p sent_ms) _
          (update_counter_lem s.wait_transmission_counter p sent_ms ready) in
      rw (acc, e, f, stored, counted, Returns)
        (receive_nack_stored _ b' p now_ms refl valid.shape h found)
