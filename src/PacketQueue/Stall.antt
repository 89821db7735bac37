-- ===== src/PacketQueue/Stall.antt =====
-- What stops the queue: a packet that comes again after it has been taken out, and one that is still missing when the
-- 16-bit number wraps.
use bifrost_sdk.Base.{
  ℕ, ◌*◌, ◌%◌, ◌<◌, All, ◌≡◌, refl, true, false, ltb, ◌==◌, List, [], ◌∷◌, u16_mod, u32_mod, arith,
}
use bifrost_sdk.OrderedSet.{emplace, starts_below}
use bifrost_sdk.PacketQueue.{ThreadRtpPacketQueue, packet_key, push_after, push, pop_loop, pop}
use bifrost_sdk.PacketQueue.Numbers.{IsCounting, IsRecognised, push_recognised}
use bifrost_sdk.PacketQueue.Deliver.{Call, arrive, take_out, run}

-- The first entry is behind the number that is waited for.
abbrev pub IsStalled : ThreadRtpPacketQueue → Type 0
IsStalled q = starts_below packet_key ltb q.waite_pop_seq q.packet_map ≡ true

emplace_below :
    (w : ℕ) (x : ℕ × List ℕ) (xs : List (ℕ × List ℕ))
    → x.0 < w
    → starts_below packet_key ltb w (emplace packet_key ltb x xs) ≡ true
unfolding emplace starts_below
emplace_below w x [] h = ground arith
emplace_below w x (e ∷ rest) h = ground arith

emplace_still_below :
    (w : ℕ) (x : ℕ × List ℕ) (xs : List (ℕ × List ℕ))
    → starts_below packet_key ltb w xs ≡ true
    → starts_below packet_key ltb w (emplace packet_key ltb x xs) ≡ true
unfolding emplace starts_below
emplace_still_below w x [] h = ground arith
emplace_still_below w x (e ∷ rest) h = ground arith

push-IsStalled :
    (q : ThreadRtpPacketQueue) (seq : ℕ) (buffer : List ℕ)
    → IsStalled q
    → IsStalled (push q seq buffer).0
unfolding push_after
push-IsStalled q seq buffer h = emplace_still_below q.waite_pop_seq _ q.packet_map h

pop_loop_stalled :
    (w : ℕ) (xs : List (ℕ × List ℕ))
    → starts_below packet_key ltb w xs ≡ true
    → pop_loop w xs ≡ (w, xs, [])
unfolding pop_loop starts_below
pop_loop_stalled w [] h = ground arith
pop_loop_stalled w (e ∷ rest) h = let f : (w == e.0) ≡ false = ground arith in rw f refl

pop_stalled : (q : ThreadRtpPacketQueue) → IsStalled q → pop q ≡ (q, [])
unfolding pop
pop_stalled q h = rw (pop_loop_stalled q.waite_pop_seq q.packet_map h) refl

module _ (sent : ℕ → List ℕ) where
  run_stalled :
      (q : ThreadRtpPacketQueue) (calls : List Call) → IsStalled q → (run sent q calls).1 ≡ []
  unfolding run
  run_stalled q [] h = refl
  run_stalled q (arrive n ∷ calls) h =
      run_stalled (push q (n % u16_mod) (sent n)).0 calls
        (push-IsStalled q (n % u16_mod) (sent n) h)
  run_stalled q (take_out ∷ calls) h = rw (pop_stalled q h) (run_stalled q calls h)

  -- A packet comes again after it has been taken out (a retransmission, or a duplicate of the network). If it is at
  -- most 32767 above or below the highest number, and not from before a wrap that the queue has counted, then nothing is
  -- taken out any more, whatever packets come afterwards. (No call resets the number that is waited for; the counters
  -- of the queue and the number are within their widths.)
  pub run_repeated :
      (q : ThreadRtpPacketQueue) (n : ℕ) (calls : List Call)
      → IsCounting q
      → IsRecognised q n
      → n < u32_mod
      → n < q.waite_pop_seq
      → (run sent q (arrive n ∷ calls)).1 ≡ []
  unfolding run
  run_repeated q n calls c near l h =
      let p = push_recognised q n (sent n) c near l in
      run_stalled (push q (n % u16_mod) (sent n)).0 calls
        (rw (p.2, p.0) (emplace_below q.waite_pop_seq (n, sent n) q.packet_map h))

-- Entries above a number.
abbrev AreAbove : ℕ → List (ℕ × List ℕ) → Type 0
AreAbove w = All (λ e. w < e.0)

-- A packet from before the last wrap is waited for, and is not there.
abbrev pub IsOvertaken : ThreadRtpPacketQueue → Type 0
IsOvertaken q = (q.waite_pop_seq < q.cycle * 65536) × AreAbove q.waite_pop_seq q.packet_map
