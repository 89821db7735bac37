-- ===== src/PacketQueue/Numbers.antt =====
-- The number that a packet gets in the queue.
use bifrost_sdk.Base.{
  ℕ, ◌+◌, ◌*◌, ◌/◌, ◌%◌, ◌≤◌, ◌<◌, ◌≡◌, ◌⊎◌, true, false, ltb, List, u16_mod, u32_mod, arith,
}
use bifrost_sdk.OrderedSet.{emplace}
use bifrost_sdk.PacketQueue.{is_large_seq, ThreadRtpPacketQueue, packet_key, push_after, push}

-- The highest number so far.
abbrev pub highest : ThreadRtpPacketQueue → ℕ
highest q = q.cycle * 65536 + q.max_seq

-- The counters of a queue: nothing yet, or numbers within their widths.
abbrev pub IsCounting : ThreadRtpPacketQueue → Type 0
IsCounting q =
    ((q.is_start ≡ true) × (q.cycle ≡ 0))
    ⊎ ((q.is_start ≡ false) × (q.cycle < 65536) × (q.max_seq < u16_mod))

-- A number that the queue can tell from its 16 bits: at the start one of the first cycle; later one at most
-- 32767 above or below the highest, unless it is from before a wrap that the queue has counted.
abbrev pub IsRecognised : ThreadRtpPacketQueue → ℕ → Type 0
IsRecognised q n =
    ((q.is_start ≡ true) × (n < u16_mod))
    ⊎ ((q.is_start ≡ false)
        × (n ≤ highest q + 32767)
        × (highest q ≤ n + 32767)
        × (q.cycle ≤ n / 65536))

-- The packet with such a number is entered under it, whatever its 16 bits are, and the counters follow.
pub push_recognised :
    (q : ThreadRtpPacketQueue) (n : ℕ) (buffer : List ℕ)
    → IsCounting q
    → IsRecognised q n
    → n < u32_mod
    → let q' = (push q (n % u16_mod) buffer).0 in
      (q'.packet_map ≡ emplace packet_key ltb (n, buffer) q.packet_map)
      × IsCounting q'
      × (q'.waite_pop_seq ≡ q.waite_pop_seq)
unfolding push_after is_large_seq
push_recognised q n buffer c h l = ground (arith, c, h)

-- A late packet of the cycle before, with a number more than half of a cycle above the highest, is entered a whole
-- cycle too high.
pub push_late :
    (q : ThreadRtpPacketQueue) (n : ℕ) (buffer : List ℕ)
    → q.is_start ≡ false
    → q.cycle < 65536
    → n / 65536 + 1 ≡ q.cycle
    → q.max_seq + 32767 < n % u16_mod
    → (push q (n % u16_mod) buffer).0.packet_map
      ≡ emplace packet_key ltb (n + 65536, buffer) q.packet_map
unfolding push_after is_large_seq
push_late q n buffer s c d h = ground (arith, s)
