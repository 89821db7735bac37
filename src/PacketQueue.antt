-- ===== src/PacketQueue.antt =====
-- core/include/rtc/callback_queue_thread.h: the queue that puts the packets of a stream back in order.
-- A buffer is its bytes. The mutex makes the methods one step each; of `Pop` the step is what it does
-- behind its two waits, and the notification of `Push` is its result.
pub mod Numbers
pub mod Deliver
pub mod Complete
pub mod Stall
mod Tests
use bifrost_sdk.Base.{
  ℕ, ◌+◌, ◌-◌, ◌*◌, ◌%◌, Bool, true, false, ltb, ◌==◌, if◌then◌else◌, List, [], ◌∷◌, u32_mod, add32,
}
use bifrost_sdk.OrderedSet.{emplace}

-- `IsLargeSeq`: its result, and whether it sets `has_routing`.
unfoldable pub is_large_seq : ℕ → ℕ → Bool × Bool
is_large_seq small big =
    if ltb small big
    then (if ltb 32767 (big - small) then (false, false) else (true, false))
    else (if ltb 32767 (small - big) then (true, true) else (false, false))

pub record ThreadRtpPacketQueue : Type 0 where
  pub packet_map : List (ℕ × List ℕ)
  pub is_start : Bool
  pub cycle : ℕ
  pub max_seq : ℕ
  pub waite_pop_seq : ℕ

abbrev pub new_queue : ThreadRtpPacketQueue
new_queue = record { packet_map = []; is_start = true; cycle = 0; max_seq = 0; waite_pop_seq = 0 }

abbrev pub reset_pop_seq : ThreadRtpPacketQueue → ThreadRtpPacketQueue
reset_pop_seq q = record q { waite_pop_seq = 0 }

-- `FindContinuousPacket`: whether the thread that pops is notified. The timer calls it as well.
unfoldable pub find_continuous_packet : ThreadRtpPacketQueue → Bool
find_continuous_packet q = elim (q.packet_map) [ [] ↦ false | e ∷ _ ↦ e.0 == q.waite_pop_seq ]

-- The key of an entry of the map.
abbrev pub packet_key : ℕ × List ℕ → ℕ
packet_key e = e.0

-- `Push` with the number that it starts from, and as a whole.
unfoldable pub push_after : ThreadRtpPacketQueue → ℕ → ℕ → List ℕ → ThreadRtpPacketQueue
push_after q max_seq seq buffer =
    let (is_large, has_routing) = is_large_seq max_seq seq in
    let cycle = if has_routing then add32 q.cycle 1 else q.cycle in
    record q {
      packet_map =
          emplace packet_key ltb (add32 (cycle * 65536 % u32_mod) seq, buffer) q.packet_map;
      is_start = false;
      cycle = cycle;
      max_seq = if is_large then seq else max_seq;
    }

abbrev pub push : ThreadRtpPacketQueue → ℕ → List ℕ → ThreadRtpPacketQueue × Bool
push q seq buffer =
    let q' = push_after q (if q.is_start then seq else q.max_seq) seq buffer in
    (q', find_continuous_packet q')

-- The loop of `Pop`: the next number, the map that is left, and the buffers.
unfoldable pub pop_loop : ℕ → List (ℕ × List ℕ) → ℕ × List (ℕ × List ℕ) × List (List ℕ)
pop_loop waite_pop_seq [] = (waite_pop_seq, [], [])
pop_loop waite_pop_seq (e ∷ rest) =
    let (next, left, buffers) = pop_loop (add32 waite_pop_seq 1) rest in
    if waite_pop_seq == e.0 then (next, left, e.1 ∷ buffers) else (waite_pop_seq, e ∷ rest, [])

unfoldable pub pop : ThreadRtpPacketQueue → ThreadRtpPacketQueue × List (List ℕ)
pop q =
    let (next, left, buffers) = pop_loop q.waite_pop_seq q.packet_map in
    (record q { packet_map = left; waite_pop_seq = next }, buffers)
