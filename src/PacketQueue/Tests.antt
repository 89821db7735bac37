-- ===== src/PacketQueue/Tests.antt =====
-- The queue around the wrap of the 16-bit number.
use bifrost_sdk.Base.{
  ℕ, ◌+◌, ◌%◌, ◌≤◌, ◌<◌, ◌≡◌, refl, inr, false, List, [], ◌∷◌, ◌++◌, length, arith,
}
use bifrost_sdk.OrderedSet.{emplace}
use bifrost_sdk.PacketQueue.{ThreadRtpPacketQueue, is_large_seq, push_after, pop_loop, pop}
use bifrost_sdk.PacketQueue.Deliver.{
  Call, arrive, take_out, buffers_from, run, AreRecognised, AreQueued, IsInOrder, run-IsInOrder,
}
use bifrost_sdk.PacketQueue.Complete.{Arrives, run_complete}
use bifrost_sdk.PacketQueue.Stall.{run_repeated}

-- All packets up to 65533 have been taken out.
abbrev waiting : ThreadRtpPacketQueue
waiting = record {
  packet_map = [];
  is_start = false;
  cycle = 0;
  max_seq = 65533;
  waite_pop_seq = 65534;
}

abbrev sent : ℕ → List ℕ
sent n = n % 256 ∷ []

waiting-IsInOrder : IsInOrder sent waiting
unfolding AreQueued
waiting-IsInOrder = (inr (refl, omega arith, omega arith), tt)

abbrev calls : List Call
calls = arrive 65535 ∷ arrive 65534 ∷ take_out ∷ arrive 65536 ∷ []

calls-AreRecognised : AreRecognised sent waiting calls
unfolding push_after is_large_seq emplace pop pop_loop
calls-AreRecognised = (
  omega arith,
  omega arith,
  inr (refl, omega arith, omega arith, omega arith),
  (
    omega arith,
    omega arith,
    inr (refl, omega arith, omega arith, omega arith),
    (omega arith, omega arith, inr (refl, omega arith, omega arith, omega arith), tt),
  ),
)

run-IsInOrder_example :
    let (q', buffers) = run sent waiting calls in
    (q'.waite_pop_seq ≡ 65534 + length buffers)
    × (buffers ≡ buffers_from sent 65534 (length buffers))
    × IsInOrder sent q'
run-IsInOrder_example = run-IsInOrder sent waiting calls waiting-IsInOrder calls-AreRecognised

calls-Arrives : (n : ℕ) → 65534 ≤ n → n < 65537 → Arrives n calls
calls-Arrives n h l = ground arith

run_complete_example :
    let (q', buffers) = run sent waiting calls in
    let taken = buffers ++ (pop q').1 in
    (65537 ≤ 65534 + length taken) × (taken ≡ buffers_from sent 65534 (length taken))
run_complete_example =
    run_complete sent waiting calls 65537 waiting-IsInOrder calls-AreRecognised calls-Arrives

-- All packets up to 65537 have been taken out, and 65536 comes again.
abbrev ahead : ThreadRtpPacketQueue
ahead = record waiting { cycle = 1; max_seq = 1; waite_pop_seq = 65538 }

run_repeated_example : (run sent ahead (arrive 65536 ∷ arrive 65538 ∷ take_out ∷ [])).1 ≡ []
run_repeated_example =
    run_repeated sent ahead 65536 (arrive 65538 ∷ take_out ∷ [])
      (inr (refl, omega arith, omega arith)) (inr (refl, omega arith, omega arith, omega arith))
      (omega arith) (omega arith)

-- 65535 is waited for when 65536 has been pushed. It comes then, and so does 65537.
abbrev overtaken : ThreadRtpPacketQueue
overtaken = record waiting {
  packet_map = (65536, sent 65536) ∷ [];
  cycle = 1;
  max_seq = 0;
  waite_pop_seq = 65535;
}
