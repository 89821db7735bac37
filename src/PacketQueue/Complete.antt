-- ===== src/PacketQueue/Complete.antt =====
-- That nothing is lost in the queue: what has arrived without a gap is taken out.
use bifrost_sdk.Base.{
  ℕ, ◌+◌, ◌%◌, ◌≤◌, ◌<◌, ◌≡◌, ◌⊎◌, ◌==◌, refl, Bool-cases, inl, inr, ltb, List, [], ◌∷◌, ◌++◌,
  length, length-append, u16_mod, add32, arith,
}
use bifrost_sdk.OrderedSet.{emplace}
use bifrost_sdk.PacketQueue.{ThreadRtpPacketQueue, packet_key, push_after, push, pop_loop, pop}
use bifrost_sdk.PacketQueue.Numbers.{push_recognised}
use bifrost_sdk.PacketQueue.Deliver.{
  Call, arrive, take_out, buffers_from, run, AreRecognised, AreQueued, IsInOrder, pop_loop_lem,
  pop-IsInOrder, push-IsInOrder, run-IsInOrder, join_buffers,
}

-- The map has an entry with the number.
abbrev Has : ℕ → List (ℕ × List ℕ) → Type 0
Has n [] = ⊥
Has n (e ∷ rest) = (n ≡ e.0) ⊎ Has n rest

-- A packet that has been taken out, or is in the map.
abbrev IsKept : ThreadRtpPacketQueue → ℕ → Type 0
IsKept q n = (n < q.waite_pop_seq) ⊎ Has n q.packet_map

-- The packet is among those that arrive.
abbrev pub Arrives : ℕ → List Call → Type 0
Arrives n [] = ⊥
Arrives n (arrive m ∷ calls) = (n ≡ m) ⊎ Arrives n calls
Arrives n (take_out ∷ calls) = Arrives n calls

emplace-Has : (x : ℕ × List ℕ) (xs : List (ℕ × List ℕ)) → Has x.0 (emplace packet_key ltb x xs)
unfolding emplace
emplace-Has x [] = inl refl
emplace-Has x (e ∷ rest) = ground (arith, emplace-Has x rest)

emplace_keeps :
    (n : ℕ) (x : ℕ × List ℕ) (xs : List (ℕ × List ℕ))
    → Has n xs
    → Has n (emplace packet_key ltb x xs)
unfolding emplace
emplace_keeps n x [] h = absurd h
emplace_keeps n x (e ∷ rest) h = ground (arith, h, emplace_keeps n x rest)

module _ (sent : ℕ → List ℕ) where
  Has-below : (k n : ℕ) (xs : List (ℕ × List ℕ)) → AreQueued sent k xs → Has n xs → k ≤ n
  unfolding AreQueued
  Has-below k n [] v h = absurd h
  Has-below k n (e ∷ rest) v (inl h) = omega (arith, v.0)
  Has-below k n (e ∷ rest) v (inr h) = omega (arith, v.0, Has-below (e.0 + 1) n rest v.3 h)

  pop_loop_keeps :
      (w n : ℕ) (xs : List (ℕ × List ℕ))
      → AreQueued sent w xs
      → Has n xs
      → let (next, left, _) = pop_loop w xs in (n < next) ⊎ Has n left
  unfolding pop_loop AreQueued
  pop_loop_keeps w n [] v h = absurd h
  pop_loop_keeps w n (e ∷ rest) v h = elim (Bool-cases (w == e.0)) [
    | inr f ↦ rw f (inr h)
    | inl f ↦
        let g : e.0 ≡ w = ground arith in
        let k : add32 w 1 ≡ w + 1 = omega (arith, v.1) in
        let after : AreQueued sent (w + 1) rest = rw g at v.3 in
        rw (f, k)
          (elim h [
            | inl here ↦ inl (omega (arith, (pop_loop_lem sent (w + 1) rest after).0))
            | inr there ↦ pop_loop_keeps (w + 1) n rest after there
          ])
  ]

  pop-IsKept :
      (q : ThreadRtpPacketQueue) (n : ℕ) → IsInOrder sent q → IsKept q n → IsKept (pop q).0 n
  unfolding pop
  pop-IsKept q n v (inl h) =
      inl (omega (arith, (pop_loop_lem sent q.waite_pop_seq q.packet_map v.1).0))
  pop-IsKept q n v (inr h) = pop_loop_keeps q.waite_pop_seq n q.packet_map v.1 h

  -- The packet that is waited for behind a `Pop` has not come.
  pop_waits :
      (q : ThreadRtpPacketQueue) (n : ℕ)
      → IsInOrder sent q
      → n ≡ (pop q).0.waite_pop_seq
      → IsKept (pop q).0 n
      → ⊥
  unfolding pop
  pop_waits q n v e (inl h) = omega arith
  pop_waits q n v e (inr h) =
      let (next, left, _) = pop_loop q.waite_pop_seq q.packet_map in
      omega (
        arith,
        Has-below (next + 1) n left (pop_loop_lem sent q.waite_pop_seq q.packet_map v.1).2 h,
      )

  push-IsKept :
      (q : ThreadRtpPacketQueue) (n seq : ℕ) (buffer : List ℕ)
      → IsKept q n
      → IsKept (push q seq buffer).0 n
  unfolding push_after
  push-IsKept q n seq buffer (inl h) = inl h
  push-IsKept q n seq buffer (inr h) = inr (emplace_keeps n _ q.packet_map h)

  run-IsKept :
      (q : ThreadRtpPacketQueue) (n : ℕ) (calls : List Call)
      → IsInOrder sent q
      → AreRecognised sent q calls
      → IsKept q n ⊎ Arrives n calls
      → IsKept (run sent q calls).0 n
  unfolding run
  run-IsKept q n [] v h (inl k) = k
  run-IsKept q n [] v h (inr k) = absurd k
  run-IsKept q n (take_out ∷ calls) v h (inl k) =
      run-IsKept (pop q).0 n calls (pop-IsInOrder sent q v).2 h (inl (pop-IsKept q n v k))
  run-IsKept q n (take_out ∷ calls) v h (inr k) =
      run-IsKept (pop q).0 n calls (pop-IsInOrder sent q v).2 h (inr k)
  run-IsKept q n (arrive m ∷ calls) v h k =
      let p = push-IsInOrder sent q m h.0 h.1 h.2 v in
      let entered = push_recognised q m (sent m) v.0 h.2 (omega (arith, h.1)) in
      run-IsKept (push q (m % u16_mod) (sent m)).0 n calls p.0 h.3 (elim k [
        | inl kept ↦ inl (push-IsKept q n (m % u16_mod) (sent m) kept)
        | inr (inl e) ↦ inl (inr (rw (entered.0, e) (emplace-Has (m, sent m) q.packet_map)))
        | inr (inr later) ↦ inr later
      ])

  -- All packets from the one that is waited for up to m have come, in an order in which none comes again that
  -- has been taken out, none is more than 32767 above or below the highest number so far, and none comes from before
  -- a wrap of the 16 bits that the queue has counted. Then all of them have come out in order, at the latest when
  -- packets are taken out after that. (The queue starts with entries in order from the one that is waited for; the first
  -- packet of a new queue has a number below 2^16, and all numbers are below 2^32 - 1.)
  pub run_complete :
      (q : ThreadRtpPacketQueue) (calls : List Call) (m : ℕ)
      → IsInOrder sent q
      → AreRecognised sent q calls
      → ((n : ℕ) → q.waite_pop_seq ≤ n → n < m → Arrives n calls)
      → let (q', buffers) = run sent q calls in
        let taken = buffers ++ (pop q').1 in
        (m ≤ q.waite_pop_seq + length taken)
        × (taken ≡ buffers_from sent q.waite_pop_seq (length taken))
  run_complete q calls m v h all =
      let (q', buffers) = run sent q calls in
      let r = run-IsInOrder sent q calls v h in
      let p = pop-IsInOrder sent q' r.2 in
      let next = (pop q').0.waite_pop_seq in
      let joined =
        join_buffers sent q.waite_pop_seq q'.waite_pop_seq buffers (pop q').1 r.1 r.0 p.1 in
      let enough : m ≤ next = elim (Bool-cases (ltb next m)) [
        | inr f ↦ ground arith
        | inl f ↦
            let arrives = all next (omega (arith, r.0, p.0)) (ground arith) in
            absurd (
              pop_waits q' next r.2 refl
                (pop-IsKept q' next r.2 (run-IsKept q next calls v h (inr arrives))))
      ] in
      (omega (arith, enough, r.0, p.0, length-append buffers (pop q').1), joined)
