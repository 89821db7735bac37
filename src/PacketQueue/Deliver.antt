-- ===== src/PacketQueue/Deliver.antt =====
-- What comes out of the queue: the packets in the order of their numbers.
use bifrost_sdk.Base.{
  ℕ, zero, suc, ◌+◌, ◌%◌, ◌≤◌, ◌<◌, ◌≡◌, ◌==◌, refl, sym, ap, ◌∙◌, Bool-cases, inl, inr, ltb, List,
  [], ◌∷◌, ◌++◌, length, length-append, u16_mod, u32_mod, add32, arith,
}
use bifrost_sdk.OrderedSet.{emplace}
use bifrost_sdk.PacketQueue.{ThreadRtpPacketQueue, packet_key, push, pop_loop, pop}
use bifrost_sdk.PacketQueue.Numbers.{IsCounting, IsRecognised, push_recognised}

-- What a user of the queue does: `arrive n` pushes the packet with the number n, of which the queue gets 16 bits.
pub data Call : Type 0 where
  arrive : ℕ → Call
  take_out : Call

-- `sent` gives the buffer of each packet.
module _ (sent : ℕ → List ℕ) where
  -- The buffers of k packets from n on.
  unfoldable pub buffers_from : ℕ → ℕ → List (List ℕ)
  buffers_from n zero = []
  buffers_from n (suc k) = sent n ∷ buffers_from (n + 1) k

  -- The state after the calls, and all that came out.
  unfoldable pub run : ThreadRtpPacketQueue → List Call → ThreadRtpPacketQueue × List (List ℕ)
  run q [] = (q, [])
  run q (arrive n ∷ calls) = run (push q (n % u16_mod) (sent n)).0 calls
  run q (take_out ∷ calls) =
      let (q', buffers) = pop q in let (q'', more) = run q' calls in (q'', buffers ++ more)

  -- No packet comes that has been taken out already, and the queue can tell each number when it comes.
  abbrev pub AreRecognised : ThreadRtpPacketQueue → List Call → Type 0
  AreRecognised q [] = Unit {0}
  AreRecognised q (arrive n ∷ calls) =
      (q.waite_pop_seq ≤ n)
      × (n + 1 < u32_mod)
      × IsRecognised q n
      × AreRecognised (push q (n % u16_mod) (sent n)).0 calls
  AreRecognised q (take_out ∷ calls) = AreRecognised (pop q).0 calls

  -- Entries in the order of their numbers, from n on, each with the buffer of its packet.
  unfoldable pub AreQueued : ℕ → List (ℕ × List ℕ) → Type 0
  AreQueued n [] = Unit {0}
  AreQueued n (e ∷ rest) =
      (n ≤ e.0) × (e.0 + 1 < u32_mod) × (e.1 ≡ sent e.0) × AreQueued (e.0 + 1) rest

  abbrev pub IsInOrder : ThreadRtpPacketQueue → Type 0
  IsInOrder q = IsCounting q × AreQueued q.waite_pop_seq q.packet_map

  emplace-AreQueued :
      (m n : ℕ) (xs : List (ℕ × List ℕ))
      → m ≤ n
      → n + 1 < u32_mod
      → AreQueued m xs
      → AreQueued m (emplace packet_key ltb (n, sent n) xs)
  unfolding emplace AreQueued
  emplace-AreQueued m n [] h l v = (h, l, refl, tt)
  emplace-AreQueued m n (e ∷ rest) h l v = ground (arith, v, emplace-AreQueued (e.0 + 1) n rest)

  AreQueued-below : (m n : ℕ) (xs : List (ℕ × List ℕ)) → m ≤ n → AreQueued n xs → AreQueued m xs
  unfolding AreQueued
  AreQueued-below m n [] h v = tt
  AreQueued-below m n (e ∷ rest) h v = (omega (arith, v.0), v.1, v.2, v.3)

  -- The loop takes out a run of packets without a gap, and stops at the first that is missing.
  pub pop_loop_lem :
      (n : ℕ) (xs : List (ℕ × List ℕ))
      → AreQueued n xs
      → let (next, left, buffers) = pop_loop n xs in
        (next ≡ n + length buffers)
        × (buffers ≡ buffers_from n (length buffers))
        × AreQueued (next + 1) left
  unfolding pop_loop AreQueued buffers_from
  pop_loop_lem n [] v = (omega arith, refl, tt)
  pop_loop_lem n (e ∷ rest) v = elim (Bool-cases (n == e.0)) [
    | inl f ↦
        let g : e.0 ≡ n = ground arith in
        let w : add32 n 1 ≡ n + 1 = omega (arith, v.1) in
        let ih = pop_loop_lem (n + 1) rest (rw g at v.3) in
        rw (f, w)
          (
            omega (arith, ih.0),
            ap (λ b. b ∷ (pop_loop (n + 1) rest).2) (v.2 ∙ ap sent g) ∙ ap (λ bs. sent n ∷ bs) ih.1,
            ih.2,
          )
    | inr f ↦ rw f (omega arith, refl, (ground (arith, v.0), v.1, v.2, v.3))
  ]

  buffers_from-append :
      (n j k : ℕ) → buffers_from n j ++ buffers_from (n + j) k ≡ buffers_from n (j + k)
  unfolding buffers_from
  buffers_from-append n zero k =
      let e : n + 0 ≡ n = omega arith in
      let f : k ≡ 0 + k = omega arith in ap (λ m. buffers_from m k) e ∙ ap (buffers_from n) f
  buffers_from-append n (suc j) k =
      let e : n + suc j ≡ n + 1 + j = omega arith in
      let f : suc (j + k) ≡ suc j + k = omega arith in
      ap (λ m. sent n ∷ (buffers_from (n + 1) j ++ buffers_from m k)) e
      ∙ ap (λ bs. sent n ∷ bs) (buffers_from-append (n + 1) j k)
      ∙ ap (buffers_from n) f

  -- Two runs of packets, the second behind the first.
  pub join_buffers :
      (n m : ℕ) (xs ys : List (List ℕ))
      → xs ≡ buffers_from n (length xs)
      → m ≡ n + length xs
      → ys ≡ buffers_from m (length ys)
      → xs ++ ys ≡ buffers_from n (length (xs ++ ys))
  join_buffers n m xs ys e f g =
      ap (λ bs. bs ++ ys) e
      ∙ ap (λ bs. buffers_from n (length xs) ++ bs) (g ∙ ap (λ k. buffers_from k (length ys)) f)
      ∙ buffers_from-append n (length xs) (length ys)
      ∙ ap (buffers_from n) (sym (length-append xs ys))

  pub pop-IsInOrder :
      (q : ThreadRtpPacketQueue)
      → IsInOrder q
      → let (q', buffers) = pop q in
        (q'.waite_pop_seq ≡ q.waite_pop_seq + length buffers)
        × (buffers ≡ buffers_from q.waite_pop_seq (length buffers))
        × IsInOrder q'
  unfolding pop
  pop-IsInOrder q (c, v) =
      let (next, left, buffers) = pop_loop q.waite_pop_seq q.packet_map in
      let l = pop_loop_lem q.waite_pop_seq q.packet_map v in
      (l.0, l.1, (c, AreQueued-below next (next + 1) left (omega arith) l.2))

  pub push-IsInOrder :
      (q : ThreadRtpPacketQueue) (n : ℕ)
      → q.waite_pop_seq ≤ n
      → n + 1 < u32_mod
      → IsRecognised q n
      → IsInOrder q
      → IsInOrder (push q (n % u16_mod) (sent n)).0
        × ((push q (n % u16_mod) (sent n)).0.waite_pop_seq ≡ q.waite_pop_seq)
  push-IsInOrder q n h l near (c, v) =
      let p = push_recognised q n (sent n) c near (omega arith) in
      ((p.1, rw (p.2, p.0) (emplace-AreQueued q.waite_pop_seq n q.packet_map h l v)), p.2)

  -- Packets come in any order and some are taken out between, such that none comes again that has been taken
  -- out, none is more than 32767 above or below the highest number so far, and none comes from before a wrap of the 16 bits
  -- that the queue has counted. Then what comes out are the packets in the order of their numbers, from the one that
  -- was waited for, none of them left out or twice. The numbers may go over several cycles of 16 bits.
  -- (The queue starts with entries in order from the one that is waited for; the first packet of a new queue has a number
  -- below 2^16, and all numbers are below 2^32 - 1.)
  pub run-IsInOrder :
      (q : ThreadRtpPacketQueue) (calls : List Call)
      → IsInOrder q
      → AreRecognised q calls
      → let (q', buffers) = run q calls in
        (q'.waite_pop_seq ≡ q.waite_pop_seq + length buffers)
        × (buffers ≡ buffers_from q.waite_pop_seq (length buffers))
        × IsInOrder q'
  unfolding run buffers_from
  run-IsInOrder q [] v h = (omega arith, refl, v)
  run-IsInOrder q (arrive n ∷ calls) v h =
      let p = push-IsInOrder q n h.0 h.1 h.2 v in
      let ih = run-IsInOrder (push q (n % u16_mod) (sent n)).0 calls p.0 h.3 in
      let out = (run (push q (n % u16_mod) (sent n)).0 calls).1 in
      (omega (arith, ih.0, p.1), ih.1 ∙ ap (λ k. buffers_from k (length out)) p.1, ih.2)
  run-IsInOrder q (take_out ∷ calls) v h =
      let (q', buffers) = pop q in
      let (q'', more) = run q' calls in
      let p = pop-IsInOrder q v in
      let ih = run-IsInOrder (pop q).0 calls p.2 h in
      let joined = join_buffers q.waite_pop_seq (pop q).0.waite_pop_seq buffers more p.1 p.0 ih.1 in
      (omega (arith, p.0, ih.0, length-append buffers more), joined, ih.2)
