-- ===== src/Sender/Fill.antt =====
-- The loop of `FillRetransmissionContainer`.
use bifrost_sdk.Base.{
  ℕ, zero, suc, ◌+◌, ◌/◌, ◌%◌, ◌≤◌, ◌<◌, ◌≡◌, ◌≢◌, refl, sym, ap, ◌∙◌, inl, inr, Bool, true, false,
  Bool-cases, not, ◌==◌, ◌||◌, if◌then◌else◌, Option, none, some, ◌>>=◌, List, [], ◌∷◌, ◌++◌,
  length, length-append, append_assoc, append-nil, All, u16_mod, add16, Returns, Returns-bind,
  Returns-map, arith,
}
use bifrost_sdk.Packet.{RtpPacket}
use bifrost_sdk.Retransmission.Defs.{Item, Slots, get}
use bifrost_sdk.Retransmission.Slots.{Shape}
use bifrost_sdk.Sender.Defs.{container_size, visit, fill_loop, fill_retransmission_container}
use bifrost_sdk.Sender.Requested.{
  if_set, requested_after, requested_numbers, answer, sent_again, sent_again-append,
  sent_again-cong, Visited, visit_lem,
}

-- The first k bits may be set, and no other.
abbrev pub HasBits : ℕ → ℕ → Type 0
HasBits zero bitmask = bitmask ≡ 0
HasBits (suc k) bitmask = HasBits k (bitmask / 2)

HasBits-zero : (k : ℕ) → HasBits k 0
HasBits-zero zero = refl
HasBits-zero (suc k) = HasBits-zero k

pub requested_after-zero : (k seq : ℕ) → requested_after k 0 seq ≡ []
requested_after-zero zero seq = refl
requested_after-zero (suc k) seq = requested_after-zero k (add16 seq 1)

-- The numbers that follow differ from the one before them.
requested_after-ne :
    (k bitmask seq j : ℕ)
    → seq < u16_mod
    → 0 < j
    → j + k < u16_mod
    → All (λ n. (n < u16_mod) × (seq ≢ n)) (requested_after k bitmask ((seq + j) % u16_mod))
requested_after-ne zero bitmask seq j h p l = tt
requested_after-ne (suc k) bitmask seq j h p l =
    let e : add16 ((seq + j) % u16_mod) 1 ≡ (seq + (j + 1)) % u16_mod = omega arith in
    let ih = requested_after-ne k (bitmask / 2) seq (j + 1) h (omega arith) (omega arith) in
    elim (Bool-cases (bitmask % 2 == 1)) [
      | inl t ↦ rw (t, e) ((omega arith, omega arith), ih)
      | inr t ↦ rw (t, e) ih
    ]

module _ (now_ms rtt : ℕ) where
  fill_loop_stop :
      (fuel : ℕ) (xs : Slots) (seq : ℕ) (container : List RtpPacket)
      → length container < container_size
      → fill_loop (suc fuel) now_ms rtt xs false 0 seq container ≡ some (xs, container)
  unfolding fill_loop
  fill_loop_stop fuel xs seq container l = ground arith

  length-answer : (found : Option Item) → length (answer now_ms rtt found) ≤ 1
  length-answer none = omega arith
  length-answer (some it) = ground arith

  length-sent_again : (xs : Slots) (ns : List ℕ) → length (sent_again now_ms rtt xs ns) ≤ length ns
  unfolding sent_again
  length-sent_again xs [] = omega arith
  length-sent_again xs (n ∷ ns) = omega (
    arith,
    length-append (answer now_ms rtt (get xs n)) (sent_again now_ms rtt xs ns),
    length-answer (get xs n),
    length-sent_again xs ns,
  )

  -- The part of a round for the number, if it is requested.
  enter : Slots → Bool → ℕ → List RtpPacket → Option (Slots × List RtpPacket)
  enter xs requested seq container =
      if requested then visit now_ms rtt xs seq container else some (xs, container)

  enter_lem :
      (xs : Slots) (requested : Bool) (seq : ℕ) (container : List RtpPacket)
      → Shape xs
      → seq < u16_mod
      → length container < container_size
      → Returns
          (enter xs requested seq container)
          (Visited now_ms rtt xs seq container (if_set requested seq))
  unfolding enter sent_again
  enter_lem xs true seq container s h l = visit_lem now_ms rtt xs seq container s h l
  enter_lem xs false seq container s h l = (sym (append-nil container), s, refl, λ other k ne. refl)

  fill_loop_step :
      (fuel : ℕ) (xs : Slots) (requested : Bool) (bitmask seq : ℕ) (container : List RtpPacket)
      → (requested || not (bitmask == 0)) ≡ true
      → fill_loop (suc fuel) now_ms rtt xs requested bitmask seq container ≡ (
          enter xs requested seq container >>= λ r.
          fill_loop fuel now_ms rtt r.0 (bitmask % 2 == 1) (bitmask / 2) (add16 seq 1) r.1)
  unfolding fill_loop enter
  fill_loop_step fuel xs requested bitmask seq container e = rw e refl

  -- What is left to do from a round on.
  abbrev Filled : Slots → List RtpPacket → List ℕ → Slots × List RtpPacket → Type 0
  Filled xs container ns (ys, packets) =
      (packets ≡ container ++ sent_again now_ms rtt xs ns) × Shape ys × (length ys ≡ length xs)

  All-same :
      (xs ys : Slots) (seq : ℕ) (ns : List ℕ)
      → ((other : ℕ) → other < u16_mod → seq ≢ other → get ys other ≡ get xs other)
      → All (λ n. (n < u16_mod) × (seq ≢ n)) ns
      → All (λ n. get ys n ≡ get xs n) ns
  All-same xs ys seq [] k a = tt
  All-same xs ys seq (n ∷ ns) k a = (k n a.0.0 a.0.1, All-same xs ys seq ns k a.1)

  -- The rest of the loop after a round, seen from before it.
  after_round :
      (m : Option (Slots × List RtpPacket)) (xs : Slots) (seq : ℕ) (container : List RtpPacket)
      (ms ns : List ℕ) (r : Slots × List RtpPacket)
      → Visited now_ms rtt xs seq container ms r
      → All (λ n. (n < u16_mod) × (seq ≢ n)) ns
      → Returns m (Filled r.0 r.1 ns)
      → Returns m (Filled xs container (ms ++ ns))
  after_round m xs seq container ms ns (ys, packets) v a h =
      Returns-map m (Filled ys packets ns) (Filled xs container (ms ++ ns)) h λ (zs, all) f. (
        f.0
            ∙ ap (λ front. front ++ sent_again now_ms rtt ys ns) v.0
            ∙ append_assoc container (sent_again now_ms rtt xs ms) (sent_again now_ms rtt ys ns)
            ∙ ap (λ back. container ++ (sent_again now_ms rtt xs ms ++ back))
                (sent_again-cong now_ms rtt xs ys ns (All-same xs ys seq ns v.3 a))
            ∙ ap (◌++◌ container) (sym (sent_again-append now_ms rtt xs ms ns)),
        f.1,
        f.2 ∙ v.2,
      )

  length-if_set : (requested : Bool) (seq : ℕ) → length (if_set requested seq) ≤ 1
  length-if_set true seq = omega arith
  length-if_set false seq = omega arith

  Visited-length :
      (xs : Slots) (seq : ℕ) (container : List RtpPacket) (requested : Bool)
      (r : Slots × List RtpPacket)
      → Visited now_ms rtt xs seq container (if_set requested seq) r
      → length (r.1) ≤ length container + 1
  Visited-length xs seq container requested r v = omega (
    arith,
    ap length v.0,
    length-append container (sent_again now_ms rtt xs (if_set requested seq)),
    length-sent_again xs (if_set requested seq),
    length-if_set requested seq,
  )

  fill_stop :
      (fuel : ℕ) (xs : Slots) (bitmask seq : ℕ) (container : List RtpPacket) (ns : List ℕ)
      → bitmask ≡ 0
      → ns ≡ []
      → length container < container_size
      → Shape xs
      → Returns
          (fill_loop (suc fuel) now_ms rtt xs false bitmask seq container)
          (Filled xs container ns)
  unfolding sent_again
  fill_stop fuel xs bitmask seq container ns b e l s =
      rw (b, e, fill_loop_stop fuel xs seq container l) (sym (append-nil container), s, refl)

  fill_loop_lem :
      (fuel k : ℕ) (xs : Slots) (requested : Bool) (bitmask seq : ℕ) (container : List RtpPacket)
      → HasBits k bitmask
      → k + 2 ≤ fuel
      → k + 2 < u16_mod
      → seq < u16_mod
      → length container + k + 1 < container_size
      → Shape xs
      → Returns
          (fill_loop fuel now_ms rtt xs requested bitmask seq container)
          (Filled xs container (if_set requested seq ++ requested_after k bitmask (add16 seq 1)))
  fill_loop_lem zero k xs requested bitmask seq container b f g h l s = absurd (omega arith)
  fill_loop_lem (suc zero) k xs requested bitmask seq container b f g h l s = absurd (omega arith)
  fill_loop_lem (suc (suc fuel)) zero xs false bitmask seq container b f g h l s =
      fill_stop (suc fuel) xs bitmask seq container [] b refl (omega arith) s
  fill_loop_lem (suc (suc fuel)) zero xs true bitmask seq container b f g h l s =
      rw (fill_loop_step (suc fuel) xs true bitmask seq container refl, Returns)
        (Returns-bind (enter xs true seq container) _
          (Visited now_ms rtt xs seq container (if_set true seq)) (Filled xs container (seq ∷ []))
          (enter_lem xs true seq container s h (omega arith))
          λ r _ v. after_round _ xs seq container (seq ∷ []) [] r v tt (
            rw b (
              fill_stop fuel (r.0) 0 (add16 seq 1) (r.1) [] refl refl
                (omega (arith, Visited-length xs seq container true r v)) v.1)))
  fill_loop_lem (suc (suc fuel)) (suc k) xs requested bitmask seq container b f g h l s =
      let ih = λ (r : Slots × List RtpPacket).
        fill_loop_lem (suc fuel) k (r.0) (bitmask % 2 == 1) (bitmask / 2) (add16 seq 1) (r.1) b
          (omega arith) (omega arith) (omega arith) in
      elim (Bool-cases (requested || not (bitmask == 0))) [
        | inl t ↦
            rw (fill_loop_step (suc fuel) xs requested bitmask seq container t, Returns)
              (Returns-bind (enter xs requested seq container) _
                (Visited now_ms rtt xs seq container (if_set requested seq))
                (Filled xs container
                  (if_set requested seq ++ requested_after (suc k) bitmask (add16 seq 1)))
                (enter_lem xs requested seq container s h (omega arith))
                λ r _ v.
                  after_round _ xs seq container (if_set requested seq)
                    (requested_after (suc k) bitmask (add16 seq 1)) r v
                    (requested_after-ne (suc k) bitmask seq 1 h (omega arith) (omega arith))
                    (ih r (omega (arith, Visited-length xs seq container requested r v)) v.1))
        | inr t ↦
            let er : requested ≡ false = ground arith in
            let eb : bitmask ≡ 0 = ground arith in
            rw (er, eb)
              (fill_stop (suc fuel) xs 0 seq container (requested_after (suc k) 0 (add16 seq 1))
                refl (requested_after-zero (suc k) (add16 seq 1)) (omega arith) s)
      ]

-- The container is filled without a fault, the 18 elements included, with the packets of the numbers
-- that the item asks for, in order, that a well-formed buffer has and that were not sent again within
-- a round trip; and the buffer stays well-formed and as long.
pub fill_retransmission_container_lem :
    (now_ms rtt : ℕ) (xs : Slots) (seq bitmask : ℕ)
    → Shape xs
    → seq < u16_mod
    → bitmask < u16_mod
    → Returns (fill_retransmission_container now_ms rtt xs seq bitmask) (λ (ys, packets).
      (packets ≡ sent_again now_ms rtt xs (requested_numbers seq bitmask))
      × Shape ys
      × (length ys ≡ length xs))
unfolding fill_retransmission_container
fill_retransmission_container_lem now_ms rtt xs seq bitmask s h b =
    fill_loop_lem now_ms rtt 18 16 xs true bitmask seq [] (omega arith) (omega arith) (omega arith)
      h (omega arith) s
