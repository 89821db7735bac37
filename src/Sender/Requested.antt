-- ===== src/Sender/Requested.antt =====
-- The packets that a request is answered with, against a description without loop and container.
use bifrost_sdk.Base.{
  ℕ, zero, suc, ◌/◌, ◌%◌, ◌<◌, ◌≡◌, ◌≢◌, refl, sym, ap, ◌∙◌, inl, inr, Bool, true, false,
  Bool-cases, Option-cases, ltb, ◌==◌, if◌then◌else◌, Option, none, some, List, [], ◌∷◌, ◌++◌,
  length, append_assoc, append-nil, All, u16_mod, add16, Returns, arith,
}
use bifrost_sdk.Packet.{RtpPacket}
use bifrost_sdk.Retransmission.Defs.{Item, Slots, get}
use bifrost_sdk.Retransmission.Slots.{Shape}
use bifrost_sdk.Sender.Defs.{container_size, put_info, is_recent, resent, visit}
use bifrost_sdk.Sender.Resend.{get-store_item, Shape-store_item, length-store_item}

-- The numbers that a NACK item asks for: its own, and for each bit of the mask that is set the number
-- as far behind, from the lowest bit on.
abbrev pub if_set : Bool → ℕ → List ℕ
if_set true seq = seq ∷ []
if_set false seq = []

abbrev pub requested_after : ℕ → ℕ → ℕ → List ℕ
requested_after zero bitmask seq = []
requested_after (suc bits) bitmask seq =
    if_set (bitmask % 2 == 1) seq ++ requested_after bits (bitmask / 2) (add16 seq 1)

abbrev pub requested_numbers : ℕ → ℕ → List ℕ
requested_numbers seq bitmask = seq ∷ requested_after 16 bitmask (add16 seq 1)

module _ (now_ms rtt : ℕ) where
  -- The answer to one number, by what the buffer has under it: nothing if it was sent again of late.
  abbrev pub answer : Option Item → List RtpPacket
  answer none = []
  answer (some it) = if is_recent now_ms rtt it then [] else (put_info it).rtp_packet ∷ []

  unfoldable pub sent_again : Slots → List ℕ → List RtpPacket
  sent_again xs [] = []
  sent_again xs (n ∷ ns) = answer (get xs n) ++ sent_again xs ns

  pub sent_again-append :
      (xs : Slots) (ns ms : List ℕ)
      → sent_again xs (ns ++ ms) ≡ sent_again xs ns ++ sent_again xs ms
  unfolding sent_again
  sent_again-append xs [] ms = refl
  sent_again-append xs (n ∷ ns) ms =
      ap (◌++◌ (answer (get xs n))) (sent_again-append xs ns ms)
      ∙ sym (append_assoc (answer (get xs n)) (sent_again xs ns) (sent_again xs ms))

  pub sent_again-cong :
      (xs ys : Slots) (ns : List ℕ)
      → All (λ n. get ys n ≡ get xs n) ns
      → sent_again ys ns ≡ sent_again xs ns
  unfolding sent_again
  sent_again-cong xs ys [] a = refl
  sent_again-cong xs ys (n ∷ ns) a =
      ap (λ found. answer found ++ sent_again ys ns) a.0
      ∙ ap (◌++◌ (answer (get xs n))) (sent_again-cong xs ys ns a.1)

  -- What a visit to a number does: the packet, if any, behind the container, and a buffer that
  -- differs at that number only.
  abbrev pub Visited : Slots → ℕ → List RtpPacket → List ℕ → Slots × List RtpPacket → Type 0
  Visited xs seq container ns (ys, packets) =
      (packets ≡ container ++ sent_again xs ns)
      × Shape ys
      × (length ys ≡ length xs)
      × ((other : ℕ) → other < u16_mod → seq ≢ other → get ys other ≡ get xs other)

  pub visit_lem :
      (xs : Slots) (seq : ℕ) (container : List RtpPacket)
      → Shape xs
      → seq < u16_mod
      → length container < container_size
      → Returns (visit now_ms rtt xs seq container) (Visited xs seq container (seq ∷ []))
  unfolding visit sent_again
  visit_lem xs seq container s h l = elim (Option-cases (get xs seq)) [
    | inl e ↦
        rw (e, Returns) (sym (answered none e ∙ append-nil container), s, refl, λ other k ne. refl)
    | inr (it, e) ↦ elim (Bool-cases (is_recent now_ms rtt it)) [
      | inl t ↦
          rw (e, t, Returns)
            (
              sym (
                  answered (some it) e
                  ∙ ap (λ b. container ++ (if b then [] else (put_info it).rtp_packet ∷ [])) t
                  ∙ append-nil container),
              Shape-store_item it (put_info it) refl xs seq s e,
              length-store_item xs seq (put_info it),
              λ other k ne. get-store_item it (put_info it) refl xs seq other s h k ne e,
            )
      | inr t ↦
          let f : ltb (length container) container_size ≡ true = ground arith in
          rw (e, t, f, Returns)
            (
              sym (
                  answered (some it) e
                  ∙ ap (λ b. container ++ (if b then [] else (put_info it).rtp_packet ∷ [])) t),
              Shape-store_item it (resent now_ms (put_info it)) refl xs seq s e,
              length-store_item xs seq (resent now_ms (put_info it)),
              λ other k ne.
                  get-store_item it (resent now_ms (put_info it)) refl xs seq other s h k ne e,
            )
    ]
  ]
    where
      answered :
          (found : Option Item)
          → get xs seq ≡ found
          → container ++ sent_again xs (seq ∷ []) ≡ container ++ answer found
      answered found e =
          ap (λ f. container ++ (answer f ++ [])) e
          ∙ ap (◌++◌ container) (append-nil (answer found))
