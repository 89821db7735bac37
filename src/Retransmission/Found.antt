-- ===== src/Retransmission/Found.antt =====
-- A packet that arrives in order is in the buffer afterwards.
use bifrost_sdk.Base.{
  ℕ, zero, suc, ◌+◌, ◌^◌, ◌≤◌, ◌<◌, ◌≡◌, refl, sym, ◌∙◌, ◌≢◌, inl, inr, true, false, Option, none,
  some, [], ◌∷◌, ◌++◌, arith, length, length-append, length-replicate, get_elem?, replicate,
  Returns, Returns-bind, Returns-map, u16_mod, sub16,
}
use bifrost_sdk.Packet.{RtpPacket}
use bifrost_sdk.Retransmission.Defs.{
  Item, Slots, RetransmissionBuffer, higher16, lower32, new_item, get_newest, get,
}
use bifrost_sdk.Retransmission.Store.{push_back, make_room, insert_newer, insert_by_order, insert}
use bifrost_sdk.Retransmission.Slots.{Shape}
use bifrost_sdk.Retransmission.Newer.{
  EndsIn, RoomMade, newest_seq, make_room-RoomMade, push_back-Shape,
}
use bifrost_sdk.Retransmission.Clear.{Drops}
use bifrost_sdk.Retransmission.Lookup.{get_self, get-finds}
use bifrost_sdk.Retransmission.Insert.{IsValid, insert_rule, higher-ne}

get_newest-cons : (x : Option Item) (r : Slots) → r ≢ [] → get_newest (x ∷ r) ≡ get_newest r
unfolding get_newest
get_newest-cons x [] ne = absurd (ne refl)
get_newest-cons x (y ∷ r) ne = refl

-- The clearing leaves the newest item, unless it leaves none.
pub Drops-newest :
    {b : RetransmissionBuffer} {nt : ℕ} {xs ys : Slots}
    → Drops b nt xs ys
    → ys ≢ []
    → (xs ≢ []) × (get_newest xs ≡ get_newest ys)
Drops-newest Drops.stop ne = (ne, refl)
Drops-newest (Drops.blank {r} d) ne =
    let ih = Drops-newest d ne in (λ e. cc, get_newest-cons none r ih.0 ∙ ih.1)
Drops-newest (Drops.old {it} {r} _ d) ne =
    let ih = Drops-newest d ne in (λ e. cc, get_newest-cons (some it) r ih.0 ∙ ih.1)

get_elem?-append :
    (xs : Slots) (k i : ℕ) (it : Item)
    → i ≡ length xs + k
    → get_elem? (xs ++ (replicate k none ++ some it ∷ [])) i ≡ some (some it)
get_elem?-append [] zero zero it e = refl
get_elem?-append [] zero (suc i) it e = absurd (omega arith)
get_elem?-append [] (suc k) zero it e = absurd (omega arith)
get_elem?-append [] (suc k) (suc i) it e = get_elem?-append [] k i it (omega arith)
get_elem?-append (x ∷ r) k zero it e = absurd (omega arith)
get_elem?-append (x ∷ r) k (suc i) it e = get_elem?-append r k i it (omega arith)

pub length-push_back :
    (xs : Slots) (k : ℕ) (p : RtpPacket) → length (push_back xs k p) ≡ length xs + k + 1
unfolding push_back
length-push_back xs k p = omega (
  arith,
  length-append xs (replicate k none ++ some (new_item p) ∷ []),
  length-append (replicate k none) (some (new_item p) ∷ []),
  length-replicate {A = Option Item} k none,
)

-- The slots hold the packet's item under its number.
abbrev pub Holds : RtpPacket → Slots → Type 0
Holds p xs = get xs p.sequence_number ≡ some (new_item p)

push_back-Holds :
    (xs : Slots) (k : ℕ) (p : RtpPacket)
    → Shape (push_back xs k p)
    → length xs + k + 1 ≤ 2 ^ 15
    → Holds p (push_back xs k p)
unfolding push_back
push_back-Holds xs k p s l =
    get-finds (push_back xs k p) (length xs + k) (new_item p) s
      (omega (arith, length-push_back xs k p)) (get_elem?-append xs k _ (new_item p) refl)

alone-Holds : (p : RtpPacket) → p.sequence_number < u16_mod → Holds p (push_back [] 0 p)
unfolding push_back
alone-Holds p h = get_self (new_item p) [] h (omega arith)

-- How many blank slots a packet behind the newest item asks for.
abbrev pub gap : RtpPacket → Item → ℕ
gap p newest = sub16 (sub16 p.sequence_number newest.sequence_number) 1

insert_newer-Holds :
    (max_items : ℕ) (xs : Slots) (p : RtpPacket) (newest : Item)
    → EndsIn newest xs
    → p.sequence_number < u16_mod
    → newest.sequence_number < u16_mod
    → p.sequence_number ≢ newest.sequence_number
    → lower32 p.timestamp newest.timestamp ≡ false
    → length xs + gap p newest + 1 ≤ 2 ^ 15
    → Returns (insert_newer max_items xs p newest) (Holds p)
unfolding insert_newer
insert_newer-Holds max_items xs p newest s h k ne ts l = rw ts (
    Returns-bind (make_room max_items xs (gap p newest)) _ (RoomMade xs newest (gap p newest))
      (Holds p) (make_room-RoomMade max_items xs newest (gap p newest) s (omega arith))
      λ r _ made. elim made [
        | inl e ↦ rw (e.0, e.1) (alone-Holds p h)
        | inr e ↦
            push_back-Holds r.0 r.1 p (push_back-Shape r.0 newest r.1 p e.0.0 e.0.1 (omega arith))
              (omega arith)
      ])

insert_by_order-Holds :
    (b : RetransmissionBuffer) (it : Item) (r : Slots) (p : RtpPacket) (newest : Item)
    → EndsIn newest (some it ∷ r)
    → p.sequence_number < u16_mod
    → higher16 p.sequence_number newest.sequence_number ≡ true
    → lower32 p.timestamp newest.timestamp ≡ false
    → suc (length r) + gap p newest + 1 ≤ 2 ^ 15
    → Returns (insert_by_order b (some it ∷ r) p) (Holds p)
unfolding insert_by_order
insert_by_order-Holds b it r p newest s h hi ts l = rw s.1 (
    rw hi (
      insert_newer-Holds b.max_items (some it ∷ r) p newest s h
        (omega (arith, newest_seq it r newest s.0 s.1))
        (higher-ne p.sequence_number newest.sequence_number hi) ts l))

-- A packet with a higher number than the newest item's, whose timestamp is not lower, is in the
-- buffer after the call, and `Get` returns it: whatever the call has removed to make room, and
-- whatever the numbers' wrap. (The slots that the call would span are at most 2^15.)
pub insert_in_order :
    (b : RetransmissionBuffer) (p : RtpPacket) (newest : Item)
    → IsValid b
    → get_newest b.buffer ≡ some newest
    → p.sequence_number < u16_mod
    → higher16 p.sequence_number newest.sequence_number ≡ true
    → lower32 p.timestamp newest.timestamp ≡ false
    → length b.buffer + gap p newest + 1 ≤ 2 ^ 15
    → Returns (insert b p) (λ b'. get b'.buffer p.sequence_number ≡ some (new_item p))
insert_in_order b p newest v e h hi ts l =
    Returns-map (insert b p) _ _
      (insert_rule b p (Holds p) v (alone-Holds p h) λ it ys nt removed c.
        let last = Drops-newest c.drops (λ n. cc) in
        insert_by_order-Holds b it ys p newest (c.shape, sym last.1 ∙ e) h hi ts
          (omega (arith, c.smaller)))
      λ b' q. q.0
