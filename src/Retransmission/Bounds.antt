-- ===== src/Retransmission/Bounds.antt =====
-- How far `Insert` keeps the buffer within `max_items_`.
use bifrost_sdk.Base.{
  ℕ, suc, ◌+◌, ◌%◌, ◌^◌, ◌≤◌, ◌<◌, ◌≡◌, refl, sym, ap, ◌∙◌, inl, inr, Bool-cases, true, false,
  Option, replicate, some, [], ◌∷◌, arith, length, length-append, length-replicate, length-set,
  none, Returns, Returns-bind, Returns-eq, Returns-map, Returns-some, u16_mod, sub16,
}
use bifrost_sdk.Packet.{RtpPacket}
use bifrost_sdk.Retransmission.Defs.{
  Item, Slots, RetransmissionBuffer, is_empty, lower16, higher16, lower32, is_too_old_timestamp,
  clear_loop, clear_too_old_by_timestamp, new_item, get_newest, get_oldest, remove_oldest,
  remove_oldest_items, drop_blanks,
}
use bifrost_sdk.Retransmission.Store.{
  make_room, insert_newer, insert_older, write_slot, insert_between, insert_by_order,
  insert_nonempty, newest_timestamp, insert,
}
use bifrost_sdk.Seq.{is_seq_lower_than, is_seq_higher_than}
use bifrost_sdk.Retransmission.Slots.{Shape}
use bifrost_sdk.Retransmission.Newer.{EndsIn, length_of_EndsIn, make_room_bounded}
use bifrost_sdk.Retransmission.Found.{Drops-newest, length-push_back, gap}
use bifrost_sdk.Retransmission.Insert.{IsValid, insert_rule, insert_by_order-Shape}

abbrev AtMost : ℕ → Slots → Type 0
AtMost max_items xs = length xs ≤ max_items

insert_newer_bounded :
    (max_items : ℕ) (xs : Slots) (p : RtpPacket) (newest : Item)
    → EndsIn newest xs
    → length xs ≤ 2 ^ 15
    → length xs ≤ max_items
    → gap p newest ≡ 0
    → Returns (insert_newer max_items xs p newest) (AtMost max_items)
unfolding insert_newer
insert_newer_bounded max_items xs p newest s l m g =
    elim (Bool-cases (lower32 p.timestamp newest.timestamp)) [
      | inl low ↦ rw low m
      | inr ok ↦
          rw (ok, g)
            (Returns-bind (make_room max_items xs 0) _ _ (AtMost max_items)
              (make_room_bounded max_items xs newest s l m)
              λ r _ made. omega (arith, made, length-push_back r.0 r.1 p))
    ]

insert_older_bounded :
    (b : RetransmissionBuffer) (xs : Slots) (p : RtpPacket) (old newest : Item) (ys : Slots)
    → length xs ≤ b.max_items
    → insert_older b xs p old newest ≡ some ys
    → length ys ≤ b.max_items
unfolding insert_older
insert_older_bounded b xs p old newest ys m e =
    let k = sub16 (sub16 old.sequence_number p.sequence_number) 1 in
    ground (arith, length-append (replicate k none) xs, length-replicate {A = Option Item} k none)

insert_between_bounded :
    (xs : Slots) (p : RtpPacket) (old : Item) (ys : Slots)
    → insert_between xs p old ≡ some ys
    → length ys ≡ length xs
unfolding insert_between write_slot
insert_between_bounded xs p old ys e =
    ground (arith, length-set xs (sub16 p.sequence_number old.sequence_number) (some (new_item p)))

insert_by_order_bounded :
    (b : RetransmissionBuffer) (it : Item) (r : Slots) (p : RtpPacket) (newest : Item) (ys : Slots)
    → EndsIn newest (some it ∷ r)
    → suc (length r) ≤ 2 ^ 15
    → suc (length r) ≤ b.max_items
    → (higher16 p.sequence_number newest.sequence_number ≡ true → gap p newest ≡ 0)
    → insert_by_order b (some it ∷ r) p ≡ some ys
    → length ys ≤ b.max_items
unfolding insert_by_order get_oldest
insert_by_order_bounded b it r p newest ys s l m g e = ground (
  arith,
  s.1,
  λ (q : gap p newest ≡ 0) (f : insert_newer b.max_items (some it ∷ r) p newest ≡ some ys).
      Returns-eq f (AtMost b.max_items)
        (insert_newer_bounded b.max_items (some it ∷ r) p newest s l m q),
  insert_older_bounded b (some it ∷ r) p it newest ys m,
  insert_between_bounded (some it ∷ r) p it ys,
)

-- The limit holds as long as no packet leaves a gap behind the newest one: `Insert` of a packet that
-- follows the newest, or is not above it, keeps a buffer within `max_items_` within it.
pub insert_bounded :
    (b : RetransmissionBuffer) (p : RtpPacket) (newest : Item)
    → IsValid b
    → get_newest b.buffer ≡ some newest
    → p.sequence_number < u16_mod
    → (higher16 p.sequence_number newest.sequence_number ≡ true
        → p.sequence_number ≡ (newest.sequence_number + 1) % u16_mod)
    → newest.sequence_number < u16_mod
    → b.max_items ≤ 2 ^ 15
    → length b.buffer ≤ b.max_items
    → Returns (insert b p) (λ b'. length b'.buffer ≤ b.max_items)
insert_bounded b p newest v e h next k m l =
    Returns-map (insert b p) _ _
      (insert_rule b p (AtMost b.max_items) v
        (omega (arith, length-push_back [] 0 p, length_of_EndsIn b.buffer newest (v.shape, e)))
        λ it ys nt removed c.
          let last = Drops-newest c.drops (λ n. cc) in
          let (zs, f, _) =
            Returns-some (insert_by_order b (some it ∷ ys) p) Shape
              (insert_by_order-Shape b it ys p v.clock c.shape (omega (arith, c.smaller)) h) in
          rw f (
            insert_by_order_bounded b it ys p newest zs (c.shape, sym last.1 ∙ e)
              (omega (arith, c.smaller)) (omega (arith, c.smaller)) (λ hi. omega (arith, next hi))
              f))
      λ b' q. q.0

-- Part 4 of `Insert`, on a full list of slots whose second one is not blank.
insert_newer_exceeds :
    (max_items : ℕ) (old second : Item) (r : Slots) (p : RtpPacket) (newest : Item)
    → length (some old ∷ some second ∷ r) ≡ max_items
    → max_items < 2 ^ 15
    → lower32 p.timestamp newest.timestamp ≡ false
    → gap p newest + 2 ≤ max_items
    → Returns
        (insert_newer max_items (some old ∷ some second ∷ r) p newest)
        (λ ys. length ys ≡ max_items + gap p newest)
unfolding insert_newer make_room remove_oldest_items remove_oldest drop_blanks
insert_newer_exceeds max_items old second r p newest e l ts g =
    ground (arith, length-push_back (some second ∷ r) (gap p newest) p)

not_lower : (x y : ℕ) → x < u16_mod → y < u16_mod → higher16 x y ≡ true → lower16 x y ≡ false
unfolding is_seq_higher_than is_seq_lower_than
not_lower x y h k e = ground arith

clear_loop_fresh :
    (b : RetransmissionBuffer) (nt fuel : ℕ) (old : Item) (r : Slots)
    → is_too_old_timestamp b old.timestamp nt ≡ some false
    → clear_loop b nt (suc fuel) (some old ∷ r) false ≡ some (some old ∷ r, false)
unfolding clear_loop get_oldest
clear_loop_fresh b nt fuel old r e = rw e refl

clear_loop_at :
    (b : RetransmissionBuffer) (nt : ℕ) (old : Item) (r xs : Slots)
    → xs ≡ some old ∷ r
    → is_too_old_timestamp b old.timestamp nt ≡ some false
    → clear_loop b nt (length xs + 1) xs false ≡ some (some old ∷ r, false)
clear_loop_at b nt old r xs e h =
    let n : length (some old ∷ r) + 1 ≡ suc (length (some old ∷ r)) = omega arith in
    rw (e, n) (clear_loop_fresh b nt (length (some old ∷ r)) old r h)

clear_too_old_fresh :
    (b : RetransmissionBuffer) (nt : ℕ) (old : Item) (r : Slots)
    → b.buffer ≡ some old ∷ r
    → is_too_old_timestamp b old.timestamp nt ≡ some false
    → clear_too_old_by_timestamp b nt ≡ some (some old ∷ r, false)
unfolding clear_too_old_by_timestamp
clear_too_old_fresh b nt old r e h = clear_loop_at b nt old r b.buffer e h

-- `RemoveOldest(uint16_t)` removes one item, however many it is asked to remove. So the limit is not kept: `Insert`
-- into a full buffer, of which the second slot is not blank and the oldest item not too old, of a packet that is above the
-- newest by k numbers and one, with no lower timestamp, leaves k slots more than `max_items_`. (k + 2 is
-- at most `max_items_`; with more, the buffer is emptied instead. `max_items_` is below 2^15.)
pub insert_exceeds :
    (b : RetransmissionBuffer) (p : RtpPacket) (old second newest : Item) (r : Slots)
    → b.buffer ≡ some old ∷ some second ∷ r
    → get_newest b.buffer ≡ some newest
    → length b.buffer ≡ b.max_items
    → b.max_items < 2 ^ 15
    → p.sequence_number < u16_mod
    → newest.sequence_number < u16_mod
    → higher16 p.sequence_number newest.sequence_number ≡ true
    → lower32 p.timestamp newest.timestamp ≡ false
    → is_too_old_timestamp b old.timestamp (newest_timestamp p newest) ≡ some false
    → gap p newest + 2 ≤ b.max_items
    → Returns (insert b p) (λ b'. length b'.buffer ≡ b.max_items + gap p newest)
unfolding insert insert_nonempty insert_by_order
insert_exceeds b p old second newest r e n l m h k hi ts fresh g =
    let full : Slots = some old ∷ some second ∷ r in
    let last : get_newest full ≡ some newest = rw e at n in
    let size : length full ≡ b.max_items = rw e at l in
    let kept = clear_too_old_fresh b (newest_timestamp p newest) old (some second ∷ r) e fresh in
    let below = not_lower p.sequence_number newest.sequence_number h k hi in
    let (ys, made, longer) =
      Returns-some (insert_newer b.max_items full p newest) _
        (insert_newer_exceeds b.max_items old second r p newest size m ts g) in
    let some_in : is_empty b.buffer ≡ false = ap is_empty e in
    rw (some_in, n, below, kept, last, hi, made) longer
