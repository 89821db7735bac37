-- ===== src/Retransmission/Newer.antt =====
-- Part 4 of `Insert`, the packet after the newest one: no fault, and the shape is kept.
use bifrost_sdk.Base.{
  ℕ, ◌+◌, ◌-◌, ◌%◌, ◌^◌, ◌≤◌, ◌<◌, ◌≡◌, refl, ◌≢◌, ◌⊎◌, inl, inr, Bool-cases, Option, none, some,
  [], ◌∷◌, arith, length, Returns, Returns-bind, u16_mod, sub16,
}
use bifrost_sdk.Packet.{RtpPacket}
use bifrost_sdk.Retransmission.Defs.{
  Item, Slots, lower32, new_item, get_newest, remove_oldest, remove_oldest_items, drop_blanks,
}
use bifrost_sdk.Retransmission.Store.{push_back, make_room, insert_newer}
use bifrost_sdk.Retransmission.Slots.{Back, Shape, remove_oldest-Shape, get_newest-Back}
use bifrost_sdk.Retransmission.Build.{append-Shape}

get_newest-drop_blanks :
    (y : Option Item) (r : Slots)
    → Back (y ∷ r)
    → get_newest (drop_blanks (y ∷ r)) ≡ get_newest (y ∷ r)
unfolding get_newest drop_blanks
get_newest-drop_blanks (some it) r b = refl
get_newest-drop_blanks none [] b = absurd b
get_newest-drop_blanks none (z ∷ r) b = get_newest-drop_blanks z r b

pub newest_seq :
    (old : Item) (r : Slots) (newest : Item)
    → Shape (some old ∷ r)
    → get_newest (some old ∷ r) ≡ some newest
    → newest.sequence_number ≡ (old.sequence_number + length r) % u16_mod
newest_seq old r newest s e = rw e at (get_newest-Back old.sequence_number (some old) r s.1 s.2)

pub push_back-Shape :
    (xs : Slots) (newest : Item) (blanks : ℕ) (p : RtpPacket)
    → Shape xs
    → get_newest xs ≡ some newest
    → p.sequence_number ≡ (newest.sequence_number + 1 + blanks) % u16_mod
    → Shape (push_back xs blanks p)
unfolding push_back get_newest
push_back-Shape [] newest blanks p s e h = cc
push_back-Shape (none ∷ r) newest blanks p s e h = absurd s
push_back-Shape (some old ∷ r) newest blanks p s e h =
    append-Shape old r blanks (new_item p) s (omega (arith, newest_seq old r newest s e))

-- The slots still end in the newest item.
abbrev pub EndsIn : Item → Slots → Type 0
EndsIn newest ys = Shape ys × (get_newest ys ≡ some newest)

remove_oldest_items_lem :
    (xs : Slots) (newest : Item) (n : ℕ)
    → EndsIn newest xs
    → length xs ≤ 2 ^ 15
    → n ≤ length xs - 1
    → Returns
        (remove_oldest_items xs n)
        (λ ys. EndsIn newest ys × (length ys ≤ length xs) × (n ≢ 0 → length ys < length xs))
unfolding remove_oldest_items remove_oldest get_newest
remove_oldest_items_lem [] newest n s l h = ground arith
remove_oldest_items_lem (none ∷ r) newest n s l h = absurd s.0
remove_oldest_items_lem (some old ∷ []) newest n s l h = ground arith
remove_oldest_items_lem (some old ∷ y ∷ r) newest n s l h =
    ground (arith, get_newest-drop_blanks y r s.0.2, remove_oldest-Shape old (y ∷ r) s.0)

pub length_of_EndsIn : (xs : Slots) (newest : Item) → EndsIn newest xs → 0 < length xs
unfolding get_newest
length_of_EndsIn [] newest s = cc s.1
length_of_EndsIn (x ∷ r) newest s = omega arith

-- Part 4 leaves an empty buffer without blanks to add, or one that ends in the same item.
abbrev pub RoomMade : Slots → Item → ℕ → Slots × ℕ → Type 0
RoomMade xs newest blanks r =
    ((r.0 ≡ []) × (r.1 ≡ 0)) ⊎ (EndsIn newest r.0 × (r.1 ≡ blanks) × (length r.0 ≤ length xs))

pub make_room-RoomMade :
    (max_items : ℕ) (xs : Slots) (newest : Item) (blanks : ℕ)
    → EndsIn newest xs
    → length xs ≤ 2 ^ 15
    → Returns (make_room max_items xs blanks) (RoomMade xs newest blanks)
unfolding make_room
make_room-RoomMade max_items xs newest blanks s l = ground (
  arith,
  length_of_EndsIn xs newest s,
  remove_oldest_items_lem xs newest ((length xs + blanks + 1 - max_items) % u16_mod) s l,
)

-- Without blanks to add, a buffer within the limit has room for the item afterwards.
pub make_room_bounded :
    (max_items : ℕ) (xs : Slots) (newest : Item)
    → EndsIn newest xs
    → length xs ≤ 2 ^ 15
    → length xs ≤ max_items
    → Returns (make_room max_items xs 0) (λ r. (r.1 ≡ 0) × (length r.0 + 1 ≤ max_items))
unfolding make_room
make_room_bounded max_items xs newest s l m = ground (
  arith,
  length_of_EndsIn xs newest s,
  remove_oldest_items_lem xs newest ((length xs + 0 + 1 - max_items) % u16_mod) s l,
)

pub insert_newer-Shape :
    (max_items : ℕ) (xs : Slots) (p : RtpPacket) (newest : Item)
    → EndsIn newest xs
    → length xs ≤ 2 ^ 15
    → p.sequence_number < u16_mod
    → newest.sequence_number < u16_mod
    → p.sequence_number ≢ newest.sequence_number
    → Returns (insert_newer max_items xs p newest) Shape
unfolding insert_newer
insert_newer-Shape max_items xs p newest s l h k ne =
    elim (Bool-cases (lower32 p.timestamp newest.timestamp)) [
      | inl low ↦ rw low s.0
      | inr ok ↦ rw ok (
          Returns-bind
            (make_room max_items xs (sub16 (sub16 p.sequence_number newest.sequence_number) 1))
            (λ r. some (push_back r.0 r.1 p))
            (RoomMade xs newest (sub16 (sub16 p.sequence_number newest.sequence_number) 1)) Shape
            (make_room-RoomMade max_items xs newest _ s l)
            (λ r _ made. elim made [
              | inl e ↦ rw (e.0, e.1) (unfold push_back in (h, (omega arith, tt), tt))
              | inr e ↦ push_back-Shape r.0 newest r.1 p e.0.0 e.0.1 (omega arith)
            ]))
    ]
