-- ===== src/Retransmission/Store.antt =====
-- `RtpRetransmissionBuffer::Insert`, one function for each of the numbered parts of its body.
use bifrost_sdk.Base.{
  ℕ, zero, suc, ◌+◌, ◌-◌, ◌%◌, Bool, true, ltb, leb, ◌&&◌, ◌||◌, if◌then◌else◌, Option, none, some,
  ◌>>=◌, [], ◌∷◌, ◌++◌, length, get_elem?, set, drop, replicate, u16_mod, sub16, sub64,
}
use bifrost_sdk.Packet.{RtpPacket}
use bifrost_sdk.Retransmission.Defs.{
  Item, Slots, RetransmissionBuffer, lower16, higher16, lower32, higher32, new_item, is_empty,
  clear, get_oldest, get_newest, get, remove_oldest_items, is_too_old_timestamp,
  clear_too_old_by_timestamp,
}

-- `push_back(nullptr)` for each of the blanks, and then the new item.
unfoldable pub push_back : Slots → ℕ → RtpPacket → Slots
push_back xs blanks p = xs ++ (replicate blanks none ++ some (new_item p) ∷ [])

-- The room that part 4 makes: the slots that stay, and the blanks that still are to be added.
unfoldable pub make_room : ℕ → Slots → ℕ → Option (Slots × ℕ)
make_room max_items xs blanks =
    if ltb max_items (length xs + blanks + 1)
    then (if ltb (sub64 (length xs) 1) ((length xs + blanks + 1 - max_items) % u16_mod)
        then some (clear xs, 0)
        else (remove_oldest_items xs ((length xs + blanks + 1 - max_items) % u16_mod) >>= λ ys.
            some (ys, blanks)))
    else some (xs, blanks)

-- Part 4: the number is higher than the newest one.
unfoldable pub insert_newer : ℕ → Slots → RtpPacket → Item → Option Slots
insert_newer max_items xs p newest =
    if lower32 p.timestamp newest.timestamp
    then some xs
    else (make_room max_items xs (sub16 (sub16 p.sequence_number newest.sequence_number) 1) >>= λ r.
        some (push_back r.0 r.1 p))

-- Part 5: the number is lower than the oldest one. `push_front` of each blank and of the item.
unfoldable pub insert_older : RetransmissionBuffer → Slots → RtpPacket → Item → Item → Option Slots
insert_older b xs p oldest newest = is_too_old_timestamp b p.timestamp newest.timestamp >>= λ old.
    if old || higher32 p.timestamp oldest.timestamp
    then some xs
    else (if ltb b.max_items
          (length xs + sub16 (sub16 oldest.sequence_number p.sequence_number) 1 + 1)
        then some xs
        else some (
            some (new_item p)
            ∷ (replicate (sub16 (sub16 oldest.sequence_number p.sequence_number) 1) none ++ xs)))

-- `for (int32_t idx2 = idx - 1; idx2 >= 0; --idx2)`: the next older item, if any, fits. `at` throws
-- behind the end.
unfoldable pub older_fits : Slots → ℕ → ℕ → Option Bool
older_fits xs ts zero = some true
older_fits xs ts (suc k) = elim (get_elem? xs k) [
  | none ↦ none
  | some none ↦ older_fits xs ts k
  | some (some older) ↦ some (leb older.timestamp ts)
]

-- `for (size_t idx2 = idx + 1; idx2 < size(); ++idx2)`, over the slots from idx + 1 on.
unfoldable pub newer_fits : Slots → ℕ → Bool
newer_fits [] ts = true
newer_fits (none ∷ r) ts = newer_fits r ts
newer_fits (some newer ∷ r) ts = leb ts newer.timestamp

-- `buffer_[idx] = item`
unfoldable pub write_slot : Slots → ℕ → Item → Option Slots
write_slot xs i it = if ltb i (length xs) then some (set xs i (some it)) else none

-- Part 6: the number is between the oldest and the newest one.
unfoldable pub insert_between : Slots → RtpPacket → Item → Option Slots
insert_between xs p oldest = elim (get xs p.sequence_number) [
  | some _ ↦ some xs
  | none ↦ older_fits xs p.timestamp (sub16 p.sequence_number oldest.sequence_number) >>= λ fits.
      if fits
        && newer_fits (drop (sub16 p.sequence_number oldest.sequence_number + 1) xs) p.timestamp
      then write_slot xs (sub16 p.sequence_number oldest.sequence_number) (new_item p)
      else some xs
]

-- Parts 4 to 6. The items are read again, as the code does after a removal: without one they are
-- those that it read before.
unfoldable pub insert_by_order : RetransmissionBuffer → Slots → RtpPacket → Option Slots
insert_by_order b xs p = get_newest xs >>= λ newest.
    if higher16 p.sequence_number newest.sequence_number
    then insert_newer b.max_items xs p newest
    else (get_oldest xs >>= λ oldest.
        if lower16 p.sequence_number oldest.sequence_number
        then insert_older b xs p oldest newest
        else insert_between xs p oldest)

-- Part 3: the timestamp by which old items are removed.
abbrev pub newest_timestamp : RtpPacket → Item → ℕ
newest_timestamp p newest =
    if higher32 p.timestamp newest.timestamp then p.timestamp else newest.timestamp

-- Parts 2 and 3.
unfoldable pub insert_nonempty : RetransmissionBuffer → RtpPacket → Option Slots
insert_nonempty b p = get_newest b.buffer >>= λ newest.
    if lower16 p.sequence_number newest.sequence_number && higher32 p.timestamp newest.timestamp
    then some (push_back (clear b.buffer) 0 p)
    else (clear_too_old_by_timestamp b (newest_timestamp p newest) >>= λ r.
        if r.1 && is_empty r.0 then some (push_back r.0 0 p) else insert_by_order b r.0 p)

unfoldable pub insert : RetransmissionBuffer → RtpPacket → Option RetransmissionBuffer
insert b p =
    (if is_empty b.buffer then some (push_back b.buffer 0 p) else insert_nonempty b p) >>= λ xs.
    some (record b { buffer = xs })
