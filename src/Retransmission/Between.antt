-- ===== src/Retransmission/Between.antt =====
-- Parts 5 and 6 of `Insert`, a packet before the oldest one or between the two ends.
use bifrost_sdk.Base.{
  ℕ, zero, suc, ◌+◌, ◌%◌, ◌≤◌, ◌<◌, ◌≡◌, refl, ◌≢◌, Option, none, some, [], ◌∷◌, arith, length,
  get_elem?, Returns, u16_mod, sub16,
}
use bifrost_sdk.Packet.{RtpPacket}
use bifrost_sdk.Retransmission.Defs.{Item, Slots, RetransmissionBuffer, new_item}
use bifrost_sdk.Retransmission.Store.{insert_older, older_fits, write_slot, insert_between}
use bifrost_sdk.Retransmission.Slots.{Shape}
use bifrost_sdk.Retransmission.Build.{prepend-Shape, set-Shape}
use bifrost_sdk.Retransmission.Clear.{is_too_old_cases}

pub insert_older-Shape :
    (b : RetransmissionBuffer) (old : Item) (r : Slots) (p : RtpPacket) (newest : Item)
    → 0 < b.clock_rate
    → Shape (some old ∷ r)
    → p.sequence_number < u16_mod
    → p.sequence_number ≢ old.sequence_number
    → Returns (insert_older b (some old ∷ r) p old newest) Shape
unfolding insert_older
insert_older-Shape b old r p newest c s h ne = ground (
  arith,
  is_too_old_cases b p.timestamp newest.timestamp c,
  prepend-Shape old r (sub16 (sub16 old.sequence_number p.sequence_number) 1) (new_item p) s h,
)

get_elem?_in_range :
    (xs : Slots) (k : ℕ) → k < length xs → (x : Option Item) × (get_elem? xs k ≡ some x)
get_elem?_in_range [] k h = absurd (omega arith)
get_elem?_in_range (x ∷ r) zero h = (x, refl)
get_elem?_in_range (x ∷ r) (suc k) h = get_elem?_in_range r k (omega arith)

older_fits-ne-none : (xs : Slots) (ts k : ℕ) → k ≤ length xs → older_fits xs ts k ≢ none
unfolding older_fits
older_fits-ne-none xs ts zero h = cc
older_fits-ne-none xs ts (suc k) h =
    ground (arith, get_elem?_in_range xs k h, older_fits-ne-none xs ts k)

write_slot-Shape :
    (old : Item) (r : Slots) (i : ℕ) (p : RtpPacket)
    → Shape (some old ∷ r)
    → i ≢ 0
    → i ≤ length r
    → p.sequence_number ≡ (old.sequence_number + i) % u16_mod
    → Returns (write_slot (some old ∷ r) i (new_item p)) Shape
unfolding write_slot
write_slot-Shape old r zero p s ne l e = absurd (ne refl)
write_slot-Shape old r (suc i) p s ne l e = ground (arith, set-Shape old r i (new_item p) s e)

pub insert_between-Shape :
    (old : Item) (r : Slots) (p : RtpPacket)
    → Shape (some old ∷ r)
    → p.sequence_number < u16_mod
    → p.sequence_number ≢ old.sequence_number
    → sub16 p.sequence_number old.sequence_number ≤ length r
    → Returns (insert_between (some old ∷ r) p old) Shape
unfolding insert_between
insert_between-Shape old r p s h ne l = ground (
  arith,
  older_fits-ne-none (some old ∷ r) p.timestamp (sub16 p.sequence_number old.sequence_number),
  write_slot-Shape old r (sub16 p.sequence_number old.sequence_number) p s,
)
