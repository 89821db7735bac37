-- ===== src/Retransmission/Tests.antt =====
-- The buffer at concrete packets.
use bifrost_sdk.Base.{
  ℕ, ◌≤◌, ◌≡◌, ◌↔◌, refl, false, none, some, [], ◌∷◌, arith, length, get_elem?, Returns,
}
use bifrost_sdk.Seq.{is_seq_lower_than, is_seq_higher_than}
use bifrost_sdk.Packet.{RtpPacket}
use bifrost_sdk.Retransmission.Defs.{
  Item, Slots, RetransmissionBuffer, new_item, get_oldest, get_newest, get, is_too_old_timestamp,
  clear_loop, clear_too_old_by_timestamp,
}
use bifrost_sdk.Retransmission.Store.{
  older_fits, newer_fits, write_slot, insert_between, insert_by_order, insert_nonempty, insert,
}
use bifrost_sdk.Retransmission.Slots.{Shape}
use bifrost_sdk.Retransmission.Clear.{Cleared, clear_too_old-Cleared}
use bifrost_sdk.Retransmission.Lookup.{get-eq-some}
use bifrost_sdk.Retransmission.Insert.{IsValid, insert-IsValid}
use bifrost_sdk.Retransmission.Found.{insert_in_order}
use bifrost_sdk.Retransmission.Bounds.{insert_bounded, insert_exceeds}

abbrev packet : ℕ → ℕ → RtpPacket
packet seq timestamp = record {
  payload_type = 100;
  sequence_number = seq;
  timestamp = timestamp;
  ssrc = 7;
  size = 1000;
}

abbrev item : ℕ → ℕ → Item
item seq timestamp = new_item (packet seq timestamp)

-- 65534, a blank slot, 0 and 1, with a limit of four slots and of one second.
abbrev slots : Slots
slots = some (item 65534 1000) ∷ none ∷ some (item 0 2000) ∷ some (item 1 3000) ∷ []

abbrev full : RetransmissionBuffer
full = record {
  buffer = slots;
  max_items = 4;
  max_retransmission_delay_ms = 1000;
  clock_rate = 90000;
}

slots-Shape : Shape slots
slots-Shape = omega arith

full-IsValid : IsValid full
full-IsValid = omega arith

-- The blank slot is filled.
insert_fills_the_blank :
    insert full (packet 65535 1500)
    ≡ some (record full {
      buffer =
          some (item 65534 1000)
          ∷ some (item 65535 1500)
          ∷ some (item 0 2000)
          ∷ some (item 1 3000)
          ∷ [];
    })
unfolding insert insert_nonempty insert_by_order insert_between older_fits newer_fits write_slot
    get_newest get_oldest get clear_too_old_by_timestamp clear_loop is_too_old_timestamp
    is_seq_lower_than is_seq_higher_than
insert_fills_the_blank = refl

insert-IsValid_example : Returns (insert full (packet 7 4000)) IsValid
insert-IsValid_example =
    insert-IsValid full (packet 7 4000) full-IsValid (omega arith) (omega arith)

insert_in_order_example :
    Returns (insert full (packet 3 4000)) (λ b'. get b'.buffer 3 ≡ some (item 3 4000))
unfolding get_newest is_seq_higher_than is_seq_lower_than
insert_in_order_example =
    insert_in_order full (packet 3 4000) (item 1 3000) full-IsValid refl (omega arith) refl refl
      (omega arith)

get-eq-some_example : (get slots 0 ≡ some (item 0 2000)) ↔ (
    (i : ℕ) × (get_elem? slots i ≡ some (some (item 0 2000))) × ((item 0 2000).sequence_number ≡ 0))
get-eq-some_example = get-eq-some slots 0 (item 0 2000) slots-Shape (omega arith) (omega arith)

clear_too_old-Cleared_example :
    Returns (clear_too_old_by_timestamp full 92000) (Cleared full 92000 slots false)
clear_too_old-Cleared_example = clear_too_old-Cleared full 92000 (omega arith) slots-Shape

insert_bounded_example : Returns (insert full (packet 2 4000)) (λ b'. length b'.buffer ≤ 4)
unfolding get_newest
insert_bounded_example =
    insert_bounded full (packet 2 4000) (item 1 3000) full-IsValid refl (omega arith) (λ _. refl)
      (omega arith) (omega arith) (omega arith)

-- Four slots without a blank, and a packet that leaves one number out: five slots.
abbrev dense : RetransmissionBuffer
dense = record full {
  buffer = some (item 8 0) ∷ some (item 9 0) ∷ some (item 10 0) ∷ some (item 11 0) ∷ [];
}

insert_exceeds_example : Returns (insert dense (packet 13 0)) (λ b'. length b'.buffer ≡ 5)
unfolding get_newest is_seq_lower_than is_seq_higher_than is_too_old_timestamp
insert_exceeds_example =
    insert_exceeds dense (packet 13 0) (item 8 0) (item 9 0) (item 11 0)
      (some (item 10 0) ∷ some (item 11 0) ∷ []) refl refl refl (omega arith) (omega arith)
      (omega arith) refl refl refl (omega arith)
