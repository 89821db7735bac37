-- ===== src/Retransmission/Defs.antt =====
-- The buffer, its items, and the operations that look up and remove.
use bifrost_sdk.Base.{
  ℕ, zero, suc, ◌+◌, ◌-◌, ◌*◌, ◌/◌, ◌%◌, Bool, true, false, ltb, ◌==◌, if◌then◌else◌, Option, none,
  some, ◌>>=◌, List, [], ◌∷◌, length, get_elem?, u16_mod, u32_mod, sub16, sub32, sub64,
}
use bifrost_sdk.Seq.{is_seq_lower_than, is_seq_higher_than}
use bifrost_sdk.Packet.{RtpPacket}

-- `SeqManager<uint16_t>` and `SeqManager<uint32_t>`
abbrev pub lower16 : ℕ → ℕ → Bool
lower16 = is_seq_lower_than (u16_mod - 1)

abbrev pub higher16 : ℕ → ℕ → Bool
higher16 = is_seq_higher_than (u16_mod - 1)

abbrev pub lower32 : ℕ → ℕ → Bool
lower32 = is_seq_lower_than (u32_mod - 1)

abbrev pub higher32 : ℕ → ℕ → Bool
higher32 = is_seq_higher_than (u32_mod - 1)

pub record Item : Type 0 where
  pub rtp_packet : RtpPacket
  pub ssrc : ℕ
  pub sequence_number : ℕ
  pub timestamp : ℕ
  pub resent_at_ms : ℕ
  pub sent_times : ℕ

-- `new Item(rtp_packet, ssrc, seq, timestamp, 0, 0)`
abbrev pub new_item : RtpPacket → Item
new_item p = record {
  rtp_packet = p;
  ssrc = p.ssrc;
  sequence_number = p.sequence_number;
  timestamp = p.timestamp;
  resent_at_ms = 0;
  sent_times = 0;
}

abbrev pub Slots : Type 0
Slots = List (Option Item)

pub record RetransmissionBuffer : Type 0 where
  pub buffer : Slots
  pub max_items : ℕ
  pub max_retransmission_delay_ms : ℕ
  pub clock_rate : ℕ

abbrev pub is_empty : Slots → Bool
is_empty [] = true
is_empty (_ ∷ _) = false

-- `Clear` frees the items, passes over the blank slots, and empties the deque.
abbrev pub clear : Slots → Slots
clear xs = []

unfoldable pub get_oldest : Slots → Option Item
get_oldest [] = none
get_oldest (x ∷ _) = x

unfoldable pub get_newest : Slots → Option Item
get_newest [] = none
get_newest (x ∷ []) = x
get_newest (_ ∷ y ∷ r) = get_newest (y ∷ r)

-- `at` behind a check of the index: the pointer that stands there.
abbrev pub slot : Option (Option Item) → Option Item
slot none = none
slot (some x) = x

-- `Get` reads no pointer before it has tested it: it cannot fault.
unfoldable pub get : Slots → ℕ → Option Item
get xs seq = elim (get_oldest xs) [
  | none ↦ none
  | some oldest ↦
      if lower16 seq oldest.sequence_number
      then none
      else (if ltb (sub64 (length xs) 1) (sub16 seq oldest.sequence_number)
          then none
          else slot (get_elem? xs (sub16 seq oldest.sequence_number)))
]

-- `while (!empty() && front() == nullptr) pop_front();`
unfoldable pub drop_blanks : Slots → Slots
drop_blanks [] = []
drop_blanks (none ∷ r) = drop_blanks r
drop_blanks (some it ∷ r) = some it ∷ r

-- `RemoveOldest()` resets the front item, which faults on a blank slot.
unfoldable pub remove_oldest : Slots → Option Slots
remove_oldest [] = some []
remove_oldest (none ∷ r) = none
remove_oldest (some it ∷ r) = some (drop_blanks r)

-- `RemoveOldest(uint16_t)`: the test of the size stands in an `if`, and is made once.
unfoldable pub remove_oldest_items : Slots → ℕ → Option Slots
remove_oldest_items xs num_items =
    if ltb (sub64 (length xs) num_items) (length xs) then remove_oldest xs else some xs

-- `int64_t diff_ts` is the 32-bit difference, which is not negative.
unfoldable pub is_too_old_timestamp : RetransmissionBuffer → ℕ → ℕ → Option Bool
is_too_old_timestamp b timestamp newest_timestamp =
    if higher32 timestamp newest_timestamp
    then some false
    else (if b.clock_rate == 0
        then none
        else some (
            ltb b.max_retransmission_delay_ms
              (sub32 newest_timestamp timestamp * 1000 / b.clock_rate % u32_mod)))

-- The loop of `ClearTooOldByTimestamp` on fuel, with `items_removed`. Each round removes a slot.
unfoldable pub clear_loop : RetransmissionBuffer → ℕ → ℕ → Slots → Bool → Option (Slots × Bool)
clear_loop b newest_timestamp zero xs removed = none
clear_loop b newest_timestamp (suc fuel) xs removed = elim (get_oldest xs) [
  | none ↦ some (xs, removed)
  | some oldest ↦ is_too_old_timestamp b oldest.timestamp newest_timestamp >>= elim [
    | true ↦ remove_oldest xs >>= λ ys. clear_loop b newest_timestamp fuel ys true
    | false ↦ some (xs, removed)
  ]
]

unfoldable pub clear_too_old_by_timestamp : RetransmissionBuffer → ℕ → Option (Slots × Bool)
clear_too_old_by_timestamp b newest_timestamp =
    clear_loop b newest_timestamp (length b.buffer + 1) b.buffer false
