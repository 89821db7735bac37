-- ===== src/Retransmission/Insert.antt =====
-- `Insert` as a whole: on a well-formed buffer it never faults, and keeps it well-formed.
use bifrost_sdk.Base.{
  ℕ, suc, ◌+◌, ◌%◌, ◌^◌, ◌≤◌, ◌<◌, ◌≡◌, refl, sym, ◌≢◌, inl, inr, Bool, true, false, Bool-cases,
  ◌&&◌, if◌then◌else◌, none, some, [], ◌∷◌, arith, length, Returns, Returns-bind, Returns-map,
  u16_mod, sub16,
}
use bifrost_sdk.Seq.{is_seq_lower_than, is_seq_higher_than}
use bifrost_sdk.Packet.{RtpPacket}
use bifrost_sdk.Retransmission.Defs.{
  Item, Slots, RetransmissionBuffer, lower16, higher16, higher32, is_empty, get_oldest, get_newest,
  get, clear_too_old_by_timestamp,
}
use bifrost_sdk.Retransmission.Store.{
  push_back, newest_timestamp, insert_between, insert_by_order, insert_nonempty, insert,
}
use bifrost_sdk.Retransmission.Slots.{Shape, get_newest-Back}
use bifrost_sdk.Retransmission.Lookup.{get_self}
use bifrost_sdk.Retransmission.Newer.{insert_newer-Shape}
use bifrost_sdk.Retransmission.Between.{insert_older-Shape, insert_between-Shape}
use bifrost_sdk.Retransmission.Clear.{Cleared, clear_too_old-Cleared}

-- A number that is neither above the newest nor below the oldest has a slot between them.
slot_between :
    (seq old newest n : ℕ)
    → seq < u16_mod
    → old < u16_mod
    → n < 2 ^ 15
    → newest ≡ (old + n) % u16_mod
    → higher16 seq newest ≡ false
    → lower16 seq old ≡ false
    → sub16 seq old ≤ n
unfolding is_seq_lower_than is_seq_higher_than
slot_between seq old newest n h k l e hi lo = ground arith

pub higher-ne : (a b : ℕ) → higher16 a b ≡ true → a ≢ b
unfolding is_seq_higher_than
higher-ne a b h = ground arith

lower-ne : (a b : ℕ) → lower16 a b ≡ true → a ≢ b
unfolding is_seq_lower_than
lower-ne a b h = ground arith

insert_between_same :
    (old : Item) (r : Slots) (p : RtpPacket)
    → p.sequence_number ≡ old.sequence_number
    → old.sequence_number < u16_mod
    → length r < 2 ^ 15
    → insert_between (some old ∷ r) p old ≡ some (some old ∷ r)
unfolding insert_between
insert_between_same old r p e h l =
    let found : get (some old ∷ r) p.sequence_number ≡ some old = rw e (get_self old r h l) in
    ground (arith, found)

pub insert_by_order-Shape :
    (b : RetransmissionBuffer) (old : Item) (r : Slots) (p : RtpPacket)
    → 0 < b.clock_rate
    → Shape (some old ∷ r)
    → suc (length r) ≤ 2 ^ 15
    → p.sequence_number < u16_mod
    → Returns (insert_by_order b (some old ∷ r) p) Shape
unfolding insert_by_order get_oldest
insert_by_order-Shape b old r p c s l h =
    Returns-bind (get_newest (some old ∷ r)) _
      (λ it. it.sequence_number ≡ (old.sequence_number + length r) % u16_mod) Shape
      (get_newest-Back old.sequence_number (some old) r s.1 s.2)
      λ newest e n. ground (
        arith,
        higher-ne p.sequence_number newest.sequence_number,
        lower-ne p.sequence_number old.sequence_number,
        insert_newer-Shape b.max_items (some old ∷ r) p newest (s, e) l h,
        insert_older-Shape b old r p newest c s h,
        insert_between-Shape old r p s h,
        insert_between_same old r p,
        slot_between p.sequence_number old.sequence_number newest.sequence_number (length r) h s.0,
      )

single-Shape : (p : RtpPacket) → p.sequence_number < u16_mod → Shape (push_back [] 0 p)
unfolding push_back
single-Shape p h = (h, (omega arith, tt), tt)

pub record IsValid (b : RetransmissionBuffer) : Type 0 where
  pub clock : 0 < b.clock_rate
  pub shape : Shape b.buffer

-- A rule for `Insert`: a property of the slots that holds of the packet alone, and of what parts 4
-- to 6 make of the slots that the clearing leaves, holds of the slots after the call.
module _ (b : RetransmissionBuffer) (p : RtpPacket) (Q : Slots → Type 0) (v : IsValid b)
    (alone : Q (push_back [] 0 p))
    (ordered : (it : Item) (ys : Slots) (nt : ℕ) (removed : Bool)
      → Cleared b nt b.buffer false (some it ∷ ys, removed)
      → Returns (insert_by_order b (some it ∷ ys) p) Q) where
  store_cleared_rule :
      (nt : ℕ) (ys : Slots) (removed : Bool)
      → b.buffer ≢ []
      → Cleared b nt b.buffer false (ys, removed)
      → Returns
          (if removed && is_empty ys then some (push_back ys 0 p) else insert_by_order b ys p)
          Q
  store_cleared_rule nt [] true ne c = alone
  store_cleared_rule nt [] false ne c = absurd (ne (sym (c.same refl).1))
  store_cleared_rule nt (none ∷ ys) removed ne c = absurd c.shape
  store_cleared_rule nt (some it ∷ ys) true ne c = ordered it ys nt true c
  store_cleared_rule nt (some it ∷ ys) false ne c = ordered it ys nt false c

  insert_nonempty_rule :
      (old : Item) (r : Slots) → b.buffer ≡ some old ∷ r → Returns (insert_nonempty b p) Q
  unfolding insert_nonempty
  insert_nonempty_rule old r e =
      Returns-bind (get_newest b.buffer) _ (λ _. Unit {0}) Q (rw e newest_there)
        λ newest _ _.
          elim (Bool-cases (
            lower16 p.sequence_number newest.sequence_number
            && higher32 p.timestamp newest.timestamp)) [
              | inl reset ↦ rw reset alone
              | inr go ↦
                  let nt = newest_timestamp p newest in
                  rw go (
                    Returns-bind (clear_too_old_by_timestamp b nt) _ (Cleared b nt b.buffer false) Q
                      (clear_too_old-Cleared b nt v.clock v.shape)
                      λ a _ c. store_cleared_rule nt a.0 a.1 (λ n. cc) c)
            ]
    where
      newest_there : Returns (get_newest (some old ∷ r)) (λ _. Unit {0})
      newest_there =
          let s : Shape (some old ∷ r) = rw e at v.shape in
          Returns-map (get_newest (some old ∷ r)) _ _
            (get_newest-Back old.sequence_number (some old) r s.1 s.2) (λ _ _. tt)

  insert_slots_rule :
      (xs : Slots)
      → b.buffer ≡ xs
      → Returns (if is_empty xs then some (push_back xs 0 p) else insert_nonempty b p) Q
  insert_slots_rule [] e = alone
  insert_slots_rule (none ∷ r) e = absurd (rw e at v.shape)
  insert_slots_rule (some old ∷ r) e = insert_nonempty_rule old r e

  pub insert_rule :
      Returns (insert b p) (λ b'. Q b'.buffer × (b' ≡ record b { buffer = b'.buffer }))
  unfolding insert
  insert_rule =
      Returns-bind _ (λ xs. some (record b { buffer = xs })) Q _ (insert_slots_rule b.buffer refl)
        λ xs _ q. (q, refl)

-- `Insert` of any packet into a well-formed buffer of at most 2^15 slots does not fault: no null
-- pointer is read, no index is out of range. The buffer it leaves is well-formed, so that each slot
-- again stands for the number that its index says.
pub insert-IsValid :
    (b : RetransmissionBuffer) (p : RtpPacket)
    → IsValid b
    → length b.buffer ≤ 2 ^ 15
    → p.sequence_number < u16_mod
    → Returns (insert b p) IsValid
insert-IsValid b p v l h =
    Returns-map (insert b p) _ _
      (insert_rule b p Shape v (single-Shape p h) λ it ys nt removed c.
        insert_by_order-Shape b it ys p v.clock c.shape (omega (arith, c.smaller)) h)
      λ b' q. record { clock = rw q.1 v.clock; shape = q.0 }
