-- ===== src/Retransmission/Lookup.antt =====
-- `Get`: it finds the items that the buffer holds, each under its own number.
use bifrost_sdk.Base.{
  ℕ, zero, suc, ◌+◌, ◌%◌, ◌^◌, ◌≤◌, ◌<◌, ◌≡◌, ◌↔◌, false, Option, none, some, [], ◌∷◌, arith,
  length, get_elem?, u16_mod, sub16, sub64, ltb,
}
use bifrost_sdk.Seq.{is_seq_lower_than}
use bifrost_sdk.Retransmission.Defs.{Item, Slots, lower16, slot, get_oldest, get}
use bifrost_sdk.Retransmission.Slots.{Shape, get_elem?-From}

-- `Get` by the index of the slot.
pub get_at :
    (old : Item) (r : Slots) (seq i : ℕ)
    → lower16 seq old.sequence_number ≡ false
    → sub16 seq old.sequence_number ≡ i
    → i ≤ length r
    → length r < 2 ^ 15
    → get (some old ∷ r) seq ≡ slot (get_elem? (some old ∷ r) i)
unfolding get get_oldest
get_at old r seq i low e l k =
    let far : ltb (sub64 (suc (length r)) 1) i ≡ false = ground arith in rw (low, e, far)

pub get_self :
    (old : Item) (r : Slots)
    → old.sequence_number < u16_mod
    → length r < 2 ^ 15
    → get (some old ∷ r) old.sequence_number ≡ some old
unfolding is_seq_lower_than
get_self old r h l = get_at old r old.sequence_number 0 (ground arith) (omega arith) (omega arith) l

elem_in_range : (xs : Slots) (i : ℕ) (x : Option Item) → get_elem? xs i ≡ some x → i < length xs
elem_in_range [] i x e = cc
elem_in_range (y ∷ r) zero x e = omega arith
elem_in_range (y ∷ r) (suc i) x e = omega (arith, elem_in_range r i x e)

-- An item at some index of the buffer is what `Get` returns for its number.
pub get-finds :
    (xs : Slots) (i : ℕ) (it : Item)
    → Shape xs
    → length xs ≤ 2 ^ 15
    → get_elem? xs i ≡ some (some it)
    → get xs it.sequence_number ≡ some it
unfolding is_seq_lower_than
get-finds [] i it s l e = cc
get-finds (none ∷ r) i it s l e = absurd s
get-finds (some old ∷ r) i it s l e = rw (
  get_at old r it.sequence_number i (ground (arith, at, inside)) (omega (arith, at, inside))
      (omega (arith, inside)) (omega arith),
  e,
)
  where
    at : it.sequence_number ≡ (old.sequence_number + i) % u16_mod
    at = get_elem?-From old.sequence_number (some old ∷ r) i it s.1 e

    inside : i < suc (length r)
    inside = elem_in_range (some old ∷ r) i (some it) e

pub slot-some : (o : Option (Option Item)) (it : Item) → slot o ≡ some it → o ≡ some (some it)
slot-some none it e = cc
slot-some (some x) it e = cc

get_index :
    (xs : Slots) (seq : ℕ) (it : Item)
    → Shape xs
    → seq < u16_mod
    → get xs seq ≡ some it
    → (i : ℕ) × (get_elem? xs i ≡ some (some it)) × (it.sequence_number ≡ seq)
unfolding get get_oldest
get_index [] seq it s h e = cc
get_index (none ∷ r) seq it s h e = cc
get_index (some old ∷ r) seq it s h e =
    (i, at, omega (arith, get_elem?-From old.sequence_number (some old ∷ r) i it s.1 at))
  where
    i : ℕ
    i = sub16 seq old.sequence_number

    at : get_elem? (some old ∷ r) i ≡ some (some it)
    at = ground (arith, slot-some (get_elem? (some old ∷ r) i) it)

-- `Get` returns an item exactly if a slot of the buffer holds it and it has the number asked for.
pub get-eq-some :
    (xs : Slots) (seq : ℕ) (it : Item)
    → Shape xs
    → length xs ≤ 2 ^ 15
    → seq < u16_mod
    → (get xs seq ≡ some it)
      ↔ ((i : ℕ) × (get_elem? xs i ≡ some (some it)) × (it.sequence_number ≡ seq))
get-eq-some xs seq it s l h =
    (get_index xs seq it s h, λ f. rw (← f.2) (get-finds xs f.0 it s l f.1))
