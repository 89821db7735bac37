-- ===== src/Sender/Resend.antt =====
-- What is sent again on request, against a description without loop and container.
use bifrost_sdk.Base.{
  ℕ, zero, suc, ◌+◌, ◌<◌, ◌≡◌, ◌≢◌, refl, sym, ap, ◌∙◌, ltb, if◌then◌else◌, Option, none, some, [],
  ◌∷◌, length, length-set, get_elem?, get_elem?-set_ne, set, u16_mod, sub16, sub64, arith,
}
use bifrost_sdk.Retransmission.Defs.{Item, Slots, lower16, slot, get_oldest, get}
use bifrost_sdk.Retransmission.Slots.{From, Back, Shape, From-mod}
use bifrost_sdk.Retransmission.Lookup.{slot-some}
use bifrost_sdk.Sender.Defs.{store_item}

-- An item takes the place of one with the same number.
From-set :
    (n : ℕ) (xs : Slots) (i : ℕ) (it it' : Item)
    → From n xs
    → get_elem? xs i ≡ some (some it)
    → it'.sequence_number ≡ it.sequence_number
    → From n (set xs i (some it'))
From-set n [] i it it' f e s = tt
From-set n (none ∷ r) zero it it' f e s = cc
From-set n (some x ∷ r) zero it it' f e s = ground arith
From-set n (none ∷ r) (suc i) it it' f e s = From-set (n + 1) r i it it' f e s
From-set n (some x ∷ r) (suc i) it it' f e s = (f.0, From-set (n + 1) r i it it' f.1 e s)

Back-set : (xs : Slots) (i : ℕ) (it : Item) → Back xs → Back (set xs i (some it))
Back-set [] i it b = tt
Back-set (x ∷ []) zero it b = tt
Back-set (none ∷ []) (suc i) it b = b
Back-set (some x ∷ []) (suc i) it b = tt
Back-set (x ∷ y ∷ r) zero it b = b
Back-set (x ∷ y ∷ r) (suc zero) it b = Back-set (y ∷ r) zero it b
Back-set (x ∷ y ∷ r) (suc (suc i)) it b = Back-set (y ∷ r) (suc i) it b

module _ (it it' : Item) (same : it'.sequence_number ≡ it.sequence_number) where
  Shape-set :
      (xs : Slots) (i : ℕ)
      → Shape xs
      → get_elem? xs i ≡ some (some it)
      → Shape (set xs i (some it'))
  Shape-set [] i s e = tt
  Shape-set (none ∷ r) i s e = absurd s
  Shape-set (some old ∷ r) zero s e =
      let n : it'.sequence_number ≡ old.sequence_number = ground arith in
      (
        omega arith,
        (
          omega arith,
          From-mod (old.sequence_number + 1) (it'.sequence_number + 1) r (omega arith) s.1.1,
        ),
        Back-set (some old ∷ r) zero it' s.2,
      )
  Shape-set (some old ∷ r) (suc i) s e = (
    s.0,
    From-set old.sequence_number (some old ∷ r) (suc i) it it' s.1 e same,
    Back-set (some old ∷ r) (suc i) it' s.2,
  )

-- `Get` as a function of what it reads.
looked_up : ℕ → ℕ → ℕ → Option (Option Item) → Option Item
looked_up other first len found =
    if lower16 other first
    then none
    else (if ltb (sub64 (suc len) 1) (sub16 other first) then none else slot found)

get-eq-looked_up :
    (old : Item) (r : Slots) (other : ℕ)
    → get (some old ∷ r) other
      ≡ looked_up other old.sequence_number
          (length r)
          (get_elem? (some old ∷ r) (sub16 other old.sequence_number))
unfolding get get_oldest looked_up
get-eq-looked_up old r other = refl

get_of_front :
    (old old' : Item) (r r' : Slots) (other : ℕ)
    → old'.sequence_number ≡ old.sequence_number
    → length r' ≡ length r
    → get_elem? (some old' ∷ r') (sub16 other old.sequence_number)
      ≡ get_elem? (some old ∷ r) (sub16 other old.sequence_number)
    → get (some old' ∷ r') other ≡ get (some old ∷ r) other
get_of_front old old' r r' other e l g =
    get-eq-looked_up old' r' other
    ∙ ap (λ q. looked_up other q (length r') (get_elem? (some old' ∷ r') (sub16 other q))) e
    ∙ ap
        (λ n.
          looked_up other old.sequence_number n
            (get_elem? (some old' ∷ r') (sub16 other old.sequence_number)))
        l
    ∙ ap (looked_up other old.sequence_number (length r)) g
    ∙ sym (get-eq-looked_up old r other)

-- The slot of an item that was looked up.
get_slot :
    (old : Item) (r : Slots) (seq : ℕ) (it : Item)
    → get (some old ∷ r) seq ≡ some it
    → get_elem? (some old ∷ r) (sub16 seq old.sequence_number) ≡ some (some it)
unfolding looked_up
get_slot old r seq it e = ground (
  arith,
  get-eq-looked_up old r seq,
  slot-some (get_elem? (some old ∷ r) (sub16 seq old.sequence_number)) it,
)

module _ (it it' : Item) (same : it'.sequence_number ≡ it.sequence_number) where
  -- An item put back under its number is found there only.
  get-set_ne :
      (old : Item) (r : Slots) (i other : ℕ)
      → get_elem? (some old ∷ r) i ≡ some (some it)
      → i ≢ sub16 other old.sequence_number
      → get (set (some old ∷ r) i (some it')) other ≡ get (some old ∷ r) other
  get-set_ne old r zero other e ne =
      get_of_front old it' r r other (ground arith) refl
        (get_elem?-set_ne (some old ∷ r) (some it') ne)
  get-set_ne old r (suc i) other e ne =
      get_of_front old old r (set r i (some it')) other refl (length-set r i (some it'))
        (get_elem?-set_ne (some old ∷ r) (some it') ne)

  pub get-store_item :
      (xs : Slots) (seq other : ℕ)
      → Shape xs
      → seq < u16_mod
      → other < u16_mod
      → seq ≢ other
      → get xs seq ≡ some it
      → get (store_item xs seq it') other ≡ get xs other
  unfolding store_item get_oldest
  get-store_item [] seq other s h k ne e = refl
  get-store_item (none ∷ r) seq other s h k ne e = refl
  get-store_item (some old ∷ r) seq other s h k ne e =
      get-set_ne old r (sub16 seq old.sequence_number) other (get_slot old r seq it e)
        (λ d. ne (omega arith))

  pub Shape-store_item :
      (xs : Slots) (seq : ℕ) → Shape xs → get xs seq ≡ some it → Shape (store_item xs seq it')
  unfolding store_item get_oldest
  Shape-store_item [] seq s e = tt
  Shape-store_item (none ∷ r) seq s e = absurd s
  Shape-store_item (some old ∷ r) seq s e =
      Shape-set it it' same (some old ∷ r) (sub16 seq old.sequence_number) s
        (get_slot old r seq it e)

pub length-store_item :
    (xs : Slots) (seq : ℕ) (it : Item) → length (store_item xs seq it) ≡ length xs
unfolding store_item get_oldest
length-store_item [] seq it = refl
length-store_item (none ∷ r) seq it = refl
length-store_item (some old ∷ r) seq it =
    length-set (some old ∷ r) (sub16 seq old.sequence_number) (some it)
