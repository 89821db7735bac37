-- ===== src/Retransmission/Clear.antt =====
-- `ClearTooOldByTimestamp`: which items go, and that the loop ends without a fault.
use bifrost_sdk.Base.{
  ℕ, zero, suc, ◌+◌, ◌≤◌, ◌<◌, ◌≡◌, refl, ◌⊎◌, inl, inr, Bool, true, false, none, some, [], ◌∷◌,
  arith, length, Returns, Returns-map,
}
use bifrost_sdk.Retransmission.Defs.{
  Item, Slots, RetransmissionBuffer, get_oldest, drop_blanks, remove_oldest, is_too_old_timestamp,
  clear_loop, clear_too_old_by_timestamp,
}
use bifrost_sdk.Retransmission.Slots.{Shape, remove_oldest-Shape, length-drop_blanks}

module _ (b : RetransmissionBuffer) (newest_timestamp : ℕ) where
  -- ys is xs without some leading slots, each of them blank or too old.
  pub data Drops : Slots → Slots → Type 0 where
    stop : {xs : Slots} → Drops xs xs
    blank : {r ys : Slots} → Drops r ys → Drops (none ∷ r) ys
    old :
        {it : Item} {r ys : Slots}
        → is_too_old_timestamp b it.timestamp newest_timestamp ≡ some true
        → Drops r ys
        → Drops (some it ∷ r) ys

  -- The oldest item, if there is one, is not too old.
  abbrev pub IsFresh : Slots → Type 0
  IsFresh [] = Unit
  IsFresh (none ∷ r) = Unit
  IsFresh (some it ∷ r) = is_too_old_timestamp b it.timestamp newest_timestamp ≡ some false

  pub record Cleared (xs : Slots) (removed : Bool) (r : Slots × Bool) : Type 0 where
    pub shape : Shape r.0
    pub smaller : length r.0 ≤ length xs
    pub fresh : IsFresh r.0
    pub drops : Drops xs r.0
    pub same : r.1 ≡ false → (removed ≡ false) × (r.0 ≡ xs)
    pub less : r.1 ≡ true → (removed ≡ true) ⊎ (length r.0 < length xs)

-- With a clock rate the test is made, one way or the other.
pub is_too_old_cases :
    (b : RetransmissionBuffer) (ts newest : ℕ)
    → 0 < b.clock_rate
    → (is_too_old_timestamp b ts newest ≡ some true)
      ⊎ (is_too_old_timestamp b ts newest ≡ some false)
unfolding is_too_old_timestamp
is_too_old_cases b ts newest h = ground arith

Drops-drop_blanks :
    (b : RetransmissionBuffer) (nt : ℕ) (r : Slots) {ys : Slots}
    → Drops b nt (drop_blanks r) ys
    → Drops b nt r ys
unfolding drop_blanks
Drops-drop_blanks b nt [] d = d
Drops-drop_blanks b nt (none ∷ r) d = blank (Drops-drop_blanks b nt r d)
Drops-drop_blanks b nt (some it ∷ r) d = d

clear_loop-Cleared :
    (b : RetransmissionBuffer) (nt fuel : ℕ) (xs : Slots) (removed : Bool)
    → 0 < b.clock_rate
    → length xs < fuel
    → Shape xs
    → Returns (clear_loop b nt fuel xs removed) (Cleared b nt xs removed)
unfolding clear_loop get_oldest remove_oldest
clear_loop-Cleared b nt zero xs removed c f s = absurd (omega arith)
clear_loop-Cleared b nt (suc fuel) [] removed c f s = record {
  shape = tt;
  smaller = omega arith;
  fresh = tt;
  drops = stop;
  same = λ e. (e, refl);
  less = inl;
}
clear_loop-Cleared b nt (suc fuel) (none ∷ r) removed c f s = absurd s
clear_loop-Cleared b nt (suc fuel) (some it ∷ r) removed c f s =
    elim (is_too_old_cases b it.timestamp nt c) [
      | inl e ↦ rw e (
          Returns-map (clear_loop b nt fuel (drop_blanks r) true)
            (Cleared b nt (drop_blanks r) true) (Cleared b nt (some it ∷ r) removed)
            (clear_loop-Cleared b nt fuel (drop_blanks r) true c
              (omega (arith, length-drop_blanks r)) (remove_oldest-Shape it r s).0)
            (λ a v. record {
              shape = v.shape;
              smaller = omega (arith, length-drop_blanks r, v.smaller);
              fresh = v.fresh;
              drops = old e (Drops-drop_blanks b nt r v.drops);
              same = λ h. cc (v.same h).0;
              less = λ _. inr (omega (arith, length-drop_blanks r, v.smaller));
            }))
      | inr e ↦ rw e (record {
        shape = s;
        smaller = omega arith;
        fresh = e;
        drops = stop;
        same = λ h. (h, refl);
        less = inl;
      })
    ]

-- `ClearTooOldByTimestamp` on a well-formed buffer ends without a fault. It removes
-- leading slots alone, each of them blank or too old, and stops at an item that
-- is not; what is left is well-formed. If it reports no removal, nothing has changed; if it reports one, slots are gone.
pub clear_too_old-Cleared :
    (b : RetransmissionBuffer) (newest_timestamp : ℕ)
    → 0 < b.clock_rate
    → Shape b.buffer
    → Returns
        (clear_too_old_by_timestamp b newest_timestamp)
        (Cleared b newest_timestamp b.buffer false)
unfolding clear_too_old_by_timestamp
clear_too_old-Cleared b nt c s =
    clear_loop-Cleared b nt (length b.buffer + 1) b.buffer false c (omega arith) s
