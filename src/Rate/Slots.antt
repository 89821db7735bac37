-- ===== src/Rate/Slots.antt =====
-- The branches of the entering, and the room for it.
use bifrost_sdk.Base.{
  ℕ, suc, ◌+◌, ◌-◌, ◌*◌, ◌≤◌, ◌<◌, ◌≡◌, Bool-cases, inl, inr, ltb, leb, none, some, List, [], ◌∷◌,
  length, get_elem?, set, u64_mod, sub64, add64, arith,
}
use native.Mathlib.Decide.{dec_lt}
use bifrost_sdk.Rate.{BufferItem, RateCalculator, next_index, new_item_index, enter, set_oldest}
use bifrost_sdk.Rate.Window.{steps, drop_old}
use bifrost_sdk.Rate.Remove.{kept_at}
use bifrost_sdk.Rate.Enter.{item}

-- Items that cover the window leave a slot free.
pub free_slot :
    (n gap window len oldest newest now_ms : ℕ)
    → len < n
    → window ≤ n * gap
    → oldest + len * gap ≤ newest
    → newest + gap ≤ now_ms
    → now_ms < oldest + window
    → len + 1 < n
free_slot n gap window len oldest newest now_ms l c s g y = elim (dec_lt (len + 1) n) [
  | yes m ↦ m
  | no m ↦
      let e : n ≡ suc len = omega arith in
      let f : n * gap ≡ len * gap + gap = rw e (grind arith) in absurd (omega (arith, f))
]

pub steps_free :
    (n o w : ℕ) → o < n → w < n → steps n o w + 1 < n → steps n o (next_index n w) ≡ steps n o w + 1
steps_free n o w a b l = ground arith

-- The branches of the entering.
module _ (r : RateCalculator) (size now_ms : ℕ) where
  abbrev pub entered : ℕ → RateCalculator
  entered i = record r {
    newest_item_index = some i;
    newest_item_start_time = now_ms;
    buffer = set r.buffer i (item size now_ms);
  }

  pub enter_first :
      r.newest_item_index ≡ none → 0 < length r.buffer → enter r size now_ms ≡ some (entered 0)
  unfolding enter new_item_index
  enter_first e l = ground arith

  module _ (w : ℕ) (e : r.newest_item_index ≡ some w) where
    pub enter_new :
        r.item_size_ms ≤ sub64 now_ms r.newest_item_start_time
        → next_index r.window_items w < length r.buffer
        → enter r size now_ms ≡ some (entered (next_index r.window_items w))
    unfolding enter new_item_index
    enter_new l m = ground arith

    pub enter_same :
        (last : BufferItem)
        → sub64 now_ms r.newest_item_start_time < r.item_size_ms
        → get_elem? r.buffer w ≡ some last
        → enter r size now_ms
          ≡ some
              (record r { buffer = set r.buffer w (record last { count = add64 last.count size }) })
    unfolding enter new_item_index
    enter_same last l f = ground arith

-- The parameters of a calculator: the items cover the window.
pub record IsSized (r : RateCalculator) : Type 0 where
  pub items_some : 0 < r.window_items
  pub window_in : r.window_size_ms < u64_mod
  pub covered : r.window_size_ms ≤ r.window_items * r.item_size_ms

-- The oldest item is younger than the window.
abbrev pub IsYoung : ℕ → ℕ → List BufferItem → Type 0
IsYoung window now_ms [] = Unit {0}
IsYoung window now_ms (it ∷ items) = now_ms < it.time + window

pub drop_old-IsYoung :
    (window now_ms : ℕ) (items : List BufferItem)
    → window ≤ now_ms
    → IsYoung window now_ms (drop_old (now_ms - window) items)
unfolding drop_old
drop_old-IsYoung window now_ms [] l = tt
drop_old-IsYoung window now_ms (it ∷ items) l = elim (Bool-cases (leb it.time (now_ms - window))) [
  | inl e ↦ rw e (drop_old-IsYoung window now_ms items l)
  | inr e ↦ rw e (ground arith)
]

pub kept_at-IsYoung :
    (window now_ms : ℕ) (items : List BufferItem)
    → IsYoung window now_ms (kept_at window now_ms items)
kept_at-IsYoung window now_ms items = elim (Bool-cases (ltb now_ms window)) [
  | inl e ↦ rw e tt
  | inr e ↦ rw e (drop_old-IsYoung window now_ms items (ground arith))
]

pub set_oldest-none :
    (r : RateCalculator) (now_ms : ℕ)
    → r.oldest_item_index ≡ none
    → set_oldest r now_ms
      ≡ record r { oldest_item_index = r.newest_item_index; oldest_item_start_time = now_ms }
set_oldest-none r now_ms e = ground arith

pub set_oldest-some :
    (r : RateCalculator) (now_ms o : ℕ) → r.oldest_item_index ≡ some o → set_oldest r now_ms ≡ r
set_oldest-some r now_ms o e = ground arith
