-- ===== src/Rate/Remove.antt =====
-- `RemoveOldData` drops from the window what is older than its size.
use bifrost_sdk.Base.{
  ℕ, ◌+◌, ◌-◌, ◌≤◌, ◌<◌, ◌≡◌, refl, ◌∙◌, true, false, ltb, leb, if◌then◌else◌, none, some, List, [],
  ◌∷◌, length, length-replicate, u64_mod, sub64, arith, Returns,
}
use native.Mathlib.Decide.{dec_lt}
use bifrost_sdk.Rate.{
  BufferItem, blank, RateCalculator, reset, next_index, remove_loop, remove_old_data,
}
use bifrost_sdk.Rate.Window.{Holds, drop_old, last_time, IsRing, Represents}
use bifrost_sdk.Rate.Loop.{SameShape, remove_loop_lem}

pub head-le-last_time :
    (n gap newest : ℕ) (ring : List BufferItem) (o : ℕ) (it : BufferItem) (items : List BufferItem)
    → Holds n gap newest ring o (it ∷ items)
    → it.time ≤ last_time it items
unfolding Holds last_time
head-le-last_time n gap newest ring o it [] h = omega arith
head-le-last_time n gap newest ring o it (next ∷ items) h =
    omega (arith, h.1, head-le-last_time n gap newest ring (next_index n o) next items h.2)

drop_old_all :
    (n gap newest : ℕ) (ring : List BufferItem) (o : ℕ) (it : BufferItem) (items : List BufferItem)
    (time : ℕ)
    → Holds n gap newest ring o (it ∷ items)
    → last_time it items ≤ time
    → drop_old time (it ∷ items) ≡ []
unfolding Holds last_time drop_old
drop_old_all n gap newest ring o it [] time h l = ground arith
drop_old_all n gap newest ring o it (next ∷ items) time h l =
    let le = head-le-last_time n gap newest ring (next_index n o) next items h.2 in
    let e : leb it.time time ≡ true = ground (arith, h.1, le) in
    rw e (drop_old_all n gap newest ring (next_index n o) next items time h.2 l)

-- What stays at a time: with a clock below the size of the window, nothing.
abbrev pub kept_at : ℕ → ℕ → List BufferItem → List BufferItem
kept_at window now_ms items = if ltb now_ms window then [] else drop_old (now_ms - window) items

reset_lem :
    (r : RateCalculator)
    → length r.buffer ≡ r.window_items
    → Represents (reset r) [] × SameShape r (reset r)
unfolding Represents
reset_lem r e = (
  (length-replicate (length r.buffer) blank ∙ e, refl, refl, refl, refl),
  ((refl, refl, refl, refl), omega arith),
)

-- The branches of `RemoveOldData`.
module _ (r : RateCalculator) (now_ms : ℕ) where
  remove_none : r.newest_item_index ≡ none → remove_old_data r now_ms ≡ some r
  unfolding remove_old_data
  remove_none e = ground arith

  module _ (o w : ℕ) (e : r.newest_item_index ≡ some w) (f : r.oldest_item_index ≡ some o) where
    remove_stay :
        sub64 now_ms r.window_size_ms < r.oldest_item_start_time → remove_old_data r now_ms ≡ some r
    unfolding remove_old_data
    remove_stay l = ground arith

    remove_all :
        r.oldest_item_start_time ≤ sub64 now_ms r.window_size_ms
        → r.newest_item_start_time ≤ sub64 now_ms r.window_size_ms
        → remove_old_data r now_ms ≡ some (reset r)
    unfolding remove_old_data
    remove_all l m = ground arith

    remove_by_loop :
        r.oldest_item_start_time ≤ sub64 now_ms r.window_size_ms
        → sub64 now_ms r.window_size_ms < r.newest_item_start_time
        → remove_old_data r now_ms
          ≡ remove_loop (r.window_items + 1) r o (sub64 now_ms r.window_size_ms)
    unfolding remove_old_data
    remove_by_loop l m = ground arith

same : (r : RateCalculator) → SameShape r r
same r = ((refl, refl, refl, refl), omega arith)

kept_late :
    (window now_ms : ℕ) (it : BufferItem) (items : List BufferItem)
    → window ≤ now_ms
    → now_ms < u64_mod
    → kept_at window now_ms (it ∷ items) ≡ drop_old (sub64 now_ms window) (it ∷ items)
kept_late window now_ms it items l c =
    let e : ltb now_ms window ≡ false = ground arith in
    let f : now_ms - window ≡ sub64 now_ms window = omega arith in rw (e, f) refl

kept_early :
    (window now_ms : ℕ) (items : List BufferItem)
    → now_ms < window
    → kept_at window now_ms items ≡ []
kept_early window now_ms items l = let e : ltb now_ms window ≡ true = ground arith in rw e refl

drop_old_stay :
    (time : ℕ) (it : BufferItem) (items : List BufferItem)
    → time < it.time
    → drop_old time (it ∷ items) ≡ it ∷ items
unfolding drop_old
drop_old_stay time it items l = ground arith

pub length_below :
    (r : RateCalculator) (o w : ℕ) (it : BufferItem) (items : List BufferItem)
    → IsRing r o w it items
    → length items < r.window_items
length_below r o w it items h = ground (arith, h.length_steps, h.oldest_in, h.newest_in)

-- Removing old data, with a clock that is not behind the newest item.
pub remove_old_data_lem :
    (r : RateCalculator) (now_ms : ℕ) (items : List BufferItem)
    → r.window_size_ms < u64_mod
    → now_ms < u64_mod
    → r.newest_item_start_time ≤ now_ms
    → Represents r items
    → Returns
        (remove_old_data r now_ms)
        (λ r'. Represents r' (kept_at r.window_size_ms now_ms items) × SameShape r r')
unfolding Represents
remove_old_data_lem r now_ms [] b c l h =
    let e : kept_at r.window_size_ms now_ms [] ≡ [] = unfold drop_old in ground arith in
    rw (remove_none r now_ms h.1, e, Returns) (h, same r)
remove_old_data_lem r now_ms (it ∷ items) b c l (o, w, h) =
    let time = sub64 now_ms r.window_size_ms in
    let le = head-le-last_time r.window_items r.item_size_ms w r.buffer o it items h.holds in
    elim (dec_lt now_ms r.window_size_ms) [
      | yes early ↦
          rw
            (
              kept_early r.window_size_ms now_ms (it ∷ items) early,
              remove_all r now_ms o w h.newest h.oldest
                  (omega (arith, le, h.oldest_time, h.newest_time)) (omega arith),
              Returns,
            )
            (reset_lem r h.sized)
      | no late ↦
          rw (kept_late r.window_size_ms now_ms it items (omega arith) c)
            (elim (dec_lt time r.newest_item_start_time) [
              | no old ↦
                  rw
                    (
                      drop_old_all r.window_items r.item_size_ms w r.buffer o it items time h.holds
                          (omega (arith, h.newest_time)),
                      remove_all r now_ms o w h.newest h.oldest
                          (omega (arith, le, h.oldest_time, h.newest_time)) (omega arith),
                      Returns,
                    )
                    (reset_lem r h.sized)
              | yes new ↦ elim (dec_lt time r.oldest_item_start_time) [
                | yes stay ↦
                    rw
                      (
                        remove_stay r now_ms o w h.newest h.oldest stay,
                        drop_old_stay time it items (omega (arith, h.oldest_time)),
                        Returns,
                      )
                      ((o, w, h), same r)
                | no some_old ↦
                    rw (remove_by_loop r now_ms o w h.newest h.oldest (omega arith) new) (
                      remove_loop_lem (r.window_items + 1) r o w it items time
                        (omega (arith, length_below r o w it items h)) new h)
              ]
            ])
    ]
