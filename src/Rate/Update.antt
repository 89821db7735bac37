-- ===== src/Rate/Update.antt =====
-- The entering of bytes into the ring of a calculator is that into its window.
use bifrost_sdk.Base.{
  ℕ, ◌+◌, ◌-◌, ◌≤◌, ◌<◌, ◌≡◌, refl, sym, ◌∙◌, List, [], ◌∷◌, length, set, get_elem?-set_self,
  length-set, u64_mod, add64, arith, Returns,
}
use native.Mathlib.Decide.{dec_lt}
use bifrost_sdk.Rate.{BufferItem, RateCalculator, next_index, enter, set_oldest, count_total}
use bifrost_sdk.Rate.Window.{Holds, total, last_time, IsRing, Represents}
use bifrost_sdk.Rate.Loop.{SameParams}
use bifrost_sdk.Rate.Remove.{length_below}
use bifrost_sdk.Rate.Enter.{
  item, add_bytes, Holds-push, Holds-add, Holds-last, spaced, total-add_bytes, add_bytes-Added,
}
use bifrost_sdk.Rate.Slots.{
  free_slot, steps_free, entered, enter_first, enter_new, enter_same, set_oldest-none,
  set_oldest-some, IsSized, IsYoung,
}

-- What a calculator is afterwards.
abbrev pub Becomes : RateCalculator → List BufferItem → RateCalculator → Type 0
Becomes r items r' = Represents r' items × SameParams r r'

module _ (r : RateCalculator) (size now_ms : ℕ) (z : IsSized r) (c : now_ms < u64_mod) where
  enter_empty :
      Represents r []
      → size < u64_mod
      → Returns
          (enter r size now_ms)
          (λ e. Becomes r (item size now_ms ∷ []) (count_total (set_oldest e now_ms) size))
  unfolding Represents
  enter_empty (a, b, o, t, k) l =
      rw
        (
          enter_first r size now_ms b (omega (arith, a, z.items_some)),
          set_oldest-none (entered r size now_ms 0) now_ms o,
          Returns,
        )
        (
          (
            0,
            0,
            record {
              sized = length-set r.buffer 0 (item size now_ms) ∙ a;
              oldest_in = z.items_some;
              newest_in = z.items_some;
              oldest = refl;
              newest = refl;
              oldest_time = refl;
              newest_time = unfold last_time in refl;
              length_steps = ground arith;
              counted = unfold total in omega (arith, k);
              bounded = omega arith;
              holds =
                  unfold Holds in
                  (
                    get_elem?-set_self r.buffer 0 (item size now_ms)
                        (omega (arith, a, z.items_some)),
                    refl,
                  );
            },
          ),
          (refl, refl, refl, refl),
        )

  module _ (o w : ℕ) (it : BufferItem) (items : List BufferItem) (h : IsRing r o w it items)
      (l : total (it ∷ items) + size < u64_mod) (m : r.newest_item_start_time ≤ now_ms) where
    enter_in_new :
        now_ms < it.time + r.window_size_ms
        → r.item_size_ms ≤ now_ms - r.newest_item_start_time
        → Returns (enter r size now_ms) (λ e.
          Becomes r
            (add_bytes r.item_size_ms size now_ms (it ∷ items))
            (count_total (set_oldest e now_ms) size))
    enter_in_new y g =
        let n = r.window_items in
        let gap = r.item_size_ms in
        let k = next_index n w in
        let new = item size now_ms in
        let (x, rest, eq, (tm, by_new, _)) = add_bytes-Added gap size now_ms it items in
        let (lt, len) = by_new (omega (arith, h.newest_time)) in
        let free =
          free_slot n gap r.window_size_ms (length items) it.time (last_time it items) now_ms
            (length_below r o w it items h) z.covered
            (spaced n gap w size now_ms r.buffer o it items h.holds) (omega (arith, h.newest_time))
            y in
        let there = steps_free n o w h.oldest_in h.newest_in (omega (arith, h.length_steps)) in
        let k_in : k < n = ground (arith, h.newest_in) in
        let sum = total-add_bytes gap size now_ms (it ∷ items) in
        let sum' : total (x ∷ rest) ≡ total (it ∷ items) + size = (rw eq at sum) in
        let held =
          Holds-push n gap w size now_ms r.buffer o it items h.oldest_in h.newest_in h.sized
            h.length_steps (omega (arith, there, h.length_steps)) (omega (arith, h.newest_time))
            (omega (arith, h.newest_time)) h.holds in
        rw
          (
            enter_new r size now_ms w h.newest (omega arith) (omega (arith, k_in, h.sized)),
            set_oldest-some (entered r size now_ms k) now_ms o h.oldest,
            eq,
            Returns,
          )
          (
            (unfold Represents in
                (
                  o,
                  k,
                  record {
                    sized = length-set r.buffer k new ∙ h.sized;
                    oldest_in = h.oldest_in;
                    newest_in = k_in;
                    oldest = h.oldest;
                    newest = refl;
                    oldest_time = h.oldest_time ∙ sym tm;
                    newest_time = sym lt;
                    length_steps = omega (arith, len, there, h.length_steps);
                    counted = omega (arith, sum', h.counted);
                    bounded = omega arith;
                    holds = (rw eq at held);
                  },
                )),
            (refl, refl, refl, refl),
          )

    enter_in_last :
        now_ms - r.newest_item_start_time < r.item_size_ms
        → Returns (enter r size now_ms) (λ e.
          Becomes r
            (add_bytes r.item_size_ms size now_ms (it ∷ items))
            (count_total (set_oldest e now_ms) size))
    enter_in_last g =
        let n = r.window_items in
        let gap = r.item_size_ms in
        let (last, found, le) = Holds-last n gap w size now_ms r.buffer o it items h.holds in
        let new = record last { count = last.count + size } in
        let plain : add64 last.count size ≡ last.count + size = omega (arith, le) in
        let (x, rest, eq, (tm, _, by_last)) = add_bytes-Added gap size now_ms it items in
        let (lt, len) = by_last (omega (arith, h.newest_time)) in
        let sum = total-add_bytes gap size now_ms (it ∷ items) in
        let sum' : total (x ∷ rest) ≡ total (it ∷ items) + size = (rw eq at sum) in
        let held =
          Holds-add n gap w size now_ms r.buffer o it last items h.oldest_in h.newest_in h.sized
            h.length_steps found (omega (arith, h.newest_time)) h.holds in
        rw
          (
            enter_same r size now_ms w h.newest last (omega arith) found,
            plain,
            set_oldest-some (record r { buffer = set r.buffer w new }) now_ms o h.oldest,
            eq,
            Returns,
          )
          (
            (unfold Represents in
                (
                  o,
                  w,
                  record {
                    sized = length-set r.buffer w new ∙ h.sized;
                    oldest_in = h.oldest_in;
                    newest_in = h.newest_in;
                    oldest = h.oldest;
                    newest = h.newest;
                    oldest_time = h.oldest_time ∙ sym tm;
                    newest_time = h.newest_time ∙ sym lt;
                    length_steps = omega (arith, len, h.length_steps);
                    counted = omega (arith, sum', h.counted);
                    bounded = omega arith;
                    holds = (rw eq at held);
                  },
                )),
            (refl, refl, refl, refl),
          )

-- Of a window of which all items are young.
pub enter_lem :
    (r : RateCalculator) (size now_ms : ℕ) (items : List BufferItem)
    → IsSized r
    → now_ms < u64_mod
    → total items + size < u64_mod
    → r.newest_item_start_time ≤ now_ms
    → IsYoung r.window_size_ms now_ms items
    → Represents r items
    → Returns (enter r size now_ms) (λ e.
      Becomes r
        (add_bytes r.item_size_ms size now_ms items)
        (count_total (set_oldest e now_ms) size))
unfolding Represents add_bytes total
enter_lem r size now_ms [] z c l m y h = enter_empty r size now_ms z c h (omega arith)
enter_lem r size now_ms (it ∷ items) z c l m y (o, w, h) =
    elim (dec_lt (now_ms - r.newest_item_start_time) r.item_size_ms) [
      | yes g ↦ enter_in_last r size now_ms z c o w it items h l m g
      | no g ↦ enter_in_new r size now_ms z c o w it items h l m y (omega arith)
    ]
