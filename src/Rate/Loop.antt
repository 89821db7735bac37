-- ===== src/Rate/Loop.antt =====
-- The loop of `RemoveOldData` drops the old items.
use bifrost_sdk.Base.{
  ℕ, zero, suc, ◌≤◌, ◌<◌, ◌≡◌, refl, ◌∙◌, true, false, Bool-cases, inl, inr, leb, some, List, [],
  ◌∷◌, length, get_elem?, set, length-set, sub64, arith, Returns,
}
use bifrost_sdk.Rate.{BufferItem, blank, RateCalculator, next_index, remove_loop}
use bifrost_sdk.Rate.Window.{
  steps, steps_next, Holds, Holds-set, drop_old, total, last_time, IsRing, Represents,
}

Holds-head :
    (n gap newest : ℕ) (ring : List BufferItem) (o : ℕ) (it : BufferItem) (items : List BufferItem)
    → Holds n gap newest ring o (it ∷ items)
    → get_elem? ring o ≡ some it
unfolding Holds
Holds-head n gap newest ring o it [] h = h.0
Holds-head n gap newest ring o it (next ∷ items) h = h.0

Holds-tail :
    (n gap newest : ℕ) (ring : List BufferItem) (o : ℕ) (it next : BufferItem)
    (items : List BufferItem)
    → Holds n gap newest ring o (it ∷ next ∷ items)
    → Holds n gap newest ring (next_index n o) (next ∷ items)
unfolding Holds
Holds-tail n gap newest ring o it next items h = h.2

-- The state after one round of the loop.
abbrev removed : RateCalculator → ℕ → BufferItem → BufferItem → RateCalculator
removed r o it next = record r {
  total_count = sub64 r.total_count it.count;
  buffer = set r.buffer o blank;
  oldest_item_index = some (next_index r.window_items o);
  oldest_item_start_time = next.time;
}

removed-IsRing :
    (r : RateCalculator) (o w : ℕ) (it next : BufferItem) (items : List BufferItem)
    → IsRing r o w it (next ∷ items)
    → IsRing (removed r o it next) (next_index r.window_items o) w next items
unfolding total last_time
removed-IsRing r o w it next items h =
    let n = r.window_items in
    let p : 0 < steps n o w = omega (arith, h.length_steps) in
    let e = steps_next n r.item_size_ms w o w h.oldest_in h.newest_in p in
    record {
      sized = length-set r.buffer o blank ∙ h.sized;
      oldest_in = ground (arith, h.oldest_in);
      newest_in = h.newest_in;
      oldest = refl;
      newest = h.newest;
      oldest_time = refl;
      newest_time = h.newest_time;
      length_steps = omega (arith, e, h.length_steps);
      counted = omega (arith, h.counted, h.bounded);
      bounded = omega (arith, h.counted, h.bounded);
      holds =
          Holds-set n r.item_size_ms w r.buffer (next_index n o) o blank (next ∷ items)
            (ground (arith, h.oldest_in)) h.oldest_in
            (ground (arith, h.length_steps, h.oldest_in, h.newest_in))
            (Holds-tail n r.item_size_ms w r.buffer o it next items h.holds);
    }

-- The parameters of the calculator, and what removing leaves alone.
abbrev pub SameParams : RateCalculator → RateCalculator → Type 0
SameParams r r' =
    (r'.window_size_ms ≡ r.window_size_ms)
    × (r'.window_items ≡ r.window_items)
    × (r'.item_size_ms ≡ r.item_size_ms)
    × (r'.bytes ≡ r.bytes)

abbrev pub SameShape : RateCalculator → RateCalculator → Type 0
SameShape r r' = SameParams r r' × (r'.newest_item_start_time ≤ r.newest_item_start_time)

remove_loop_stop :
    (fuel : ℕ) (r : RateCalculator) (o time : ℕ)
    → time < r.oldest_item_start_time
    → remove_loop (suc fuel) r o time ≡ some r
unfolding remove_loop
remove_loop_stop fuel r o time l = ground arith

remove_loop_step :
    (fuel : ℕ) (r : RateCalculator) (o w time : ℕ) (it next : BufferItem) (items : List BufferItem)
    → it.time ≤ time
    → IsRing r o w it (next ∷ items)
    → remove_loop (suc fuel) r o time
      ≡ remove_loop fuel (removed r o it next) (next_index r.window_items o) time
unfolding remove_loop
remove_loop_step fuel r o w time it next items l h =
    let n = r.window_items in
    let e : leb r.oldest_item_start_time time ≡ true = ground (arith, h.oldest_time) in
    let f = Holds-head n r.item_size_ms w r.buffer o it (next ∷ items) h.holds in
    let g =
      Holds-head n r.item_size_ms w (set r.buffer o blank) (next_index n o) next items
        (removed-IsRing r o w it next items h).holds in
    rw (e, f, g) refl

-- The loop ends, since it meets the newest item.
pub remove_loop_lem :
    (fuel : ℕ) (r : RateCalculator) (o w : ℕ) (it : BufferItem) (items : List BufferItem) (time : ℕ)
    → length items < fuel
    → time < r.newest_item_start_time
    → IsRing r o w it items
    → Returns
        (remove_loop fuel r o time)
        (λ r'. Represents r' (drop_old time (it ∷ items)) × SameShape r r')
unfolding drop_old Represents
remove_loop_lem zero r o w it items time f l h = absurd (omega arith)
remove_loop_lem (suc fuel) r o w it [] time f l h =
    let m : time < it.time = unfold last_time in omega (arith, h.newest_time) in
    let e : leb it.time time ≡ false = ground arith in
    rw (remove_loop_stop fuel r o time (omega (arith, h.oldest_time)), e)
      ((o, w, h), ((refl, refl, refl, refl), omega arith))
remove_loop_lem (suc fuel) r o w it (next ∷ items) time f l h =
    elim (Bool-cases (leb it.time time)) [
      | inr e ↦
          let m : time < it.time = ground arith in
          rw (remove_loop_stop fuel r o time (omega (arith, h.oldest_time)), e)
            ((o, w, h), ((refl, refl, refl, refl), omega arith))
      | inl e ↦
          let m : it.time ≤ time = ground arith in
          rw (remove_loop_step fuel r o w time it next items m h) (
            rw e (
              remove_loop_lem fuel (removed r o it next) (next_index r.window_items o) w next items
                time (omega arith) l (removed-IsRing r o w it next items h)))
    ]
