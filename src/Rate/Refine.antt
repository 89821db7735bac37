-- ===== src/Rate/Refine.antt =====
-- The calculator is a window of items, of which it counts the bytes.
use bifrost_sdk.Base.{
  ℕ, ◌+◌, ◌-◌, ◌≤◌, ◌<◌, ◌≡◌, ◌≢◌, ◌==◌, refl, ◌∙◌, false, ltb, List, [], ◌∷◌, length-replicate,
  u64_mod, add64, arith, Returns, Returns-bind,
}
use bifrost_sdk.Rate.{
  BufferItem, blank, RateCalculator, new_rate_calculator, set_oldest, count_total, remove_old_data,
  enter, update, get_rate,
}
use bifrost_sdk.Rate.Window.{drop_old, total, Represents}
use bifrost_sdk.Rate.Loop.{SameParams, SameShape}
use bifrost_sdk.Rate.Remove.{kept_at, remove_old_data_lem, head-le-last_time}
use bifrost_sdk.Rate.Enter.{add_bytes}
use bifrost_sdk.Rate.Slots.{IsSized, IsYoung, kept_at-IsYoung}
use bifrost_sdk.Rate.Update.{Becomes, enter_lem}

-- The count of all bytes and the last rate are not part of the window.
abbrev with_bytes : RateCalculator → ℕ → RateCalculator
with_bytes r bytes = record r { bytes = bytes }

abbrev with_rate : RateCalculator → ℕ → ℕ → RateCalculator
with_rate r rate time = record r { last_rate = rate; last_time = time }

Represents-with :
    (r : RateCalculator) (bytes rate time : ℕ) (items : List BufferItem)
    → Represents r items
    → Represents (with_rate (with_bytes r bytes) rate time) items
unfolding Represents
Represents-with r bytes rate time [] h = h
Represents-with r bytes rate time (it ∷ items) (o, w, h) = (
  o,
  w,
  record {
    sized = h.sized;
    oldest_in = h.oldest_in;
    newest_in = h.newest_in;
    oldest = h.oldest;
    newest = h.newest;
    oldest_time = h.oldest_time;
    newest_time = h.newest_time;
    length_steps = h.length_steps;
    counted = h.counted;
    bounded = h.bounded;
    holds = h.holds;
  },
)

total-drop_old : (time : ℕ) (items : List BufferItem) → total (drop_old time items) ≤ total items
unfolding total drop_old
total-drop_old time [] = omega arith
total-drop_old time (it ∷ items) = ground (arith, total-drop_old time items)

total-kept_at :
    (window now_ms : ℕ) (items : List BufferItem)
    → total (kept_at window now_ms items) ≤ total items
unfolding total
total-kept_at window now_ms items = ground (arith, total-drop_old (now_ms - window) items)

-- The oldest item is not ahead of the clock.
not_behind :
    (r : RateCalculator) (now_ms : ℕ) (items : List BufferItem)
    → Represents r items
    → r.newest_item_start_time ≤ now_ms
    → ltb now_ms r.oldest_item_start_time ≡ false
unfolding Represents
not_behind r now_ms [] h l = ground arith
not_behind r now_ms (it ∷ items) (o, w, h) l =
    let le = head-le-last_time r.window_items r.item_size_ms w r.buffer o it items h.holds in
    ground (arith, le, h.oldest_time, h.newest_time)

IsSized-same : (r r' : RateCalculator) → SameParams r r' → IsSized r → IsSized r'
IsSized-same r r' (a, b, c, _) z = record {
  items_some = omega (arith, b, z.items_some);
  window_in = omega (arith, a, z.window_in);
  covered = grind (arith, a, b, c, z.covered);
}

-- The window after bytes were entered at a time.
abbrev pub window_after : RateCalculator → ℕ → ℕ → List BufferItem → List BufferItem
window_after r size now_ms items =
    add_bytes r.item_size_ms size now_ms (kept_at r.window_size_ms now_ms items)

-- Of a calculator whose items cover its window, and which stands for a window of items, with a clock that
-- is not behind the last item, `Update` does not fault: its loop ends. It then stands for the window
-- without the items that are as old as its size (without any, if the clock is below that), into
-- which the bytes have entered, and has counted them into all bytes; its parameters stay. The total
-- of the window is below 2^64 with these bytes.
pub update_refines :
    (r : RateCalculator) (size now_ms : ℕ) (items : List BufferItem)
    → IsSized r
    → now_ms < u64_mod
    → total items + size < u64_mod
    → r.newest_item_start_time ≤ now_ms
    → Represents r items
    → Returns (update r size now_ms) (λ r'.
      Represents r' (window_after r size now_ms items)
      × SameParams (with_bytes r (add64 r.bytes size)) r')
unfolding update
update_refines r size now_ms items z c l m h =
    let counted = with_bytes r (add64 r.bytes size) in
    let kept = kept_at r.window_size_ms now_ms items in
    let z' : IsSized counted = record {
      items_some = z.items_some;
      window_in = z.window_in;
      covered = z.covered;
    } in
    rw (not_behind r now_ms items h m) (
      Returns-bind (remove_old_data counted now_ms) _
        (λ r'. Represents r' kept × SameShape counted r') _
        (remove_old_data_lem counted now_ms items z.window_in c m
          (Represents-with r (add64 r.bytes size) r.last_rate r.last_time items h))
        λ k _ (held, (params, before)).
          let young : IsYoung k.window_size_ms now_ms kept =
            rw (params.0) (kept_at-IsYoung r.window_size_ms now_ms items) in
          Returns-bind (enter k size now_ms) _
            (λ e.
              Becomes k (add_bytes k.item_size_ms size now_ms kept)
                (count_total (set_oldest e now_ms) size))
            _
            (enter_lem k size now_ms kept (IsSized-same counted k params z') c
              (omega (arith, total-kept_at r.window_size_ms now_ms items)) (omega (arith, before))
              young held)
            λ e _ (stands, (pa, pb, pc, pd)). (
              (rw (← params.2) stands),
              (pa ∙ params.0, pb ∙ params.1, pc ∙ params.2, pd ∙ params.3),
            ))

total_count-Represents :
    (r : RateCalculator) (items : List BufferItem)
    → Represents r items
    → r.total_count ≡ total items
unfolding Represents total
total_count-Represents r [] h = h.4
total_count-Represents r (it ∷ items) (o, w, h) = h.counted

-- `GetRate`, at another time than the last, makes the rate of the bytes in the window without the items
-- that are as old as its size, which the calculator then stands for.
pub get_rate_refines :
    (scaled : ℕ → ℕ → ℕ) (r : RateCalculator) (now_ms : ℕ) (items : List BufferItem)
    → r.window_size_ms < u64_mod
    → now_ms < u64_mod
    → r.newest_item_start_time ≤ now_ms
    → now_ms ≢ r.last_time
    → Represents r items
    → Returns (get_rate scaled r now_ms) (λ (r', rate).
      Represents r' (kept_at r.window_size_ms now_ms items)
      × (rate ≡ scaled (total (kept_at r.window_size_ms now_ms items)) r.window_size_ms))
unfolding get_rate
get_rate_refines scaled r now_ms items z c m d h =
    let e : (now_ms == r.last_time) ≡ false = ground arith in
    let kept = kept_at r.window_size_ms now_ms items in
    rw e (
      Returns-bind (remove_old_data r now_ms) _ (λ r'. Represents r' kept × SameShape r r') _
        (remove_old_data_lem r now_ms items z c m h)
        λ k _ (held, (params, _)). (
          Represents-with k k.bytes (scaled k.total_count k.window_size_ms) now_ms kept held,
          rw (total_count-Represents k kept held, params.0) refl,
        ))

-- A new calculator stands for the empty window.
pub new_rate_calculator_lem :
    (window_size_ms window_items : ℕ)
    → 0 < window_items
    → Returns (new_rate_calculator window_size_ms window_items) (λ r. Represents r [])
unfolding new_rate_calculator Represents
new_rate_calculator_lem window_size_ms window_items l =
    ground (arith, length-replicate window_items blank)
