-- ===== src/Rate.antt =====
-- core/src/rtc/data_calculator.cpp: the bytes of a time window, in a ring of items.
pub mod Window
pub mod Loop
pub mod Remove
pub mod Enter
pub mod Slots
pub mod Update
pub mod Refine
pub mod Counter
mod Tests
use bifrost_sdk.Base.{
  ℕ, zero, suc, ◌+◌, ◌-◌, ◌/◌, ◌%◌, Bool, true, false, ltb, leb, ◌==◌, if◌then◌else◌, Option, none,
  some, ◌>>=◌, List, [], ◌∷◌, length, get_elem?, set, replicate, add64, sub64,
}

pub record BufferItem : Type 0 where
  pub count : ℕ
  pub time : ℕ

abbrev pub blank : BufferItem
blank = record { count = 0; time = 0 }

-- An index of -1 is none.
pub record RateCalculator : Type 0 where
  pub window_size_ms : ℕ
  pub window_items : ℕ
  pub item_size_ms : ℕ
  pub buffer : List BufferItem
  pub newest_item_start_time : ℕ
  pub newest_item_index : Option ℕ
  pub oldest_item_start_time : ℕ
  pub oldest_item_index : Option ℕ
  pub total_count : ℕ
  pub bytes : ℕ
  pub last_rate : ℕ
  pub last_time : ℕ

-- The constructor; a window of no items is a division by 0.
unfoldable pub new_rate_calculator : ℕ → ℕ → Option RateCalculator
new_rate_calculator window_size_ms window_items =
    if window_items == 0
    then none
    else some record {
      window_size_ms = window_size_ms;
      window_items = window_items;
      item_size_ms =
          if ltb (window_size_ms / window_items) 1 then 1 else window_size_ms / window_items;
      buffer = replicate window_items blank;
      newest_item_start_time = 0;
      newest_item_index = none;
      oldest_item_start_time = 0;
      oldest_item_index = none;
      total_count = 0;
      bytes = 0;
      last_rate = 0;
      last_time = 0;
    }

-- `Reset`
abbrev pub reset : RateCalculator → RateCalculator
reset r = record r {
  buffer = replicate (length r.buffer) blank;
  newest_item_start_time = 0;
  newest_item_index = none;
  oldest_item_start_time = 0;
  oldest_item_index = none;
  total_count = 0;
  last_rate = 0;
  last_time = 0;
}

-- The index behind another, in the ring.
abbrev pub next_index : ℕ → ℕ → ℕ
next_index window_items i = if leb window_items (i + 1) then 0 else i + 1

-- The loop of `RemoveOldData`, on fuel.
unfoldable pub remove_loop : ℕ → RateCalculator → ℕ → ℕ → Option RateCalculator
remove_loop zero r oldest new_oldest_time = none
remove_loop (suc fuel) r oldest new_oldest_time =
    if leb r.oldest_item_start_time new_oldest_time
    then (get_elem? r.buffer oldest >>= λ it.
        get_elem? (set r.buffer oldest blank) (next_index r.window_items oldest) >>= λ new_oldest.
        remove_loop fuel
          (record r {
            total_count = sub64 r.total_count it.count;
            buffer = set r.buffer oldest blank;
            oldest_item_index = some (next_index r.window_items oldest);
            oldest_item_start_time = new_oldest.time;
          })
          (next_index r.window_items oldest) new_oldest_time)
    else some r

-- `RemoveOldData`: the fuel is the number of items, and one test more.
unfoldable pub remove_old_data : RateCalculator → ℕ → Option RateCalculator
remove_old_data r now_ms = elim (r.newest_item_index) [
  | none ↦ some r
  | some newest ↦ elim (r.oldest_item_index) [
    | none ↦ some r
    | some oldest ↦
        if ltb (sub64 now_ms r.window_size_ms) r.oldest_item_start_time
        then some r
        else (if leb r.newest_item_start_time (sub64 now_ms r.window_size_ms)
            then some (reset r)
            else remove_loop (r.window_items + 1) r oldest (sub64 now_ms r.window_size_ms))
  ]
]

-- The part of `Update` that enters the bytes: into a new item, or into the newest one.
unfoldable pub new_item_index : RateCalculator → ℕ → Option ℕ
new_item_index r now_ms = elim (r.newest_item_index) [
  | none ↦ some 0
  | some newest ↦
      if leb r.item_size_ms (sub64 now_ms r.newest_item_start_time)
      then some (next_index r.window_items newest)
      else none
]

unfoldable pub enter : RateCalculator → ℕ → ℕ → Option RateCalculator
enter r size now_ms = elim (new_item_index r now_ms) [
  | some i ↦
      if ltb i (length r.buffer)
      then some (record r {
        newest_item_index = some i;
        newest_item_start_time = now_ms;
        buffer = set r.buffer i (record { count = size; time = now_ms });
      })
      else none
  | none ↦ elim (r.newest_item_index) [
    | none ↦ none
    | some newest ↦ get_elem? r.buffer newest >>= λ it.
        some (record r { buffer = set r.buffer newest (record it { count = add64 it.count size }) })
  ]
]

-- The rest of `Update`.
abbrev pub set_oldest : RateCalculator → ℕ → RateCalculator
set_oldest r now_ms = elim (r.oldest_item_index) [
  | none ↦ record r { oldest_item_index = r.newest_item_index; oldest_item_start_time = now_ms }
  | some oldest ↦ r
]

abbrev pub count_total : RateCalculator → ℕ → RateCalculator
count_total r size = record r {
  total_count = add64 r.total_count size;
  last_rate = 0;
  last_time = 0;
}

unfoldable pub update : RateCalculator → ℕ → ℕ → Option RateCalculator
update r size now_ms =
    if ltb now_ms r.oldest_item_start_time
    then some r
    else (remove_old_data (record r { bytes = add64 r.bytes size }) now_ms >>= λ kept.
        enter kept size now_ms >>= λ entered. some (count_total (set_oldest entered now_ms) size))

-- `GetRate`, given the rate as a float makes it of a total and the size of the window.
unfoldable pub get_rate : (ℕ → ℕ → ℕ) → RateCalculator → ℕ → Option (RateCalculator × ℕ)
get_rate scaled r now_ms =
    if now_ms == r.last_time
    then some (r, r.last_rate)
    else (remove_old_data r now_ms >>= λ kept. some (
      record kept { last_time = now_ms; last_rate = scaled kept.total_count kept.window_size_ms },
      scaled kept.total_count kept.window_size_ms,
    ))
