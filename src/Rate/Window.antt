-- ===== src/Rate/Window.antt =====
-- The ring as a queue of items, the oldest first.
use bifrost_sdk.Base.{
  ℕ, ◌+◌, ◌-◌, ◌≤◌, ◌<◌, ◌≡◌, ◌∙◌, leb, if◌then◌else◌, none, some, List, [], ◌∷◌, length, get_elem?,
  set, get_elem?-set_ne, u64_mod, arith,
}
use bifrost_sdk.Rate.{BufferItem, RateCalculator, next_index}

-- How many steps lead from one index to another in a ring of n.
abbrev pub steps : ℕ → ℕ → ℕ → ℕ
steps n i j = if leb i j then j - i else n + j - i

-- The ring holds the items from the index o on, the last one at the index `newest`, each item at least
-- `gap` later than the one before it.
module _ (n gap newest : ℕ) where
  unfoldable pub Holds : List BufferItem → ℕ → List BufferItem → Type 0
  Holds ring o [] = ⊥
  Holds ring o (it ∷ []) = (get_elem? ring o ≡ some it) × (o ≡ newest)
  Holds ring o (it ∷ next ∷ items) =
      (get_elem? ring o ≡ some it)
      × (it.time + gap ≤ next.time)
      × Holds ring (next_index n o) (next ∷ items)

  pub steps_next :
      (o k : ℕ) → o < n → k < n → 0 < steps n o k → steps n (next_index n o) k + 1 ≡ steps n o k
  steps_next o k h l p = ground arith

  -- A write to an index behind the newest leaves what the ring holds.
  pub Holds-set :
      (ring : List BufferItem) (o k : ℕ) (new : BufferItem) (items : List BufferItem)
      → o < n
      → k < n
      → length items ≤ steps n o k
      → Holds ring o items
      → Holds (set ring k new) o items
  unfolding Holds
  Holds-set ring o k new [] h l m w = w
  Holds-set ring o k new (it ∷ []) h l m w = (get_elem?-set_ne ring new (ground arith) ∙ w.0, w.1)
  Holds-set ring o k new (it ∷ next ∷ items) h l m w = (
    get_elem?-set_ne ring new (ground arith) ∙ w.0,
    w.1,
    Holds-set ring (next_index n o) k new (next ∷ items) (ground arith) l
        (ground (arith, steps_next o k h l)) w.2,
  )

-- What is not older than a time stays.
unfoldable pub drop_old : ℕ → List BufferItem → List BufferItem
drop_old time [] = []
drop_old time (it ∷ items) = if leb it.time time then drop_old time items else it ∷ items

-- The bytes, and the time of the last item.
unfoldable pub total : List BufferItem → ℕ
total [] = 0
total (it ∷ items) = it.count + total items

unfoldable pub last_time : BufferItem → List BufferItem → ℕ
last_time it [] = it.time
last_time it (next ∷ items) = last_time next items

-- The ring of the calculator holds the items, and the other members say where they are.
pub record IsRing (r : RateCalculator) (o w : ℕ) (it : BufferItem) (items : List BufferItem)
    : Type 0 where
  pub sized : length r.buffer ≡ r.window_items
  pub oldest_in : o < r.window_items
  pub newest_in : w < r.window_items
  pub oldest : r.oldest_item_index ≡ some o
  pub newest : r.newest_item_index ≡ some w
  pub oldest_time : r.oldest_item_start_time ≡ it.time
  pub newest_time : r.newest_item_start_time ≡ last_time it items
  pub length_steps : length items ≡ steps r.window_items o w
  pub counted : r.total_count ≡ total (it ∷ items)
  pub bounded : r.total_count < u64_mod
  pub holds : Holds r.window_items r.item_size_ms w r.buffer o (it ∷ items)

-- A calculator stands for a window.
unfoldable pub Represents : RateCalculator → List BufferItem → Type 0
Represents r [] =
    (length r.buffer ≡ r.window_items)
    × (r.newest_item_index ≡ none)
    × (r.oldest_item_index ≡ none)
    × (r.oldest_item_start_time ≡ 0)
    × (r.total_count ≡ 0)
Represents r (it ∷ items) = (o : ℕ) × (w : ℕ) × IsRing r o w it items
