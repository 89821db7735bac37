-- ===== src/Rate/Tests.antt =====
-- A window of 40 ms in four items.
use bifrost_sdk.Base.{◌≡◌, refl, some, [], ◌∷◌, arith, Returns}
use bifrost_sdk.Rate.{blank, RateCalculator, new_rate_calculator, update}
use bifrost_sdk.Rate.Window.{Holds, total, drop_old, last_time, Represents}
use bifrost_sdk.Rate.Loop.{SameParams}
use bifrost_sdk.Rate.Enter.{item, add_bytes}
use bifrost_sdk.Rate.Refine.{update_refines}
use bifrost_sdk.Rate.Counter.{new_rtp_data_counter}

new_rtp_data_counter-eq : new_rate_calculator 2500 100 ≡ some new_rtp_data_counter.rate
unfolding new_rate_calculator
new_rtp_data_counter-eq = refl

-- The ring has gone round: its oldest item, of the time 105, stands last.
abbrev calculator : RateCalculator
calculator = record {
  window_size_ms = 40;
  window_items = 4;
  item_size_ms = 10;
  buffer = item 300 116 ∷ item 50 130 ∷ blank ∷ item 200 105 ∷ [];
  newest_item_start_time = 130;
  newest_item_index = some 1;
  oldest_item_start_time = 105;
  oldest_item_index = some 3;
  total_count = 550;
  bytes = 9000;
  last_rate = 0;
  last_time = 0;
}

calculator-Represents : Represents calculator (item 200 105 ∷ item 300 116 ∷ item 50 130 ∷ [])
unfolding Represents Holds total last_time
calculator-Represents = (
  3,
  1,
  record {
    sized = refl;
    oldest_in = omega arith;
    newest_in = omega arith;
    oldest = refl;
    newest = refl;
    oldest_time = refl;
    newest_time = refl;
    length_steps = refl;
    counted = refl;
    bounded = omega arith;
    holds = (refl, omega arith, (refl, omega arith, (refl, refl)));
  },
)

-- At 146 the first item is 41 ms old, and the last 16.
update_refines_example : Returns (update calculator 70 146) (λ r'.
    Represents r' (item 300 116 ∷ item 50 130 ∷ item 70 146 ∷ [])
    × SameParams (record calculator { bytes = 9070 }) r')
unfolding drop_old add_bytes
update_refines_example =
    update_refines calculator 70 146 (item 200 105 ∷ item 300 116 ∷ item 50 130 ∷ [])
      (record { items_some = omega arith; window_in = omega arith; covered = omega arith })
      (omega arith) (unfold total in omega arith) (omega arith) calculator-Represents
