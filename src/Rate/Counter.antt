-- ===== src/Rate/Counter.antt =====
-- `RtpDataCounter` of core/include/rtc/data_calculator.h: the packets and the bytes of a stream.
use bifrost_sdk.Base.{
  ℕ, ◌+◌, ◌≤◌, ◌<◌, ◌≡◌, refl, replicate, Option, none, some, ◌>>=◌, List, [], u64_mod, add64,
  arith, Returns, Returns-bind,
}
use bifrost_sdk.Packet.{RtpPacket}
use bifrost_sdk.Rate.{BufferItem, blank, RateCalculator, update}
use bifrost_sdk.Rate.Window.{total, Represents}
use bifrost_sdk.Rate.Slots.{IsSized}
use bifrost_sdk.Rate.Refine.{window_after, update_refines}

pub record RtpDataCounter : Type 0 where
  pub rate : RateCalculator
  pub packets : ℕ

abbrev pub default_window_items : ℕ
default_window_items = 100

abbrev pub counter_window_ms : ℕ
counter_window_ms = 2500

-- The member initialisers, with the constructor of the calculator at the values above.
abbrev pub new_rtp_data_counter : RtpDataCounter
new_rtp_data_counter = record {
  rate = record {
    window_size_ms = counter_window_ms;
    window_items = default_window_items;
    item_size_ms = 25;
    buffer = replicate default_window_items blank;
    newest_item_start_time = 0;
    newest_item_index = none;
    oldest_item_start_time = 0;
    oldest_item_index = none;
    total_count = 0;
    bytes = 0;
    last_rate = 0;
    last_time = 0;
  };
  packets = 0;
}

-- `Update`
unfoldable pub update_counter : RtpDataCounter → RtpPacket → ℕ → Option RtpDataCounter
update_counter c p now_ms = update c.rate p.size now_ms >>= λ rate.
    some (record { rate = rate; packets = add64 c.packets 1 })

-- A counter that can take a packet of a size at a time.
pub record IsReady (c : RtpDataCounter) (size now_ms : ℕ) : Type 0 where
  pub sized : IsSized c.rate
  pub items : List BufferItem
  pub held : Represents c.rate items
  pub room : total items + size < u64_mod
  pub clock : now_ms < u64_mod
  pub not_before : c.rate.newest_item_start_time ≤ now_ms

-- It counts the packet and its bytes, and takes the bytes into its window.
pub update_counter_lem :
    (c : RtpDataCounter) (p : RtpPacket) (now_ms : ℕ) (h : IsReady c p.size now_ms)
    → Returns (update_counter c p now_ms) (λ c'.
      (c'.packets ≡ add64 c.packets 1)
      × (c'.rate.bytes ≡ add64 c.rate.bytes p.size)
      × Represents c'.rate (window_after c.rate p.size now_ms h.items))
unfolding update_counter
update_counter_lem c p now_ms h =
    Returns-bind (update c.rate p.size now_ms) _ _ _
      (update_refines c.rate p.size now_ms h.items h.sized h.clock h.room h.not_before h.held)
      λ r _ (held, (_, _, _, counted)). (refl, counted, held)

-- A new counter is ready at any time.
pub new_rtp_data_counter-IsReady :
    (size now_ms : ℕ) → size < u64_mod → now_ms < u64_mod → IsReady new_rtp_data_counter size now_ms
new_rtp_data_counter-IsReady size now_ms l c = record {
  sized = record { items_some = omega arith; window_in = omega arith; covered = omega arith };
  items = [];
  held = unfold Represents in (refl, refl, refl, refl, refl);
  room = unfold total in omega arith;
  clock = c;
  not_before = omega arith;
}
