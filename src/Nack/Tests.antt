-- ===== src/Nack/Tests.antt =====
-- The generator at concrete packets.
use bifrost_sdk.Base.{ℕ, List, ◌≡◌, true, false, [], ◌∷◌, arith, Returns}
use bifrost_sdk.Nack.Defs.{NackGenerator, new_nack}
use bifrost_sdk.Nack.Receive.{ask, receive_packet, on_timer}
use bifrost_sdk.Nack.Limits.{IsWithinLimits, receive_packet-IsWithinLimits}
use bifrost_sdk.Nack.Drain.{on_timers, on_timers_drain}

-- A generator that has seen 65534 last, and misses nothing.
abbrev running : NackGenerator
running = record {
  send_nack_delay_ms = 0;
  nack_list = [];
  key_frame_list = 65533 ∷ 65534 ∷ [];
  recovered_list = [];
  started = true;
  last_seq = 65534;
  rtt = 0;
}

-- One that has asked for 65533 nine times.
abbrev asking : NackGenerator
asking = record running {
  nack_list =
      record { created_at_ms = 10; seq = 65533; send_at_seq = 65533; sent_at_ms = 40; retries = 9 }
      ∷ [];
}

receive_packet-IsWithinLimits_example :
    Returns (receive_packet asking 3 false (λ _. 50) 51) (λ r. IsWithinLimits r.0)
receive_packet-IsWithinLimits_example =
    receive_packet-IsWithinLimits asking 3 false (λ _. 50) 51 (omega arith, (omega arith, tt))

-- One that is to ask for 65535 and 0.
abbrev missing : NackGenerator
missing = record running { nack_list = new_nack 50 65535 ∷ new_nack 60 0 ∷ [] }

-- Nine rounds, 100 ms apart.
abbrev rounds : List ℕ
rounds = 1100 ∷ 1200 ∷ 1300 ∷ 1400 ∷ 1500 ∷ 1600 ∷ 1700 ∷ 1800 ∷ 1900 ∷ []

on_timers_drain_example :
    ((on_timers missing (1000 ∷ rounds)).0.nack_list ≡ [])
    × ((on_timer missing 1000).1 ≡ ask (65535 ∷ 0 ∷ []))
on_timers_drain_example =
    on_timers_drain missing 1000 rounds (omega arith)
      (
        (omega arith, omega arith, omega arith, omega arith),
        ((omega arith, omega arith, omega arith, omega arith), tt),
      )
      (
        omega arith,
        omega arith,
        (
          omega arith,
          omega arith,
          (
            omega arith,
            omega arith,
            (
              omega arith,
              omega arith,
              (
                omega arith,
                omega arith,
                (
                  omega arith,
                  omega arith,
                  (
                    omega arith,
                    omega arith,
                    (omega arith, omega arith, (omega arith, omega arith, tt)),
                  ),
                ),
              ),
            ),
          ),
        ),
      )
      (omega arith)
