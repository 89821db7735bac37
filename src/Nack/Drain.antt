-- ===== src/Nack/Drain.antt =====
-- The timer rounds of the generator, over time: no number is asked for without end. (The calls that would
-- start the timer are commented out in the source; the rounds are those of `OnTimer`.)
use bifrost_sdk.Base.{
  ℕ, suc, ◌+◌, ◌≤◌, ◌<◌, ◌≡◌, refl, ap, true, false, Bool-cases, inl, inr, ltb, leb, if◌then◌else◌,
  List, [], ◌∷◌, ◌++◌, map, length, u64_mod, arith, All,
}
use bifrost_sdk.Nack.Defs.{
  NackInfo, by_time, Event, NackGenerator, default_rtt, max_nack_retries, nack_key,
}
use bifrost_sdk.Nack.Receive.{is_delayed, is_due, asked, batch_loop, get_nack_batch, ask, on_timer}

-- `OnTimer` at each of the times.
unfoldable pub on_timers : NackGenerator → List ℕ → NackGenerator × List Event
on_timers g [] = (g, [])
on_timers g (now_ms ∷ times) =
    let (g', events) = on_timer g now_ms in
    let (g'', more) = on_timers g' times in (g'', events ++ more)

-- The time between two requests for a number.
abbrev pub request_gap : NackGenerator → ℕ
request_gap g = if ltb 0 g.rtt then g.rtt else default_rtt

-- An entry that has had k requests or more, and can be asked for at a time.
abbrev pub IsRipe : NackGenerator → ℕ → ℕ → NackInfo → Type 0
IsRipe g k now_ms n =
    (k ≤ n.retries)
    × (n.retries < max_nack_retries)
    × (n.created_at_ms + g.send_nack_delay_ms ≤ now_ms)
    × (n.sent_at_ms + request_gap g ≤ now_ms)

-- Times within 64 bits, each far enough behind the one before it.
abbrev pub AreSpaced : ℕ → ℕ → List ℕ → Type 0
AreSpaced gap last [] = Unit {0}
AreSpaced gap last (now_ms ∷ times) =
    (last + gap ≤ now_ms) × (now_ms < u64_mod) × AreSpaced gap now_ms times

-- An entry that was asked for at a time.
abbrev IsAsked : NackGenerator → ℕ → ℕ → NackInfo → Type 0
IsAsked g k now_ms n =
    (k + 1 ≤ n.retries)
    × (n.retries < max_nack_retries)
    × (n.created_at_ms + g.send_nack_delay_ms ≤ now_ms)
    × (n.sent_at_ms ≡ now_ms)

ripe_not_delayed :
    (g : NackGenerator) (k now_ms : ℕ) (n : NackInfo)
    → now_ms < u64_mod
    → IsRipe g k now_ms n
    → is_delayed g now_ms n ≡ false
unfolding is_delayed
ripe_not_delayed g k now_ms n c h = ground (arith, h)

ripe_due :
    (g : NackGenerator) (k now_ms : ℕ) (n : NackInfo)
    → now_ms < u64_mod
    → IsRipe g k now_ms n
    → is_due g by_time now_ms n ≡ true
unfolding is_due
ripe_due g k now_ms n c h = ground (arith, h)

-- Every ripe entry is in the batch; it is left out of the list, or has had one request more.
batch_loop_ripe :
    (g : NackGenerator) (k now_ms : ℕ) (xs : List NackInfo)
    → now_ms < u64_mod
    → All (IsRipe g k now_ms) xs
    → let (nacks, batch) = batch_loop g by_time now_ms xs in
      All (IsAsked g k now_ms) nacks × (batch ≡ map nack_key xs)
unfolding batch_loop
batch_loop_ripe g k now_ms [] c h = (tt, refl)
batch_loop_ripe g k now_ms (n ∷ xs) c h =
    let ih = batch_loop_ripe g k now_ms xs c h.1 in
    rw (ripe_not_delayed g k now_ms n c h.0, ripe_due g k now_ms n c h.0)
      (elim (Bool-cases (leb max_nack_retries (asked now_ms n).retries)) [
        | inl e ↦ rw e (ih.0, ap (λ ns. n.seq ∷ ns) ih.1)
        | inr e ↦ rw e ((ground (arith, h.0), ih.0), ap (λ ns. n.seq ∷ ns) ih.1)
      ])

asked-IsRipe :
    (g : NackGenerator) (k last now_ms : ℕ) (xs : List NackInfo)
    → last + request_gap g ≤ now_ms
    → All (IsAsked g k last) xs
    → All (IsRipe g (suc k) now_ms) xs
asked-IsRipe g k last now_ms [] l h = tt
asked-IsRipe g k last now_ms (n ∷ xs) l h = (
  (omega (arith, h.0), h.0.1, omega (arith, h.0), omega (arith, h.0)),
  asked-IsRipe g k last now_ms xs l h.1,
)

-- No entry can have had all requests.
asked_none :
    (g : NackGenerator) (k now_ms : ℕ) (xs : List NackInfo)
    → max_nack_retries ≤ suc k
    → All (IsAsked g k now_ms) xs
    → xs ≡ []
asked_none g k now_ms [] l h = refl
asked_none g k now_ms (n ∷ xs) l h = absurd (omega (arith, h.0))

-- After further rounds.
on_timers_asked :
    (g : NackGenerator) (k last : ℕ) (times : List ℕ)
    → max_nack_retries ≤ suc k + length times
    → All (IsAsked g k last) g.nack_list
    → AreSpaced (request_gap g) last times
    → (on_timers g times).0.nack_list ≡ []
unfolding on_timers on_timer get_nack_batch
on_timers_asked g k last [] l h s = asked_none g k last g.nack_list (omega arith) h
on_timers_asked g k last (now_ms ∷ times) l h s =
    let ripe = asked-IsRipe g k last now_ms g.nack_list s.0 h in
    let next = batch_loop_ripe g (suc k) now_ms g.nack_list s.1 ripe in
    on_timers_asked (on_timer g now_ms).0 (suc k) now_ms times (omega arith) next.0 s.2

-- Without a packet in between, the timer empties the list of requests in ten rounds: if each entry has
-- waited for its delay at the first of these, and for a round trip since its last request, and each
-- round comes a round trip after the one before it or later. The first of the rounds asks for every
-- number of the list.
pub on_timers_drain :
    (g : NackGenerator) (now_ms : ℕ) (times : List ℕ)
    → now_ms < u64_mod
    → All (IsRipe g 0 now_ms) g.nack_list
    → AreSpaced (request_gap g) now_ms times
    → max_nack_retries ≤ length (now_ms ∷ times)
    → ((on_timers g (now_ms ∷ times)).0.nack_list ≡ [])
      × ((on_timer g now_ms).1 ≡ ask (map nack_key g.nack_list))
unfolding on_timers on_timer get_nack_batch
on_timers_drain g now_ms times c h s l =
    let first = batch_loop_ripe g 0 now_ms g.nack_list c h in
    (on_timers_asked (on_timer g now_ms).0 0 now_ms times (omega arith) first.0 s, ap ask first.1)
