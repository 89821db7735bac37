-- ===== src/Nack/Limits.antt =====
-- The limits of the generator: at most 1000 entries, and at most 10 requests for each number.
use bifrost_sdk.Base.{
  ℕ, zero, suc, ◌+◌, ◌-◌, ◌≤◌, ◌<◌, ◌≡◌, Bool, true, false, ◌&&◌, Bool-cases, inl, inr, List, [],
  ◌∷◌, length, add16, sub16, arith, All, Returns, Returns-bind, Returns-map,
}
use bifrost_sdk.OrderedSet.{
  from_lower_bound, length-emplace, length-erase, length-from_lower_bound, from_lower_bound_smaller,
}
use bifrost_sdk.OrderedSet.Members.{All-emplace, All-erase, All-from_lower_bound}
use bifrost_sdk.Nack.Defs.{
  NackInfo, NackFilter, NackGenerator, max_nack_packets, max_nack_retries, max_packet_age, nack_key,
  lower, new_nack, remove_until_key_frame, is_over, shrink, add_nack, add_nacks, add_young_packets,
  add_packets_to_nack_list, by_seq, by_time,
}
use bifrost_sdk.Nack.Receive.{
  batch_loop, get_nack_batch, receive_newer, receive_older, receive_packet, on_timer,
  insert_and_trim,
}

abbrev pub HasTriesLeft : NackInfo → Type 0
HasTriesLeft n = n.retries < max_nack_retries

-- A list of at most n entries, none of which has used up its requests.
abbrev pub Entries : ℕ → List NackInfo → Type 0
Entries n xs = (length xs ≤ n) × All HasTriesLeft xs

remove_until_key_frame_lem :
    (ks : List ℕ) (xs : List NackInfo)
    → All HasTriesLeft xs
    → let (_, ys, found) = remove_until_key_frame ks xs in
      Entries (length xs) ys × (found ≡ true → length ys < length xs)
unfolding remove_until_key_frame
remove_until_key_frame_lem [] xs h = ground arith
remove_until_key_frame_lem (k ∷ ks) xs h = ground (
  arith,
  remove_until_key_frame_lem ks xs h,
  length-from_lower_bound nack_key lower k xs,
  from_lower_bound_smaller nack_key lower k xs,
  All-from_lower_bound nack_key lower HasTriesLeft k xs h,
)

-- The loop ends: each of its rounds but the last removes an entry.
shrink_lem :
    (fuel : ℕ) (ks : List ℕ) (xs : List NackInfo) (n : ℕ)
    → length xs < fuel
    → All HasTriesLeft xs
    → Returns (shrink fuel ks xs n) (λ r. Entries (length xs) r.1)
unfolding shrink
shrink_lem zero ks xs n l h = absurd (omega arith)
shrink_lem (suc fuel) ks xs n l h =
    let (ks', ys, found) = remove_until_key_frame ks xs in
    let left = remove_until_key_frame_lem ks xs h in
    elim (Bool-cases (found && is_over ys n)) [
      | inl more ↦
          rw (more, Returns)
            (Returns-map (shrink fuel ks' ys n) _ (λ r. Entries (length xs) r.1)
              (shrink_lem fuel ks' ys n (ground (arith, left)) left.0.1)
              λ r e. (omega (arith, left), e.1))
      | inr done ↦ rw (done, Returns) left.0
    ]

add_nack_lem :
    (recovered : List ℕ) (created_at : ℕ → ℕ) (seq : ℕ) (xs : List NackInfo) (m : ℕ)
    → Entries m xs
    → Entries (m + 1) (add_nack recovered created_at seq xs)
unfolding add_nack
add_nack_lem recovered created_at seq xs m h = ground (
  arith,
  length-emplace nack_key lower (new_nack (created_at seq) seq) xs,
  All-emplace nack_key lower HasTriesLeft (new_nack (created_at seq) seq) xs,
)

add_nacks_lem :
    (recovered : List ℕ) (created_at : ℕ → ℕ) (n seq : ℕ) (xs : List NackInfo) (m : ℕ)
    → Entries m xs
    → Entries (m + n) (add_nacks recovered created_at n seq xs)
unfolding add_nacks
add_nacks_lem recovered created_at zero seq xs m h = ground arith
add_nacks_lem recovered created_at (suc n) seq xs m h = ground (
  arith,
  add_nacks_lem recovered created_at n (add16 seq 1) (add_nack recovered created_at seq xs) (m + 1)
      (add_nack_lem recovered created_at seq xs m h),
)

batch_loop_lem :
    (g : NackGenerator) (filter : NackFilter) (now_ms : ℕ) (xs : List NackInfo) (m : ℕ)
    → Entries m xs
    → Entries m (batch_loop g filter now_ms xs).0
unfolding batch_loop
batch_loop_lem g filter now_ms [] m h = h
batch_loop_lem g filter now_ms (n ∷ rest) m h =
    ground (arith, batch_loop_lem g filter now_ms rest (m - 1))

abbrev pub IsWithinLimits : NackGenerator → Type 0
IsWithinLimits g = Entries max_nack_packets g.nack_list

add_young_packets_lem :
    (g : NackGenerator) (created_at : ℕ → ℕ) (start n : ℕ) (xs : List NackInfo)
    → Entries max_nack_packets xs
    → Returns (add_young_packets g created_at start n xs) (λ r. IsWithinLimits r.0)
unfolding add_young_packets
add_young_packets_lem g created_at start n xs h = elim (Bool-cases (is_over xs n)) [
  | inl over ↦ rw over (
      Returns-bind (shrink (length xs + 1) g.key_frame_list xs n) _ _ _
        (shrink_lem (length xs + 1) g.key_frame_list xs n (omega arith) h.1)
        λ r _ e. ground (
          arith,
          h,
          add_nacks_lem g.recovered_list created_at n start r.1 (length r.1) (omega arith, e.1),
        ))
  | inr fits ↦ rw fits (
      ground (
        arith,
        add_nacks_lem g.recovered_list created_at n start xs (length xs) (omega arith, h.1),
      ))
]

get_nack_batch-IsWithinLimits :
    (g : NackGenerator) (filter : NackFilter) (now_ms : ℕ)
    → IsWithinLimits g
    → IsWithinLimits (get_nack_batch g filter now_ms).0
unfolding get_nack_batch
get_nack_batch-IsWithinLimits g filter now_ms h =
    batch_loop_lem g filter now_ms g.nack_list max_nack_packets h

receive_older-IsWithinLimits :
    (g : NackGenerator) (seq : ℕ) → IsWithinLimits g → IsWithinLimits (receive_older g seq).0
unfolding receive_older
receive_older-IsWithinLimits g seq h = ground (
  arith,
  length-erase nack_key lower seq g.nack_list,
  All-erase nack_key lower HasTriesLeft seq g.nack_list h.1,
)

receive_newer-IsWithinLimits :
    (g : NackGenerator) (seq : ℕ) (is_recovered : Bool) (created_at : ℕ → ℕ) (now_ms : ℕ)
    → IsWithinLimits g
    → Returns (receive_newer g seq is_recovered created_at now_ms) (λ r. IsWithinLimits r.0)
unfolding receive_newer add_packets_to_nack_list
receive_newer-IsWithinLimits g seq true created_at now_ms h = h
receive_newer-IsWithinLimits g seq false created_at now_ms h =
    let g' = record g { key_frame_list = insert_and_trim seq g.key_frame_list } in
    let oldest = sub16 seq max_packet_age in
    let young = from_lower_bound nack_key lower oldest g.nack_list in
    let young_lem =
      add_young_packets_lem g' created_at (add16 g.last_seq 1) (sub16 seq (add16 g.last_seq 1))
        young
        (
          omega (arith, length-from_lower_bound nack_key lower oldest g.nack_list),
          All-from_lower_bound nack_key lower HasTriesLeft oldest g.nack_list h.1,
        ) in
    Returns-bind (add_packets_to_nack_list g' created_at (add16 g.last_seq 1) seq) _ _ _ young_lem
      λ r _ e. get_nack_batch-IsWithinLimits (record r.0 { last_seq = seq }) by_seq now_ms e

-- Whatever packet comes, `ReceivePacket` returns, and leaves at most 1000 numbers in the list, each
-- of them asked for fewer than 10 times so far.
pub receive_packet-IsWithinLimits :
    (g : NackGenerator) (seq : ℕ) (is_recovered : Bool) (created_at : ℕ → ℕ) (now_ms : ℕ)
    → IsWithinLimits g
    → Returns (receive_packet g seq is_recovered created_at now_ms) (λ r. IsWithinLimits r.0)
unfolding receive_packet
receive_packet-IsWithinLimits g seq is_recovered created_at now_ms h = ground (
  arith,
  receive_older-IsWithinLimits g seq h,
  receive_newer-IsWithinLimits g seq is_recovered created_at now_ms h,
)

-- So does the timer.
pub on_timer-IsWithinLimits :
    (g : NackGenerator) (now_ms : ℕ) → IsWithinLimits g → IsWithinLimits (on_timer g now_ms).0
unfolding on_timer
on_timer-IsWithinLimits g now_ms h = get_nack_batch-IsWithinLimits g by_time now_ms h
