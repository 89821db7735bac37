-- ===== src/Nack/Receive.antt =====
-- `GetNackBatch`, `ReceivePacket` and the timer of the generator.
use bifrost_sdk.Base.{
  ℕ, ◌+◌, ◌%◌, Bool, true, false, not, ltb, leb, ◌==◌, ◌&&◌, ◌||◌, if◌then◌else◌, Option, none,
  some, ◌>>=◌, List, [], ◌∷◌, ◌++◌, add16, sub16, sub64,
}
use bifrost_sdk.OrderedSet.{emplace, find, erase, from_lower_bound}
use bifrost_sdk.Nack.Defs.{
  max_packet_age, default_rtt, max_nack_retries, NackInfo, NackFilter, by_seq, by_time, Event,
  nack_required, NackGenerator, lower, higher, nack_key, seq_key, add_packets_to_nack_list,
}

-- The conditions of `GetNackBatch` under which an entry is asked for.
unfoldable pub is_delayed : NackGenerator → ℕ → NackInfo → Bool
is_delayed g now_ms n =
    ltb 0 g.send_nack_delay_ms && ltb (sub64 now_ms n.created_at_ms) g.send_nack_delay_ms

unfoldable pub is_due : NackGenerator → NackFilter → ℕ → NackInfo → Bool
is_due g by_seq now_ms n =
    n.sent_at_ms == 0 && (n.send_at_seq == g.last_seq || higher g.last_seq n.send_at_seq)
is_due g by_time now_ms n =
    n.sent_at_ms == 0
    || leb (if ltb 0 g.rtt then g.rtt else default_rtt) (sub64 now_ms n.sent_at_ms)

-- The entry after it has been asked for once more.
abbrev pub asked : ℕ → NackInfo → NackInfo
asked now_ms n = record n { retries = (n.retries + 1) % 256; sent_at_ms = now_ms }

-- The loop of `GetNackBatch`: the list that is left, and the batch.
unfoldable pub batch_loop : NackGenerator → NackFilter → ℕ → List NackInfo → List NackInfo × List ℕ
batch_loop g filter now_ms [] = ([], [])
batch_loop g filter now_ms (n ∷ rest) =
    let (nacks, batch) = batch_loop g filter now_ms rest in
    if is_delayed g now_ms n
    then (n ∷ nacks, batch)
    else (if is_due g filter now_ms n
        then (if leb max_nack_retries (asked now_ms n).retries
            then (nacks, n.seq ∷ batch)
            else (asked now_ms n ∷ nacks, n.seq ∷ batch))
        else (n ∷ nacks, batch))

unfoldable pub get_nack_batch : NackGenerator → NackFilter → ℕ → NackGenerator × List ℕ
get_nack_batch g filter now_ms =
    let (nacks, batch) = batch_loop g filter now_ms g.nack_list in
    (record g { nack_list = nacks }, batch)

-- `if (!nackBatch.empty()) listener_->OnNackGeneratorNackRequired(nackBatch);`
abbrev pub ask : List ℕ → List Event
ask [] = []
ask (seq ∷ rest) = nack_required (seq ∷ rest) ∷ []

-- Insertion into the key frames or the recovered packets, and the removal of old ones.
unfoldable pub insert_and_trim : ℕ → List ℕ → List ℕ
insert_and_trim seq xs =
    from_lower_bound seq_key lower (sub16 seq max_packet_age) (emplace seq_key lower seq xs)

-- The part of `ReceivePacket` for a packet newer than the last one.
unfoldable pub receive_newer :
    NackGenerator → ℕ → Bool → (ℕ → ℕ) → ℕ → Option (NackGenerator × Bool × List Event)
receive_newer g seq is_recovered created_at now_ms =
    let g' = record g { key_frame_list = insert_and_trim seq g.key_frame_list } in
    if is_recovered
    then some (record g' { recovered_list = insert_and_trim seq g'.recovered_list }, false, [])
    else (add_packets_to_nack_list g' created_at (add16 g.last_seq 1) seq >>= λ r.
        let (g'', batch) = get_nack_batch (record r.0 { last_seq = seq }) by_seq now_ms in
        some (g'', false, r.1 ++ ask batch))

-- The part of `ReceivePacket` for a packet older than the last one.
unfoldable pub receive_older : NackGenerator → ℕ → NackGenerator × Bool × List Event
receive_older g seq = elim (find nack_key lower seq g.nack_list) [
  | none ↦ (g, false, [])
  | some n ↦
      (record g { nack_list = erase nack_key lower seq g.nack_list }, not (n.retries == 0), [])
]

-- `is_key_frame` is true of every packet.
unfoldable pub receive_packet :
    NackGenerator → ℕ → Bool → (ℕ → ℕ) → ℕ → Option (NackGenerator × Bool × List Event)
receive_packet g seq is_recovered created_at now_ms =
    if not g.started
    then some (
      record g {
        started = true;
        last_seq = seq;
        key_frame_list = emplace seq_key lower seq g.key_frame_list;
      },
      false,
      [],
    )
    else (if seq == g.last_seq
        then some (g, false, [])
        else (if lower seq g.last_seq
            then some (receive_older g seq)
            else receive_newer g seq is_recovered created_at now_ms))

unfoldable pub on_timer : NackGenerator → ℕ → NackGenerator × List Event
on_timer g now_ms = let (g', batch) = get_nack_batch g by_time now_ms in (g', ask batch)

unfoldable pub update_rtt : NackGenerator → ℕ → NackGenerator
update_rtt g rtt = record g { rtt = rtt }

unfoldable pub reset : NackGenerator → NackGenerator
reset g = record g {
  nack_list = [];
  key_frame_list = [];
  recovered_list = [];
  started = false;
  last_seq = 0;
}
