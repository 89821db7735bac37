-- ===== src/Nack/Defs.antt =====
-- The generator's state and its methods. The readings of the clock that a call makes are arguments:
-- `created_at` gives the one at which a number is entered into the list, `now_ms` that of
-- `GetNackBatch`. The calls of the listener are values, in the order in which they are made. A loop
-- without a bound in its text takes fuel, and `none` means that the fuel ran out.
use bifrost_sdk.Base.{
  ℕ, zero, suc, ◌+◌, ◌-◌, ◌%◌, Bool, true, false, ltb, ◌&&◌, if◌then◌else◌, Option, none, some,
  ◌>>=◌, List, [], ◌∷◌, length, u16_mod, add16, sub16,
}
use bifrost_sdk.Seq.{is_seq_lower_than, is_seq_higher_than}
use bifrost_sdk.OrderedSet.{emplace, find, from_lower_bound, starts_below}

abbrev pub max_packet_age : ℕ
max_packet_age = 10000

abbrev pub max_nack_packets : ℕ
max_nack_packets = 1000

abbrev pub default_rtt : ℕ
default_rtt = 100

abbrev pub max_nack_retries : ℕ
max_nack_retries = 10

pub record NackInfo : Type 0 where
  pub created_at_ms : ℕ
  pub seq : ℕ
  pub send_at_seq : ℕ
  pub sent_at_ms : ℕ
  pub retries : ℕ

pub data NackFilter : Type 0 where
  by_seq by_time : NackFilter

-- The calls of `NackGenerator::Listener`.
pub data Event : Type 0 where
  nack_required : List ℕ → Event
  key_frame_required : Event

pub record NackGenerator : Type 0 where
  pub send_nack_delay_ms : ℕ
  pub nack_list : List NackInfo
  pub key_frame_list : List ℕ
  pub recovered_list : List ℕ
  pub started : Bool
  pub last_seq : ℕ
  pub rtt : ℕ

abbrev pub lower : ℕ → ℕ → Bool
lower = is_seq_lower_than (u16_mod - 1)

abbrev pub higher : ℕ → ℕ → Bool
higher = is_seq_higher_than (u16_mod - 1)

-- The key of an entry of `nack_list_`, and of a plain sequence number.
abbrev pub nack_key : NackInfo → ℕ
nack_key n = n.seq

abbrev pub seq_key : ℕ → ℕ
seq_key seq = seq

-- `NackInfo{ GetTimeMs(), seq, seq }`
abbrev pub new_nack : ℕ → ℕ → NackInfo
new_nack created_at seq = record {
  created_at_ms = created_at;
  seq = seq;
  send_at_seq = seq;
  sent_at_ms = 0;
  retries = 0;
}

-- `RemoveNackItemsUntilKeyFrame`: the two lists afterwards, and the result. Key frames that remove
-- nothing are dropped.
unfoldable pub remove_until_key_frame : List ℕ → List NackInfo → List ℕ × List NackInfo × Bool
remove_until_key_frame [] nacks = ([], nacks, false)
remove_until_key_frame (k ∷ ks) nacks =
    if starts_below nack_key lower k nacks
    then (k ∷ ks, from_lower_bound nack_key lower k nacks, true)
    else remove_until_key_frame ks nacks

-- `static_cast<uint16_t>(nack_list_.size()) + num_new_nacks > kMaxNackPackets`
abbrev pub is_over : List NackInfo → ℕ → Bool
is_over nacks num_new_nacks = ltb max_nack_packets (length nacks % u16_mod + num_new_nacks)

-- `while (RemoveNackItemsUntilKeyFrame() && …) {}`
unfoldable pub shrink : ℕ → List ℕ → List NackInfo → ℕ → Option (List ℕ × List NackInfo)
shrink zero ks nacks num_new_nacks = none
shrink (suc fuel) ks nacks num_new_nacks =
    let (ks', nacks', found) = remove_until_key_frame ks nacks in
    elim (found && is_over nacks' num_new_nacks) [
      | true ↦ shrink fuel ks' nacks' num_new_nacks
      | false ↦ some (ks', nacks')
    ]

-- The body of the loop: a number that has been recovered is not entered.
unfoldable pub add_nack : List ℕ → (ℕ → ℕ) → ℕ → List NackInfo → List NackInfo
add_nack recovered created_at seq nacks = elim (find seq_key lower seq recovered) [
  | some _ ↦ nacks
  | none ↦ emplace nack_key lower (new_nack (created_at seq) seq) nacks
]

-- `for (uint16_t seq = seq_start; seq != seq_end; ++seq)`, over the rounds that are left.
unfoldable pub add_nacks : List ℕ → (ℕ → ℕ) → ℕ → ℕ → List NackInfo → List NackInfo
add_nacks recovered created_at zero seq nacks = nacks
add_nacks recovered created_at (suc n) seq nacks =
    add_nacks recovered created_at n (add16 seq 1) (add_nack recovered created_at seq nacks)

-- `AddPacketsToNackList` behind the removal of old packets: `nacks` is what that leaves.
unfoldable pub add_young_packets :
    NackGenerator → (ℕ → ℕ) → ℕ → ℕ → List NackInfo → Option (NackGenerator × List Event)
add_young_packets g created_at seq_start num_new_nacks nacks =
    if is_over nacks num_new_nacks
    then (shrink (length nacks + 1) g.key_frame_list nacks num_new_nacks >>= λ r.
        if is_over r.1 num_new_nacks
        then some (record g { key_frame_list = r.0; nack_list = [] }, key_frame_required ∷ [])
        else some (
          record g {
            key_frame_list = r.0;
            nack_list = add_nacks g.recovered_list created_at num_new_nacks seq_start r.1;
          },
          [],
        ))
    else some (
      record g { nack_list = add_nacks g.recovered_list created_at num_new_nacks seq_start nacks },
      [],
    )

unfoldable pub add_packets_to_nack_list :
    NackGenerator → (ℕ → ℕ) → ℕ → ℕ → Option (NackGenerator × List Event)
add_packets_to_nack_list g created_at seq_start seq_end =
    add_young_packets g created_at seq_start (sub16 seq_end seq_start)
      (from_lower_bound nack_key lower (sub16 seq_end max_packet_age) g.nack_list)
