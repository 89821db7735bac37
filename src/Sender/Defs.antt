-- ===== src/Sender/Defs.antt =====
-- `RtpStreamSender`: a stream, the retransmission buffer if the stream uses NACKs, and the counters
-- of its reports.
use bifrost_sdk.Base.{
  ℕ, zero, suc, ◌+◌, ◌-◌, ◌*◌, ◌/◌, ◌%◌, ◌^◌, Bool, true, false, not, ltb, leb, ◌==◌, ◌&&◌, ◌||◌,
  if◌then◌else◌, Option, none, some, ◌>>=◌, List, [], ◌∷◌, ◌++◌, length, set, u32_mod, add16, sub16,
  add32, sub32, add64, sub64,
}
use bifrost_sdk.Packet.{RtpPacket}
use bifrost_sdk.Stream.{RtpStream, fresh, receive_stream_packet}
use bifrost_sdk.Retransmission.Defs.{Item, Slots, RetransmissionBuffer, get_oldest, get}
use bifrost_sdk.Retransmission.Store.{insert}
use bifrost_sdk.Rate.Counter.{RtpDataCounter, new_rtp_data_counter, update_counter}
use bifrost_sdk.Rtcp.Defs.{NackItem, SenderReport}
use bifrost_sdk.Receiver.Report.{ℤ, pos, negsuc, ReceiverReport, get_total_lost}

abbrev pub mtu_size : ℕ
mtu_size = 1500

abbrev pub default_rtt : ℕ
default_rtt = 100

-- The elements of `kRetransmissionContainer`.
abbrev pub container_size : ℕ
container_size = 18

-- `rtt` is the round trip time in units of 2^-16 seconds, of which the member `rtt_` is the float in
-- milliseconds.
pub record RtpStreamSender : Type 0 where
  pub stream : RtpStream
  pub retransmission_buffer : Option RetransmissionBuffer
  pub ssrc : ℕ
  pub clock_rate : ℕ
  pub wait_transmission_counter : RtpDataCounter
  pub nack_count : ℕ
  pub nack_packet_count : ℕ
  pub rtt : ℕ
  pub packets_lost : ℕ
  pub fraction_lost : ℕ

abbrev pub retransmission_buffer_max_items : ℕ
retransmission_buffer_max_items = 2500

abbrev pub max_retransmission_delay_for_audio_ms : ℕ
max_retransmission_delay_for_audio_ms = 1000

-- The constructor, with the members of its parameters that are read.
unfoldable pub new_rtp_stream_sender : Bool → ℕ → ℕ → RtpStreamSender
new_rtp_stream_sender use_nack ssrc clock_rate = record {
  stream = fresh;
  retransmission_buffer =
      if use_nack
      then some record {
        buffer = [];
        max_items = retransmission_buffer_max_items;
        max_retransmission_delay_ms = max_retransmission_delay_for_audio_ms;
        clock_rate = clock_rate;
      }
      else none;
  ssrc = ssrc;
  clock_rate = clock_rate;
  wait_transmission_counter = new_rtp_data_counter;
  nack_count = 0;
  nack_packet_count = 0;
  rtt = 0;
  packets_lost = 0;
  fraction_lost = 0;
}

-- `StorePacket`
unfoldable pub store_packet : RetransmissionBuffer → RtpPacket → Option RetransmissionBuffer
store_packet b p = if ltb mtu_size p.size then some b else insert b p

abbrev pub store_if_nack :
    Option RetransmissionBuffer → RtpPacket → Option (Option RetransmissionBuffer)
store_if_nack none p = some none
store_if_nack (some b) p = store_packet b p >>= λ b'. some (some b')

-- `ReceivePacket`: the new state, and the packets handed to the listener, of which there are none
-- when the packet is refused.
unfoldable pub receive_packet :
    RtpStreamSender → RtpPacket → ℕ → Option (RtpStreamSender × Bool × List RtpPacket)
receive_packet s p now_ms =
    let (stream, accepted) = receive_stream_packet s.stream p now_ms in
    if accepted
    then (store_if_nack s.retransmission_buffer p >>= λ b.
        update_counter s.wait_transmission_counter p now_ms >>= λ c. some (
          record s { stream = stream; retransmission_buffer = b; wait_transmission_counter = c },
          true,
          p ∷ [],
        ))
    else some (record s { stream = stream }, false, [])

-- The item is put back where it was found.
unfoldable pub store_item : Slots → ℕ → Item → Slots
store_item xs seq it = elim (get_oldest xs) [
  | none ↦ xs
  | some oldest ↦ set xs (sub16 seq oldest.sequence_number) (some it)
]

-- The setters on the packet of an item.
abbrev pub put_info : Item → Item
put_info it = record it {
  rtp_packet = record (it.rtp_packet) {
    ssrc = it.ssrc;
    sequence_number = it.sequence_number;
    timestamp = it.timestamp;
  };
}

-- It was sent again no longer ago than a round trip.
unfoldable pub is_recent : ℕ → ℕ → Item → Bool
is_recent now_ms rtt it = not (it.resent_at_ms == 0) && leb (sub64 now_ms it.resent_at_ms) rtt

abbrev pub resent : ℕ → Item → Item
resent now_ms it = record it { resent_at_ms = now_ms; sent_times = (it.sent_times + 1) % 256 }

-- The part of the loop for a requested number. The container is the list of the packets of its
-- items up to the null pointer; a write behind its end is a fault.
unfoldable pub visit : ℕ → ℕ → Slots → ℕ → List RtpPacket → Option (Slots × List RtpPacket)
visit now_ms rtt xs seq container = elim (get xs seq) [
  | none ↦ some (xs, container)
  | some it ↦
      if is_recent now_ms rtt it
      then some (store_item xs seq (put_info it), container)
      else (if ltb (length container) container_size
          then some (
            store_item xs seq (resent now_ms (put_info it)),
            container ++ ((put_info it).rtp_packet ∷ []),
          )
          else none)
]

-- `while (requested || bitmask != 0)` on fuel. After it the null pointer is written behind the items.
unfoldable pub fill_loop :
    ℕ → ℕ → ℕ → Slots → Bool → ℕ → ℕ → List RtpPacket → Option (Slots × List RtpPacket)
fill_loop zero now_ms rtt xs requested bitmask seq container = none
fill_loop (suc fuel) now_ms rtt xs requested bitmask seq container =
    if requested || not (bitmask == 0)
    then ((if requested then visit now_ms rtt xs seq container else some (xs, container)) >>= λ r.
        fill_loop fuel now_ms rtt r.0 (bitmask % 2 == 1) (bitmask / 2) (add16 seq 1) r.1)
    else (if ltb (length container) container_size then some (xs, container) else none)

-- `FillRetransmissionContainer` with a buffer: 18 rounds shift any bitmask out, and test once more.
unfoldable pub fill_retransmission_container :
    ℕ → ℕ → Slots → ℕ → ℕ → Option (Slots × List RtpPacket)
fill_retransmission_container now_ms rtt xs seq bitmask =
    fill_loop 18 now_ms rtt xs true bitmask seq []

-- `rtt_ms rtt` is the float of the round trip time as a `uint16_t`.
abbrev pub rtt_of : (ℕ → ℕ) → RtpStreamSender → ℕ
rtt_of rtt_ms s = if s.rtt == 0 then default_rtt else rtt_ms s.rtt

-- `count_set_bits` is that of the compiler.
module _ (rtt_ms count_set_bits : ℕ → ℕ) where
  -- The loop of `ReceiveNack`: without a buffer the container is empty.
  unfoldable pub receive_items :
      RtpStreamSender → List NackItem → ℕ → Option (RtpStreamSender × List RtpPacket)
  receive_items s [] now_ms = some (s, [])
  receive_items s (item ∷ items) now_ms =
      let counted = record s {
        nack_packet_count = add64 s.nack_packet_count (count_set_bits item.lost_packet_bitmask + 1);
      } in
      elim (s.retransmission_buffer) [
        | none ↦ receive_items counted items now_ms
        | some b ↦
            fill_retransmission_container now_ms (rtt_of rtt_ms s) b.buffer item.packet_id
              item.lost_packet_bitmask
            >>= λ r.
                receive_items
                  (record counted { retransmission_buffer = some (record b { buffer = r.0 }) })
                  items now_ms
                >>= λ (s', packets). some (s', r.1 ++ packets)
      ]

  -- `ReceiveNack`: the packets are sent again in this order.
  unfoldable pub receive_nack :
      RtpStreamSender → List NackItem → ℕ → Option (RtpStreamSender × List RtpPacket)
  receive_nack s items now_ms =
      receive_items (record s { nack_count = add64 s.nack_count 1 }) items now_ms

-- The compact NTP time: the middle 32 bits, of the seconds and the fractions.
abbrev pub compact_ntp : ℕ → ℕ → ℕ
compact_ntp seconds fractions = seconds % 65536 * 65536 + fractions / 65536

-- The compact NTP time of a time in milliseconds, by the NTP fraction of `TimeMs2Ntp`.
abbrev pub compact_at : (ℕ → ℕ) → ℕ → ℕ
compact_at fractions ms = compact_ntp (ms / 1000 % u32_mod) (fractions ms)

-- The round trip time of `ReceiveRtcpReceiverReport`, with wrapped sums.
unfoldable pub round_trip : ℕ → ℕ → ℕ → ℕ
round_trip compact last_sr dlsr =
    if not (last_sr == 0) && (not (dlsr == 0) && ltb (add32 dlsr last_sr) compact)
    then sub32 (sub32 compact dlsr) last_sr
    else 0

-- An `int32_t` as a `uint32_t`.
abbrev pub to_unsigned : ℤ → ℕ
to_unsigned (pos n) = n
to_unsigned (negsuc n) = u32_mod - 1 - n

-- `fractions ms` is the NTP fraction of `TimeMs2Ntp`, computed with a double.
module _ (fractions : ℕ → ℕ) where
  -- `ReceiveRtcpReceiverReport`
  unfoldable pub receive_rtcp_receiver_report :
      RtpStreamSender → ReceiverReport → ℕ → RtpStreamSender
  receive_rtcp_receiver_report s report now_ms = record s {
    rtt =
        round_trip (compact_at fractions now_ms) report.last_sender_report
          report.delay_since_last_sender_report;
    packets_lost = to_unsigned (get_total_lost report.total_lost);
    fraction_lost = report.fraction_lost;
  }

  -- `GetRtcpSenderReport`. Two members that it sets are read nowhere.
  unfoldable pub get_rtcp_sender_report : RtpStreamSender → ℕ → SenderReport
  get_rtcp_sender_report s now_ms = record {
    ssrc = s.ssrc;
    ntp_sec = now_ms / 1000 % u32_mod;
    ntp_frac = fractions now_ms;
    rtp_ts =
        (s.stream.max_packet_ts
          + sub64 now_ms s.stream.max_packet_ms * s.clock_rate % 2 ^ 64 / 1000)
        % u32_mod;
    packet_count = s.wait_transmission_counter.packets % u32_mod;
    octet_count = s.wait_transmission_counter.rate.bytes % u32_mod;
  }
