-- ===== src/Transport/Tests.antt =====
-- Two clients: one that sends the stream 7, and one that receives it.
use bifrost_sdk.Base.{
  ℕ, ◌%◌, ◌*◌, ◌+◌, ◌/◌, ◌≡◌, refl, true, false, Option, some, none, List, [], ◌∷◌, arith, Ensures,
  replicate, length-replicate,
}
use bifrost_sdk.Wire.{get_1_byte, get_2_bytes}
use bifrost_sdk.Stream.{fresh}
use bifrost_sdk.Rate.Counter.{new_rtp_data_counter}
use bifrost_sdk.Receiver.Report.{ReceiverReport}
use bifrost_sdk.Receiver.Defs.{RtpStreamReceiver}
use bifrost_sdk.Sender.Defs.{RtpStreamSender, new_rtp_stream_sender}
use bifrost_sdk.Transport.Defs.{
  is_rtp, is_rtcp, RtcTransport, new_rtc_transport, find_stream, stream_sender, stream_receiver,
  create_rtp_stream, new_rtp_stream_receiver, dispatch, dispatch_rtp, receive_sender_part,
  get_stream_receiver_by_ssrc, receive_rtp_packet,
}
use bifrost_sdk.Transport.Tables.{create_rtp_stream_lem}
use bifrost_sdk.Transport.Send.{on_send_packet}
use bifrost_sdk.Transport.Sent.{datagram_of, packet_of, sent, on_send-dispatch, on_send_packet_over}
use bifrost_sdk.Packet.Parse.{ParsedPacket, parse}
use bifrost_sdk.Packet.RoundTrip.{Carries}
use bifrost_sdk.Packet.Build.{block_size}
use bifrost_sdk.Transport.Reach.{Reachable, start, next, created, dispatched}
use bifrost_sdk.Transport.Invariant.{IsSound}
use bifrost_sdk.Transport.Always.{Reachable-IsSound}
use bifrost_sdk.Packet.Parse as PacketParse
use bifrost_sdk.Packet.Layout.{IsByte}
use bifrost_sdk.Packet.Accessors.{read_u16, fields}
use bifrost_sdk.Stream as StreamDefs
use bifrost_sdk.Stream.{receive_stream_packet, update_sequence, update_timestamp}
use bifrost_sdk.Receiver.Defs as ReceiverDefs
use bifrost_sdk.Receiver.Defs.{receive_nack}
use bifrost_sdk.Nack.Receive as NackReceive
use bifrost_sdk.Rate.{update, remove_old_data, new_item_index, enter}
use bifrost_sdk.Rate.Counter.{update_counter}
use bifrost_sdk.Transport.Faults.{dispatch_unparsed, dispatch_without_receiver}

-- The fraction of a second, cut to a multiple of a millisecond's.
abbrev fractions : ℕ → ℕ
fractions ms = ms % 1000 * 4294967

-- Rounding of a quotient, halves upwards.
abbrev rounded : ℕ → ℕ → ℕ
rounded a b = (2 * a + b) / (2 * b)

-- The first entry of a table.
abbrev begin : List (ℕ × RtpStreamReceiver) → Option (ℕ × RtpStreamReceiver)
begin [] = none
begin (x ∷ xs) = some x

abbrev sender : RtpStreamSender
sender = new_rtp_stream_sender true 7 16000

-- Ten packets are expected, of which seven have come.
abbrev receiver : RtpStreamReceiver
receiver = record (new_rtp_stream_receiver 7) {
  stream = record fresh { started = true; max_seq = 14; base_seq = 5 };
  media_transmission_counter = record new_rtp_data_counter { packets = 7 };
}

abbrev sending : RtcTransport
sending = record new_rtc_transport { senders = (7, sender) ∷ [] }

abbrev receiving : RtcTransport
receiving = record new_rtc_transport {
  receivers = (8, new_rtp_stream_receiver 8) ∷ (7, receiver) ∷ [];
}

abbrev report : ReceiverReport
report = record {
  ssrc = 7;
  total_lost = 3;
  fraction_lost = 77;
  last_seq = 14;
  jitter = 0;
  last_sender_report = 65536;
  delay_since_last_sender_report = 3276;
}

-- A BYE without a source.
dispatch_unparsed_example :
    dispatch begin fractions receiving (128 ∷ 203 ∷ 0 ∷ 0 ∷ []) (λ n. n) 5 ≡ none
unfolding is_rtcp get_1_byte get_2_bytes
dispatch_unparsed_example =
    dispatch_unparsed begin fractions receiving (128 ∷ 203 ∷ 0 ∷ 0 ∷ []) (λ n. n) 5 203 0 refl refl
      refl (omega arith) (omega arith) (omega arith)

-- An RTP packet of the stream 7.
abbrev datagram : List ℕ
datagram = 128 ∷ 100 ∷ 0 ∷ 3 ∷ 0 ∷ 0 ∷ 0 ∷ 9 ∷ 0 ∷ 0 ∷ 0 ∷ 7 ∷ 1 ∷ []

dispatch_without_receiver_example : dispatch begin fractions sending datagram (λ n. n) 5 ≡ none
unfolding is_rtp is_rtcp
dispatch_without_receiver_example =
    dispatch_without_receiver begin fractions sending datagram (λ n. n) 5 refl refl refl refl

create_rtp_stream_lem_example :
    (find_stream 9 (create_rtp_stream receiving 9 stream_receiver true).receivers
      ≡ some (new_rtp_stream_receiver 9))
    × ((create_rtp_stream receiving 9 stream_receiver true).senders ≡ [])
    × (find_stream 9 (create_rtp_stream receiving 9 stream_sender true).senders
        ≡ some (new_rtp_stream_sender true 9 16000))
    × ((create_rtp_stream receiving 9 stream_sender true).receivers ≡ receiving.receivers)
    × (create_rtp_stream receiving 9 stream_receiver false ≡ receiving)
    × (create_rtp_stream receiving 9 stream_sender false ≡ receiving)
unfolding find_stream
create_rtp_stream_lem_example = create_rtp_stream_lem receiving 9 9

-- A block of memory with 9 in every byte.
abbrev block : List ℕ
block = replicate block_size 9

-- Three bytes for the stream 7, as the first packet.
on_send-dispatch_example :
    let sent_datagram = datagram_of 7 0 2100 (1 ∷ 2 ∷ 3 ∷ []) in
    (on_send_packet sending block 7 (1 ∷ 2 ∷ 3 ∷ []) 50 ≡ sent sending sender 7 (1 ∷ 2 ∷ 3 ∷ []) 50)
    × (dispatch begin fractions receiving sent_datagram (λ n. n) 60
        ≡ receive_rtp_packet begin fractions receiving
            (packet_of 7 0 2100 (1 ∷ 2 ∷ 3 ∷ []))
            (λ n. n)
            60)
    × ((q : ParsedPacket) × (parse sent_datagram ≡ some (some q))
        × Carries sent_datagram (1 ∷ 2 ∷ 3 ∷ []) [] q)
unfolding find_stream
on_send-dispatch_example =
    on_send-dispatch begin fractions sending receiving sender 7 block (1 ∷ 2 ∷ 3 ∷ []) (λ n. n) 50
      60 refl (length-replicate {A = ℕ} block_size 9) (omega arith) (omega arith) (omega arith)

on_send_packet_over_example : on_send_packet sending block 7 (replicate 1389 5) 50 ≡ none
unfolding find_stream
on_send_packet_over_example =
    on_send_packet_over sending sender 7 block (replicate 1389 5) 50 refl
      (length-replicate {A = ℕ} block_size 9) (omega (arith, length-replicate {A = ℕ} 1389 5))

begin_in :
    (xs : List (ℕ × RtpStreamReceiver)) → Ensures (begin xs) (λ e. find_stream e.0 xs ≡ some e.1)
unfolding find_stream
begin_in [] = tt
begin_in (x ∷ xs) = ground arith

-- A client with a stream of each type under 7 and 8.
abbrev both : RtcTransport
both =
    create_rtp_stream (create_rtp_stream new_rtc_transport 7 stream_receiver true) 8 stream_sender
      true

-- The number 3 of the stream 7, with one byte of payload.
abbrev media : List ℕ
media = 128 ∷ 100 ∷ 3 ∷ 0 ∷ 9 ∷ 0 ∷ 0 ∷ 0 ∷ 7 ∷ 0 ∷ 0 ∷ 0 ∷ 1 ∷ []

abbrev arrived : RtcTransport
arrived = elim (dispatch begin fractions both media (λ n. n) 5) [ some r ↦ r.0 | none ↦ both ]

abbrev both-Reachable : Reachable begin fractions rounded both
both-Reachable =
    next _ _ (next _ _ start (created new_rtc_transport 7 stream_receiver true (omega arith)))
      (created _ 8 stream_sender true (omega arith))

arrives : dispatch begin fractions both media (λ n. n) 5 ≡ some (arrived, [], [])
unfolding create_rtp_stream dispatch is_rtcp is_rtp dispatch_rtp parse PacketParse.is_rtp
    PacketParse.construct PacketParse.parse_extension PacketParse.parse_payload
    PacketParse.parse_padding PacketParse.read_u32 read_u16 fields receive_rtp_packet
    receive_sender_part get_stream_receiver_by_ssrc find_stream ReceiverDefs.receive_packet
    receive_nack receive_stream_packet StreamDefs.start update_sequence update_timestamp
    NackReceive.receive_packet update_counter update remove_old_data new_item_index enter
arrives = refl

Reachable-IsSound_example : IsSound arrived
Reachable-IsSound_example = Reachable-IsSound begin begin_in fractions rounded arrived (
    next both arrived both-Reachable (
      dispatched both arrived media (λ n. n) 5 [] [] (unfold IsByte in ground arith) (omega arith)
        arrives))
