-- ===== src/Lib.antt =====
-- Bifrost SDK: the RTP core of the repository (core/src/rtc, core/include/rtc), which keeps the state of
-- the RTP streams that a client sends and receives.
--
-- The parts and the files that model them:
--   Seq                 core/src/rtc/seq_manager.cpp: the cyclic order on sequence numbers (SeqLowerThan,
--                       SeqHigherThan) that all the other parts compare with.
--   SeqManager          the class of that file: Sync, Drop, Input and ClearDropped.
--   Packet              core/src/rtc/rtp_packet.cpp, core/include/rtc/rtp_packet.h: the header fields that
--                       the streams read; Parse has IsRtp, Parse and the constructor from bytes,
--                       Accessors the getters, Build the constructor of an outgoing packet and its setters; the
--                       other files prove where the parts lie.
--   Stream              core/src/rtc/rtp_stream.cpp: ReceiveStreamPacket with UpdateSequence, which counts
--                       the wraps of the 16-bit number and rejects jumps; GetExpectedPackets of
--                       core/include/rtc/rtp_stream_receiver.h.
--   Retransmission      core/src/rtc/rtp_retransmission_buffer.cpp: the packets that a sender keeps, by
--                       sequence number. Defs has the lookups and removals, Store has Insert in its
--                       numbered parts; the other files prove.
--   OrderedSet          std::set and std::map as the program uses them: lists in the order of the
--                       comparison that the program gives.
--   Nack                core/src/rtc/nack_generator.cpp: which lost packets a receiver asks for. Defs has
--                       the lists, Receive has ReceivePacket, GetNackBatch and the timer;
--                       Drain follows the rounds of the timer over time.
--   Receiver            core/src/rtc/rtp_stream_receiver.cpp: a stream, its NACK generator and the counters
--                       of the report (Defs), with the report of core/include/rtc/rtcp/receiver_report_packet.h
--                       (Report); Loss proves the numbers of the report. std::round is a parameter.
--   PacketQueue         core/include/rtc/callback_queue_thread.h: the queue that puts received packets back in order
--                       for the player. Numbers has the number that a packet gets, Deliver the order of
--                       what comes out, Complete that nothing is lost, Stall what stops it.
--   Sender              core/src/rtc/rtp_stream_sender.cpp: a stream with its retransmission buffer, the
--                       answer to NACKs and the round trip time (Defs). Requested describes the answer
--                       without the loop, Fill proves that the loop gives it, Repair and Rtt follow a
--                       packet and a report through it.
--   Rate                core/src/rtc/data_calculator.cpp: the bytes that a stream has had in the last milliseconds,
--                       in a ring of items. Window has the queue of items that the ring stands for, Refine
--                       proves that Update is an update of the queue, Counter is RtpDataCounter. The float of
--                       the rate is a parameter.
--   Wire                core/include/utils/utils.h: numbers in network order within bytes.
--   Rtcp                core/src/rtc/rtcp: the sender reports, receiver reports and NACKs as bytes (Parse,
--                       Serialize) and the compound packet with its limit (Compound). A packet is the
--                       record of what its getters give; a shared pointer to a report in a compound has a
--                       number that identifies it.
--   Heartbeat           core/src/rtc/rtcp/heart_beat_packet.cpp: the heartbeat packet and its bytes.
--   Transport           core/src/rtc/rtc_transport.cpp: the tables of the streams of a client and the dispatch of
--                       a datagram to them (Defs). Tables reads them as maps, Reports and Exchange follow the
--                       reports of one client to the other, Faults has datagrams that it does not stand.
--                       Send has OnSendPacket and SendRtcpPacket, Sent follows a payload from one client to another,
--                       Reach has the calls of a client as steps, and Invariant and Always what they keep.
--                       What begin() of a table points at is a parameter.
--   TcpBuffer           core/include/io/tcp_buffer.h: the buffer of a TCP connection. Defs has the class,
--                       its assertions as faults; Space and Queue prove it a queue of bytes.
--   Base                names, tests, lists, words and faults that all share.
--
-- How the code is read. A class is a record, a method is a function from the record to the new record
-- with its result. Unsigned integers are natural numbers with their wrap written out (% 2 ^ w). Code
-- that may fault (a null pointer read, an index out of range, a division by 0) returns an option whose
-- none is the fault; `Returns` says that a run does not fault and what holds of its result. Readings of
-- the clock are arguments, calls of a listener are values. For the streams a packet is the record of its
-- header fields; in Packet.Parse it is its bytes, with offsets for pointers.
--
-- Fuel. The loop of ClearTooOldByTimestamp takes the number of slots plus one: each round removes a slot.
-- The loop of AddPacketsToNackList takes the length of the NACK list plus one: each round but the last
-- removes an entry. The loops of RtcpPacket::Parse and over the NACK items take the number of bytes: each
-- round takes four at least. FillRetransmissionContainer takes 18 rounds: its own number, 16 bits, and the
-- test that ends it. RemoveOldData takes the number of items of the ring plus one. Running out of fuel counts as a fault, and is shown not to happen.
--
-- Bounds. std::set and std::map with the comparison of sequence numbers behave as the lists of OrderedSet
-- where the comparison orders the elements, that is within half of the cycle. The theorems on the
-- retransmission buffer hold up to 2^15 slots. A vector of the TCP buffer stays below 2^63 bytes, a packet
-- below 2^32.
--
-- Not modelled: of the transport the websocket frames, the thread
-- that takes packets out of the queue, and everything that is I/O (threads, timers, sockets) or a copy of another project (deps).
pub mod Base
pub mod Seq
pub mod Packet
pub mod Stream
pub mod Retransmission
pub mod OrderedSet
pub mod Nack
pub mod SeqManager
pub mod Receiver
pub mod Wire
pub mod Rtcp
pub mod Sender
pub mod TcpBuffer
pub mod Transport
pub mod Heartbeat
pub mod Rate
pub mod PacketQueue
