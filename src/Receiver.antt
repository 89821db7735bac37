-- ===== src/Receiver.antt =====
-- core/src/rtc/rtp_stream_receiver.cpp: the receiver around a stream, and the report that it sends.
pub mod Report
pub mod Defs
pub mod Loss
mod Tests
