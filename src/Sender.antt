-- ===== src/Sender.antt =====
-- core/src/rtc/rtp_stream_sender.cpp: a stream that is sent, and what it sends again on request.
pub mod Defs
pub mod Resend
pub mod Requested
pub mod Fill
pub mod Repair
pub mod Rtt
mod Tests
