-- ===== src/Transport.antt =====
-- core/src/rtc/rtc_transport.cpp: the streams of a client, and which of them a packet reaches.
pub mod Defs
pub mod Widths
pub mod Reports
pub mod Exchange
pub mod Tables
pub mod Faults
pub mod Send
pub mod Sent
pub mod Sound
pub mod Table
pub mod Reach
pub mod Invariant
pub mod Always
mod Tests
