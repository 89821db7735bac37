-- ===== src/Nack.antt =====
-- core/src/rtc/nack_generator.cpp: which lost packets a receiver asks for again, and when.
pub mod Defs
pub mod Receive
pub mod Limits
pub mod Requests
pub mod Drain
mod Tests
