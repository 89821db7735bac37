-- ===== src/Rtcp.antt =====
-- core/src/rtc/rtcp: the RTCP packets, read from bytes and written to them.
pub mod Defs
pub mod Parse
pub mod Serialize
pub mod Safety
pub mod Reports
pub mod Packets
pub mod RoundTrip
pub mod Compound
pub mod Limit
mod Tests
