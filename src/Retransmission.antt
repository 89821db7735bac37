-- ===== src/Retransmission.antt =====
-- core/src/rtc/rtp_retransmission_buffer.cpp: the packets that a sender keeps for retransmission,
-- addressed by sequence number. The deque of pointers is a list of options, the null pointer (a
-- blank slot) is `none`. An operation that could fault returns an option, and `none` is the fault:
-- a null pointer read, `at` or `[]` out of range, or the division by a clock rate of 0.
pub mod Defs
pub mod Store
pub mod Slots
pub mod Build
pub mod Clear
pub mod Lookup
pub mod Newer
pub mod Between
pub mod Insert
pub mod Found
pub mod Bounds
mod Tests
