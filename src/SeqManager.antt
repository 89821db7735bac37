-- ===== src/SeqManager.antt =====
-- core/src/rtc/seq_manager.cpp, the class: it maps the sequence numbers of a stream, some of which
-- are dropped, to numbers without gaps.
pub mod Defs
pub mod Behind
pub mod Drops
mod Tests
