-- ===== src/TcpBuffer.antt =====
-- core/include/io/tcp_buffer.h: the buffer between the TCP socket and the framing, against a queue
-- of bytes.
pub mod Bytes
pub mod Defs
pub mod Space
pub mod Queue
mod Tests
