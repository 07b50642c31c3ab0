-- ===== src/Stream.antt =====
-- Stream.h and Stream.cpp: a stream as the bytes that are still to come and those that were sent.
pub mod Channel
pub mod Forward
pub mod FdStream
pub mod TlsStream
