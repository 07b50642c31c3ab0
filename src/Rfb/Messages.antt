-- ===== src/Rfb/Messages.antt =====
-- The packed structures of rfb.h, each with its size, byte order functions and memory.
pub mod Client
pub mod Server
pub mod Vencrypt
