-- ===== src/Rfb.antt =====
-- rfb.h: the values, structures and byte order of the RFB protocol.
pub mod Wire
pub mod Values
pub mod Pixel
pub mod Messages
pub mod Tight
pub mod RoundTrip
