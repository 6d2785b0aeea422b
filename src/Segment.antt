-- ===== src/Segment.antt =====
-- src/zfgw_segment.h and src/zfgw_segment.cpp: the framing of segments on a link.
pub mod Header
pub mod Crc
pub mod Encode
pub mod Decode
pub mod Flags
pub mod Layout
pub mod RoundTrip
pub mod Prefix
pub mod Received
pub mod Tests
