-- ===== src/Stream.antt =====
-- src/zfgw_datastream.h and src/zfgw_datastream.cpp: DataStream.
pub mod State
pub mod Send
pub mod Tunnel
pub mod Deliver
pub mod Arbiter
pub mod Receive
pub mod Tests
