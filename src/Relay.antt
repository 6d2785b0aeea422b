-- ===== src/Relay.antt =====
-- src/zfgw_outport.h and src/zfgw_outport.cpp: the SOCKS5 end of the gateway.
pub mod Socks
pub mod Session
pub mod Service
pub mod Counts
pub mod Lifecycle
pub mod Stable
pub mod Buffered
pub mod Request
pub mod Chunks
pub mod Tests
