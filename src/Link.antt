-- ===== src/Link.antt =====
-- The link layer: src/zfgw_channel.h and src/zfgw_channel.cpp, and the pool and selector of
-- src/zfgw_channel_manager.h and src/zfgw_channel_manager.cpp.
pub mod Socket
pub mod OneSocket
pub mod Handlers
pub mod Utp
pub mod SocketTests
pub mod Fpu
pub mod Channel
pub mod Selector
pub mod Pool
pub mod Choice
pub mod Liveness
pub mod Tests
