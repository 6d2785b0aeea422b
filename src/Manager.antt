-- ===== src/Manager.antt =====
-- src/zfgw_channel_manager.h and src/zfgw_channel_manager.cpp: ChannelManager.
pub mod State
pub mod Channels
pub mod Traffic
pub mod Events
pub mod Table
pub mod Steps
pub mod Order
pub mod Streams
pub mod Invariant
pub mod Changes
pub mod Heartbeat
pub mod Stopping
pub mod Registry
pub mod Refines
pub mod Greeting
pub mod Tests
