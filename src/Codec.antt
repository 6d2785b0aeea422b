-- ===== src/Codec.antt =====
-- src/zfgw_pack.cpp: the serialisation of the messages of src/zfgw_proto.h.
pub mod Zds
pub mod Fields
pub mod Presence
pub mod RoundTrip
pub mod Newer
pub mod Messages
pub mod Configs
pub mod Status
pub mod Requests
pub mod Control
pub mod Sample
pub mod Tests
pub mod Stored
