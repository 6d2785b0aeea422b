-- ===== src/Transit.antt =====
-- src/zfgw_transit.h and src/zfgw_transit.cpp: TransitService, which forwards frames between links.
pub mod State
pub mod Forward
pub mod Dial
pub mod Routes
pub mod Routed
pub mod Serving
pub mod Steps
pub mod Tests
