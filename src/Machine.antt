-- ===== src/Machine.antt =====
-- src/zfgw_vm.h, src/zfgw_vm.cpp and src/zfgw_inc.h: ZfgwMachine.
pub mod State
pub mod Bringup
pub mod Rpc
pub mod Shape
pub mod Answers
pub mod Requests
pub mod Configured
pub mod Tests
