-- ===== src/Touch.antt =====
-- src/core.cpp: `touchAnyKey` and `touchSecret`, and `unlockAccount` of src/profile.cpp.
pub mod Device
pub mod Seek
pub mod Sign
pub mod Unlock
pub mod Proven
pub mod Stops
pub mod Account
