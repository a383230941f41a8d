-- ===== src/Bridge.antt =====
-- src/pin_bridge_vm.cpp: the provider of the test machine, which asks for a PIN and gives it to the
-- bridge of src/windows_pin.cpp.
pub mod Tile
pub mod Fields
pub mod Users
pub mod Single
pub mod Digits
pub mod Bridged
