-- ===== src/Recovery.antt =====
-- src/filter_recovery.cpp and src/recovery_usb.cpp: the removal of the filter's registration from an
-- offline Windows, and the USB drive that is paired with an installation.
pub mod Path
pub mod Registry
pub mod Usb
pub mod Copy
pub mod Inspect
pub mod Offline
