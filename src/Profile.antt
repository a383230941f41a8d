-- ===== src/Profile.antt =====
-- src/profile.cpp: the account profile, its binary encoding, its parser and its store.
pub mod Wide
pub mod Wire
pub mod Sid
pub mod Keys
pub mod Codec
pub mod Files
pub mod Trusted
pub mod Store
