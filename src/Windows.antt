-- ===== src/Windows.antt =====
-- What a sign-in asks of Windows: src/windows_auth.cpp and src/windows_pin.cpp, and the identity of a
-- token in src/profile.cpp.
pub mod Token
pub mod Auth
pub mod Pin
