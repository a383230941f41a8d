-- ===== src/Provider.antt =====
-- The credential provider: src/provider.cpp.
pub mod Credential
pub mod Serialize
pub mod Protocol
pub mod Operations
pub mod Refinement
pub mod Safety
pub mod Cancel
pub mod Produced
pub mod Discarded
pub mod Enumerate
pub mod Fields
