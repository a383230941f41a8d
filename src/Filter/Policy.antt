-- ===== src/Filter/Policy.antt =====
-- What the filters do, as a whole.
pub mod Counts
pub mod Restricts
pub mod Forces
pub mod Machine
