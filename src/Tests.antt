-- ===== src/Tests.antt =====
-- Concrete inputs: each theorem with conditions is applied where they hold.
mod Codecs
mod Filters
mod Proofs
mod Tiles
mod Touches
mod Stores
mod Registries
mod Recoveries
mod Repairs
mod Signins
mod Enrollments
mod Screens
mod Bridges
mod Modules
mod Wholes
