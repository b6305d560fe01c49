-- ===== src/Tests.antt =====
-- Runs of the definitions at the inputs of the program's own tests, and the properties at inputs
-- that meet their hypotheses.
pub mod Numbers
pub mod Paths
pub mod Documents
pub mod Patches
pub mod Views
pub mod Notes
pub mod Shapes
pub mod Prefixes
pub mod Apis
pub mod Stores
pub mod Writes
pub mod Scans
