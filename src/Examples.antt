-- ===== src/Examples.antt =====
-- Runs of the definitions at concrete inputs, and the theorems at inputs where their hypotheses hold.
mod Samples
mod Secrets
mod Distance
mod Linked
pub mod Events
pub mod Caches
pub mod Owners
pub mod Problems
pub mod Tunnels
pub mod Settings
pub mod Correlate
pub mod Brief
pub mod Rca
pub mod Families
