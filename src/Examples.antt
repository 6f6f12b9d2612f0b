-- ===== src/Examples.antt =====
-- Tests on concrete inputs, and the theorems at inputs that meet their hypotheses.
pub mod Sample
mod Validations
mod Matchings
mod Https
mod Runs
mod Contended
mod Crons
mod Engines
mod Logs
mod Store
mod Metered
mod Tracked
mod Systems
mod Mains
