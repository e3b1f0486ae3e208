-- ===== src/Tests.antt =====
-- Concrete inputs at which the theorems apply.
pub mod World
pub mod Core
pub mod Detectors
pub mod Static
pub mod Trace
pub mod SourceDiff
pub mod Differential
pub mod Mutate
pub mod Fuzz
pub mod IdlSpec
pub mod Disclose
