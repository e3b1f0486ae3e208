-- ===== src/Core.antt =====
-- crates/solinv-core: the detectors and the harness they run on.
pub mod Runtime
pub mod Harness
pub mod Process
pub mod Recorded
pub mod UncheckedMath
pub mod CuDos
pub mod PreconditionSkip
pub mod ReallocRace
pub mod SignerSkip
pub mod Substitute
pub mod OwnerSkip
pub mod DiscriminatorSkip
pub mod PdaForge
pub mod AccountSwap
pub mod CpiReentrancy
pub mod BumpSeed
pub mod Trace
