-- ===== src/Mutate.antt =====
-- crates/solinv-mutate: mutants of a program's source, and the scoring of a campaign over them.
pub mod Score
pub mod Campaign
pub mod Mutant
