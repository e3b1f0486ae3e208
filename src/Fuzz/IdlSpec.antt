-- ===== src/Fuzz/IdlSpec.antt =====
-- crates/solinv-fuzz/src/idl.rs: the specification of an instruction, built from a program's IDL.
pub mod Slots
pub mod Build
pub mod Infer
pub mod Candidates
pub mod Log
