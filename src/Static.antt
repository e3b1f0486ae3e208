-- ===== src/Static.antt =====
-- crates/solinv-static: the reading of Anchor IDLs and the comparison of two versions of one.
pub mod Idl
pub mod Change
pub mod Source
pub mod Renames
pub mod IdlDiff
pub mod SourceDiff
