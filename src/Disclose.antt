-- ===== src/Disclose.antt =====
-- crates/solinv-disclose: the records by which a finding leaves the fuzzer.
pub mod Base64
pub mod Divergence
pub mod Inputs
pub mod Repro
