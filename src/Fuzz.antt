-- ===== src/Fuzz.antt =====
-- crates/solinv-fuzz: what a fixture declares of its instructions, and the helpers for building it.
pub mod Relation
pub mod Guard
pub mod Capability
pub mod Coverage
pub mod Schema
pub mod Bytepoke
pub mod Differential
pub mod IdlSpec
