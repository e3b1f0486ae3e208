-- ===== src/Static/SourceDiff.antt =====
-- crates/solinv-static/src/diff.rs: the account checks that a change of the source removes.
pub mod Checks
pub mod Keys
pub mod Restated
pub mod Gates
pub mod Instead
pub mod Messages
pub mod Slots
pub mod Constraints
pub mod Renamed
pub mod Whole
pub mod Render
