-- ===== src/Static/Change.antt =====
-- `Severity` and `Change` of crates/solinv-static/src/diff.rs, which both comparisons report.
use solinv.Base.{Text, ℕ}

-- A check of the base version is gone, or new code has the shape of a missing check.
pub data Severity : Type 0 where
  regression warning : Severity

-- The place in the head version is empty and 0 for a change read from an IDL.
pub record Change : Type 0 where
  pub severity : Severity
  pub ix : Text
  pub path : Text
  pub message : Text
  pub file : Text
  pub line : ℕ
