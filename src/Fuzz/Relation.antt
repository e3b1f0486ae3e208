-- ===== src/Fuzz/Relation.antt =====
-- `RelOp` and `RelTerm` of crates/solinv-fuzz/src/capability.rs, and the kinds of state invariant.
use solinv.Base.{ℕ, Bool, List, Text, codes, ltb, leb, abs_diff}

-- A `usize`, a `u64` and a `u128` are numbers below their moduli.
pub data RelTerm : Type 0 where
  -- `Field { account, field_offset, field_size }`
  field : ℕ → ℕ → ℕ → RelTerm
  const : ℕ → RelTerm

pub data RelOp : Type 0 where
  eq le lt ge gt : RelOp

-- `tolerance` is honoured by `eq` alone.
unfoldable pub holds : RelOp → ℕ → ℕ → ℕ → Bool
holds eq lhs rhs tolerance = leb (abs_diff lhs rhs) tolerance
holds le lhs rhs tolerance = leb lhs rhs
holds lt lhs rhs tolerance = ltb lhs rhs
holds ge lhs rhs tolerance = leb rhs lhs
holds gt lhs rhs tolerance = ltb rhs lhs

unfoldable pub symbol : RelOp → Text
symbol eq = codes "=="
symbol le = codes "<="
symbol lt = codes "<"
symbol ge = codes ">="
symbol gt = codes ">"

pub data MonotonicDir : Type 0 where
  non_decreasing non_increasing : MonotonicDir

unfoldable pub violation_word : MonotonicDir → Text
violation_word non_decreasing = codes "decreased"
violation_word non_increasing = codes "increased"

pub data StateInvariantKind : Type 0 where
  -- `SumConservation { field_offset, field_size, tolerance }`
  sum_conservation : ℕ → ℕ → ℕ → StateInvariantKind
  -- `Monotonic { field_offset, field_size, direction }`
  monotonic : ℕ → ℕ → MonotonicDir → StateInvariantKind
  -- `Bounded { field_offset, field_size, min, max }`
  bounded : ℕ → ℕ → ℕ → ℕ → StateInvariantKind
  -- `Relation { lhs, op, rhs, tolerance }`
  relation : List RelTerm → RelOp → List RelTerm → ℕ → StateInvariantKind

pub record StateInvariant : Type 0 where
  pub name : Text
  pub kind : StateInvariantKind
  pub accounts : List ℕ
