-- ===== src/Fuzz/Guard.antt =====
-- The guards of crates/solinv-fuzz/src/capability.rs: preconditions of an instruction.
use solinv.Base.{ℕ, Bool, Text, codes, ltb, leb, nat_eq, not}

pub data GuardOperand : Type 0 where
  -- `Field { account_index, field_offset, field_size }`
  field : ℕ → ℕ → ℕ → GuardOperand
  slot : GuardOperand
  -- `IxData { offset, size }`
  ix_data : ℕ → ℕ → GuardOperand
  const : ℕ → GuardOperand

pub data GuardOp : Type 0 where
  lt le gt ge eq ne : GuardOp

unfoldable pub holds : GuardOp → ℕ → ℕ → Bool
holds lt lhs rhs = ltb lhs rhs
holds le lhs rhs = leb lhs rhs
holds gt lhs rhs = ltb rhs lhs
holds ge lhs rhs = leb rhs lhs
holds eq lhs rhs = nat_eq lhs rhs
holds ne lhs rhs = not (nat_eq lhs rhs)

unfoldable pub symbol : GuardOp → Text
symbol lt = codes "<"
symbol le = codes "<="
symbol gt = codes ">"
symbol ge = codes ">="
symbol eq = codes "=="
symbol ne = codes "!="

pub record GuardCondition : Type 0 where
  pub name : Text
  pub lhs : GuardOperand
  pub op : GuardOp
  pub rhs : GuardOperand
