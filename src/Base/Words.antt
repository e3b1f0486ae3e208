-- ===== src/Base/Words.antt =====
-- Machine integers as native numbers: the moduli of u64 and u128, and the operations that test them.
use Prim.Native.Nat.{ℕ, ◌+◌, ◌-◌, ◌^◌, ◌≤◌}
use mathlib.Core.Logic.{◌↔◌}
use mathlib.Core.Option.{Option, none, some}
use native.Mathlib.Omega.{arith}
use solinv.Base.Tests.{ltb, if◌then◌else◌}

abbrev pub u64_mod : ℕ
u64_mod = 2 ^ 64

abbrev pub u128_mod : ℕ
u128_mod = 2 ^ 128

-- `u128::checked_add` and, at 64 bits, `usize::checked_add`.
abbrev pub checked_add : ℕ → ℕ → ℕ → Option ℕ
checked_add modulus a b = if ltb (a + b) modulus then some (a + b) else none

-- `abs_diff` does not overflow.
abbrev pub abs_diff : ℕ → ℕ → ℕ
abs_diff a b = if ltb a b then b - a else a - b

pub abs_diff-le_iff : (a b t : ℕ) → (abs_diff a b ≤ t) ↔ ((a ≤ b + t) × (b ≤ a + t))
abs_diff-le_iff a b t = ground arith
