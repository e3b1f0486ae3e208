-- ===== src/Core/PreconditionSkip.antt =====
-- crates/solinv-core/src/invariants/precondition_skip.rs: guards checked against the state before the
-- send.
pub mod Reports
use solinv.Base.{◌>>=◌, if◌then◌else◌, get_elem?, Bytes, ℕ, Option, none, some, List, [], ◌∷◌, map}
use solinv.Solana.{Pubkey}
use solinv.Fuzz.Guard
use solinv.Fuzz.Guard.{GuardOperand, GuardCondition}
use solinv.Fuzz.Capability.{InstructionSpec}
use solinv.Core.Runtime.{Runtime}
use solinv.Core.Harness.{read_field_widened, is_success, save_accounts}
use solinv.Core.Process.{
  send_canonical, precondition_skip, Process, fuzz_assert, account_keys, restore, record_ix_reached,
}

unfoldable pub operand_value : GuardOperand → List (Option Bytes) → Bytes → ℕ → Option ℕ
operand_value (GuardOperand.const v) account_data ix_data slot = some v
operand_value GuardOperand.slot account_data ix_data slot = some slot
operand_value (GuardOperand.ix_data offset size) account_data ix_data slot =
    read_field_widened ix_data offset size
operand_value (GuardOperand.field account_index offset size) account_data ix_data slot = do
  entry ← get_elem? account_data account_index
  contents ← entry
  read_field_widened contents offset size

-- Both operands, where both can be read.
unfoldable pub operand_values : GuardCondition → List (Option Bytes) → Bytes → ℕ → Option (ℕ × ℕ)
unfolding operand_value
operand_values guard pre_data ix_data slot = do
  lhs ← operand_value guard.lhs pre_data ix_data slot
  rhs ← operand_value guard.rhs pre_data ix_data slot
  some (lhs, rhs)

module _ (rt : Runtime) where
  open rt use {Ctx, get_account, slot}

  unfoldable pub report_if_violated :
      InstructionSpec → List (Option Bytes) → Bytes → ℕ → GuardCondition → Process Ctx → Process Ctx
  unfolding operand_values fuzz_assert
  report_if_violated spec pre_data ix_data pre_slot guard p =
      elim (operand_values guard pre_data ix_data pre_slot) [
        | none ↦ p
        | some (lhs, rhs) ↦
            fuzz_assert (Guard.holds guard.op lhs rhs)
              (precondition_skip spec.program_id spec.name guard.name lhs guard.op rhs) p
      ]

  unfoldable pub report_all :
      InstructionSpec
      → List (Option Bytes)
      → Bytes
      → ℕ
      → List GuardCondition
      → Process Ctx
      → Process Ctx
  unfolding report_if_violated
  report_all spec pre_data ix_data pre_slot [] p = p
  report_all spec pre_data ix_data pre_slot (guard ∷ guards) p =
      report_all spec pre_data ix_data pre_slot guards
        (report_if_violated spec pre_data ix_data pre_slot guard p)

  abbrev pub account_data : Ctx → InstructionSpec → List (Option Bytes)
  account_data ctx spec =
      map (λ m. elim (get_account ctx m.pubkey) [ none ↦ none | some a ↦ some a.contents ])
        spec.accounts

  unfoldable pub run_attempt : Pubkey → InstructionSpec → Process Ctx → Process Ctx
  unfolding restore send_canonical report_all record_ix_reached
  run_attempt payer spec p =
      let saves = save_accounts rt p.ctx (account_keys spec) in
      let (result, sent) = send_canonical rt payer spec p in
      restore rt saves (
        if is_success result
        then report_all spec (account_data p.ctx spec) spec.data_sample (slot p.ctx) spec.guards
            (record_ix_reached rt spec sent)
        else sent)

  unfoldable pub check : Pubkey → List InstructionSpec → Process Ctx → Process Ctx
  unfolding run_attempt
  check payer [] p = p
  check payer (spec ∷ ixs) p =
      check payer ixs (elim spec.guards [ [] ↦ p | g ∷ gs ↦ run_attempt payer spec p ])
