-- ===== src/Core/PreconditionSkip/Reports.antt =====
-- When precondition_skip.rs reports: an accepted send with a guard that was false before it.
use solinv.Base.{
  Option-cases, All, Bytes, ℕ, ◌≤◌, ◌<◌, ◌≡◌, ◌≢◌, ◌↔◌, inl, inr, true, false, Option, none, some,
  List, [], ◌∷◌, arith,
}
use solinv.Solana.{Pubkey}
use solinv.Fuzz.Guard
use solinv.Fuzz.Guard.{GuardOp, lt, le, gt, ge, eq, ne, GuardCondition}
use solinv.Fuzz.Capability.{InstructionSpec}
use solinv.Core.Runtime.{Runtime}
use solinv.Core.Process.{
  precondition_skip, Process, fuzz_assert, canonical_send, record_ix_reached, send_canonical,
}
use solinv.Core.Harness.{is_success}
use solinv.Core.Process.Reports.{
  Judges, Judges-skip, Judges-then, Judges-silent_iff, Judges-iff, fuzz_assert-Judges,
}
use solinv.Core.PreconditionSkip.{
  operand_values, report_if_violated, report_all, account_data, run_attempt,
}

-- The comparison that a guard states.
abbrev pub Meets : GuardOp → ℕ → ℕ → Type 0
Meets lt lhs rhs = lhs < rhs
Meets le lhs rhs = lhs ≤ rhs
Meets gt lhs rhs = rhs < lhs
Meets ge lhs rhs = rhs ≤ lhs
Meets eq lhs rhs = lhs ≡ rhs
Meets ne lhs rhs = lhs ≢ rhs

holds_iff : (op : GuardOp) (lhs rhs : ℕ) → (Guard.holds op lhs rhs ≡ true) ↔ Meets op lhs rhs
unfolding Guard.holds
holds_iff lt lhs rhs = ground arith
holds_iff le lhs rhs = ground arith
holds_iff gt lhs rhs = ground arith
holds_iff ge lhs rhs = ground arith
holds_iff eq lhs rhs = ground arith
holds_iff ne lhs rhs = ground arith

-- A guard is met if its operands compare as it states, or if one of them cannot be read.
abbrev MetBy : GuardOp → Option (ℕ × ℕ) → Type 0
MetBy op none = Unit
MetBy op (some (lhs, rhs)) = Meets op lhs rhs

abbrev pub IsMet : List (Option Bytes) → Bytes → ℕ → GuardCondition → Type 0
IsMet pre_data ix_data slot guard = MetBy guard.op (operand_values guard pre_data ix_data slot)

module _ (rt : Runtime) where
  open rt use {Ctx, slot}

  module _ (spec : InstructionSpec) (pre_data : List (Option Bytes)) (ix_data : Bytes)
      (at_slot : ℕ) where
    report_if_violated-Judges :
        (guard : GuardCondition) (p : Process Ctx)
        → Judges
            (IsMet pre_data ix_data at_slot guard)
            p
            (report_if_violated rt spec pre_data ix_data at_slot guard p)
    unfolding report_if_violated
    report_if_violated-Judges guard p =
        elim (Option-cases (operand_values guard pre_data ix_data at_slot)) [
          | inl e ↦ rw (e, report_if_violated) (Judges-skip p)
          | inr ((lhs, rhs), e) ↦
              let held = Guard.holds guard.op lhs rhs in
              let v = precondition_skip spec.program_id spec.name guard.name lhs guard.op rhs in
              rw (e, report_if_violated)
                (Judges-iff p (fuzz_assert held v p) (holds_iff guard.op lhs rhs)
                  (fuzz_assert-Judges held v p))
        ]

    report_all-Judges :
        (guards : List GuardCondition) (p : Process Ctx)
        → Judges
            (All (IsMet pre_data ix_data at_slot) guards)
            p
            (report_all rt spec pre_data ix_data at_slot guards p)
    unfolding report_all
    report_all-Judges [] p = Judges-skip p
    report_all-Judges (guard ∷ guards) p =
        let q = report_if_violated rt spec pre_data ix_data at_slot guard p in
        Judges-then p q (report_all rt spec pre_data ix_data at_slot guards q)
          (report_if_violated-Judges guard p) (report_all-Judges guards q)

  module _ (payer : Pubkey) (spec : InstructionSpec) (p : Process Ctx) where
    abbrev marked : Process Ctx
    marked = record_ix_reached rt spec (send_canonical rt payer spec p).1

    abbrev judged : Process Ctx
    judged =
        report_all rt spec (account_data rt p.ctx spec) spec.data_sample (slot p.ctx) spec.guards
          marked

    run_attempt-accepted :
        is_success (canonical_send rt payer spec p.ctx).0 ≡ true
        → (run_attempt rt payer spec p).violations ≡ judged.violations
    unfolding run_attempt
    run_attempt-accepted h = ground arith

    -- After an accepted send the attempt has added no violation exactly if every declared guard was
    -- met before the send; where an operand cannot be read, a guard counts as met.
    pub precondition_skip-reports :
        is_success (canonical_send rt payer spec p.ctx).0 ≡ true
        → ((run_attempt rt payer spec p).violations ≡ p.violations)
          ↔ All (IsMet (account_data rt p.ctx spec) spec.data_sample (slot p.ctx)) spec.guards
    unfolding send_canonical record_ix_reached
    precondition_skip-reports accepted = rw (run_attempt-accepted accepted) (
        Judges-silent_iff marked judged (
          report_all-Judges spec (account_data rt p.ctx spec) spec.data_sample (slot p.ctx)
            spec.guards marked))

    -- A send that is not accepted adds no violation, whatever the guards say.
    pub precondition_skip-rejected :
        is_success (canonical_send rt payer spec p.ctx).0 ≡ false
        → (run_attempt rt payer spec p).violations ≡ p.violations
    unfolding run_attempt
    precondition_skip-rejected h = ground arith
