-- ===== src/Core/CuDos.antt =====
-- crates/solinv-core/src/invariants/cu_dos.rs: a cap on the compute units of an instruction.
use solinv.Base.{ltb, leb, if◌then◌else◌, ℕ, ◌≡◌, Option, none, some, List, [], ◌∷◌, arith}
use solinv.Solana.{Pubkey, TxOutcome, success, program_error}
use solinv.Fuzz.Capability.{InstructionSpec}
use solinv.Fuzz.Coverage.{unobserved, fingerprint_key}
use solinv.Core.Runtime.{Runtime}
use solinv.Core.Harness.{save_accounts}
use solinv.Core.Process.{
  cu_dos, Process, fuzz_assert, record_transition_fingerprint, account_keys, canonical_send,
  restore, record_ix_reached, send_canonical,
}

module _ (rt : Runtime) where
  open rt use {Ctx, show_key}

  unfoldable pub judge : InstructionSpec → ℕ → Option TxOutcome → Process Ctx → Process Ctx
  unfolding record_ix_reached record_transition_fingerprint fuzz_assert
  judge spec budget (some (success logs compute_units)) p =
      fuzz_assert (leb compute_units budget) (cu_dos spec.program_id spec.name compute_units budget)
        (record_transition_fingerprint (fingerprint_key show_key spec unobserved)
          (record_ix_reached rt spec p))
  judge spec budget (some (program_error logs error code)) p = p
  judge spec budget none p = p

  unfoldable pub run_attempt : Pubkey → InstructionSpec → ℕ → Process Ctx → Process Ctx
  unfolding restore send_canonical judge
  run_attempt payer spec budget p =
      let saves = save_accounts rt p.ctx (account_keys spec) in
      let (result, sent) = send_canonical rt payer spec p in
      restore rt saves (judge spec budget result sent)

  unfoldable pub check : Pubkey → List InstructionSpec → Process Ctx → Process Ctx
  unfolding run_attempt
  check payer [] p = p
  check payer (spec ∷ ixs) p =
      check payer ixs
        (elim spec.cu_budget [ none ↦ p | some budget ↦ run_attempt payer spec budget p ])

  -- The units that an accepted send took.
  abbrev pub units_of : Option TxOutcome → Option ℕ
  units_of (some (success logs units)) = some units
  units_of (some (program_error logs error code)) = none
  units_of none = none

  module _ (payer : Pubkey) (spec : InstructionSpec) (budget : ℕ) (p : Process Ctx) where
    -- An attempt adds at most one violation: the one with the units used, exactly when the send was
    -- accepted and used more than the budget.
    pub cu_dos-reports :
        (run_attempt payer spec budget p).violations
        ≡ (elim (units_of (canonical_send rt payer spec p.ctx).0) [
          | none ↦ p.violations
          | some units ↦
              if ltb budget units
              then cu_dos spec.program_id spec.name units budget ∷ p.violations
              else p.violations
        ])
    unfolding run_attempt
    cu_dos-reports = ground arith
