-- ===== src/Core/PdaForge.antt =====
-- crates/solinv-core/src/invariants/pda_forge.rs: a derived account replaced by a copy at a random key.
use solinv.Base.{
  nat_eq, if◌then◌else◌, length, get_elem?, contains, Bytes, ℕ, ◌+◌, false, not, Option, none, some,
  List, [], ◌∷◌, ℕ_eq, list_eq, option_eq,
}
use solinv.Solana.{Pubkey, Account}
use solinv.Fuzz.Capability.{InstructionSpec}
use solinv.Core.Runtime.{Runtime}
use solinv.Core.Process.{pda_forge, Process}
use solinv.Core.Substitute.{run_substitution}

unfoldable pub fake_account : Account → Account
fake_account real = record real { executable = false }

module _ (rt : Runtime) where
  open rt use {Ctx, find_program_address}

  unfoldable pub run_attempt : Pubkey → InstructionSpec → ℕ → List Bytes → Process Ctx → Process Ctx
  unfolding fake_account run_substitution
  run_attempt payer spec idx seeds p =
      let expected_pda = (find_program_address seeds spec.program_id).0 in
      elim (get_elem? spec.accounts idx) [
        | none ↦ p
        | some m ↦
            if not (nat_eq m.pubkey expected_pda)
            then p
            else run_substitution rt payer spec idx (λ real. some (fake_account real))
                (λ fake. pda_forge spec.program_id spec.name idx fake expected_pda (length seeds))
                m.pubkey p
      ]

  unfoldable pub run_slots :
      Pubkey → InstructionSpec → ℕ → List (Option (List Bytes)) → Process Ctx → Process Ctx
  unfolding run_attempt
  run_slots payer spec idx [] p = p
  run_slots payer spec idx (none ∷ rest) p = run_slots payer spec (idx + 1) rest p
  run_slots payer spec idx (some seeds ∷ rest) p =
      run_slots payer spec (idx + 1) rest
        (if contains spec.creates_indices idx then p else run_attempt payer spec idx seeds p)

  unfoldable pub check : Pubkey → List InstructionSpec → Process Ctx → Process Ctx
  unfolding run_slots
  check payer [] p = p
  check payer (spec ∷ ixs) p = check payer ixs (run_slots payer spec 0 spec.expected_pda_seeds p)
