-- ===== src/Core/OwnerSkip.antt =====
-- crates/solinv-core/src/invariants/owner_skip.rs: an account replaced by a copy that another program
-- owns.
use solinv.Base.{nat_eq, get_elem?, filter, ℕ, ◌+◌, false, not, Option, none, some, List, [], ◌∷◌}
use solinv.Solana.{Pubkey, Account}
use solinv.Fuzz.Capability.{InstructionSpec}
use solinv.Core.Runtime.{Runtime}
use solinv.Core.Process.{owner_skip, Process, with_ctx}
use solinv.Core.Substitute.{run_substitution}

abbrev pub system_program_id : Pubkey
system_program_id = 0

-- `unique` is the key that `Pubkey::new_unique()` gave.
unfoldable pub wrong_owners_for : Pubkey → Pubkey → List Pubkey
wrong_owners_for expected unique =
    filter (λ p. not (nat_eq p expected)) (system_program_id ∷ unique ∷ [])

unfoldable pub fake_account : Pubkey → Account → Account
fake_account wrong_owner real = record real { owner = wrong_owner; executable = false }

module _ (rt : Runtime) where
  open rt use {Ctx, new_unique}

  unfoldable pub run_swap_attempt :
      Pubkey → InstructionSpec → ℕ → Pubkey → Pubkey → Process Ctx → Process Ctx
  unfolding fake_account run_substitution
  run_swap_attempt payer spec idx expected_owner wrong_owner p =
      elim (get_elem? spec.accounts idx) [
        | none ↦ p
        | some m ↦
            run_substitution rt payer spec idx (λ real. some (fake_account wrong_owner real))
              (λ fake.
                owner_skip spec.program_id spec.name idx wrong_owner expected_owner m.pubkey fake)
              m.pubkey p
      ]

  unfoldable pub run_owners :
      Pubkey → InstructionSpec → ℕ → Pubkey → List Pubkey → Process Ctx → Process Ctx
  unfolding run_swap_attempt
  run_owners payer spec idx expected [] p = p
  run_owners payer spec idx expected (wrong ∷ rest) p =
      run_owners payer spec idx expected rest (run_swap_attempt payer spec idx expected wrong p)

  unfoldable pub run_slots :
      Pubkey → InstructionSpec → ℕ → List (Option Pubkey) → Process Ctx → Process Ctx
  unfolding run_owners wrong_owners_for with_ctx
  run_slots payer spec idx [] p = p
  run_slots payer spec idx (none ∷ rest) p = run_slots payer spec (idx + 1) rest p
  run_slots payer spec idx (some expected ∷ rest) p =
      let (unique, c) = new_unique p.ctx in
      run_slots payer spec (idx + 1) rest
        (run_owners payer spec idx expected (wrong_owners_for expected unique) (with_ctx c p))

  unfoldable pub check : Pubkey → List InstructionSpec → Process Ctx → Process Ctx
  unfolding run_slots
  check payer [] p = p
  check payer (spec ∷ ixs) p = check payer ixs (run_slots payer spec 0 spec.expected_owners p)
