-- ===== src/Core/DiscriminatorSkip.antt =====
-- crates/solinv-core/src/invariants/discriminator_skip.rs: an account replaced by a copy of another
-- type.
use solinv.Base.{
  ltb, if◌then◌else◌, ◌==◌, length, get_elem?, Bytes, splice, ℕ, ◌+◌, false, Option, none, some,
  List, [], ◌∷◌, ℕ_eq, list_eq, option_eq,
}
use solinv.Solana.{Pubkey, Account}
use solinv.Fuzz.Capability.{InstructionSpec}
use solinv.Core.Runtime.{Runtime}
use solinv.Core.Process.{discriminator_skip, Process}
use solinv.Core.Substitute.{run_substitution}

abbrev pub wrong_discriminators : List Bytes
wrong_discriminators =
    (0xDE ∷ 0xAD ∷ 0xBE ∷ 0xEF ∷ 0 ∷ 0 ∷ 0 ∷ 0 ∷ [])
    ∷ (0 ∷ 0 ∷ 0 ∷ 0 ∷ 0 ∷ 0 ∷ 0 ∷ 0 ∷ [])
    ∷ (0xFF ∷ 0xFF ∷ 0xFF ∷ 0xFF ∷ 0xFF ∷ 0xFF ∷ 0xFF ∷ 0xFF ∷ [])
    ∷ []

-- `none` where the real data holds no discriminator.
unfoldable pub fake_account : Bytes → Account → Option Account
fake_account wrong_disc real =
    if ltb (length real.contents) 8
    then none
    else some (record real { contents = splice real.contents 0 wrong_disc; executable = false })

module _ (rt : Runtime) where
  open rt use {Ctx}

  unfoldable pub run_attempt :
      Pubkey → InstructionSpec → ℕ → Bytes → Bytes → Process Ctx → Process Ctx
  unfolding fake_account run_substitution
  run_attempt payer spec idx wrong_disc expected_disc p = elim (get_elem? spec.accounts idx) [
    | none ↦ p
    | some m ↦
        run_substitution rt payer spec idx (fake_account wrong_disc)
          (λ fake.
            discriminator_skip spec.program_id spec.name idx wrong_disc expected_disc m.pubkey fake)
          m.pubkey p
  ]

  unfoldable pub run_discriminators :
      Pubkey → InstructionSpec → ℕ → Bytes → List Bytes → Process Ctx → Process Ctx
  unfolding run_attempt
  run_discriminators payer spec idx expected [] p = p
  run_discriminators payer spec idx expected (wrong ∷ rest) p =
      run_discriminators payer spec idx expected rest
        (if wrong == expected then p else run_attempt payer spec idx wrong expected p)

  unfoldable pub run_slots :
      Pubkey → InstructionSpec → ℕ → List (Option Bytes) → Process Ctx → Process Ctx
  unfolding run_discriminators
  run_slots payer spec idx [] p = p
  run_slots payer spec idx (none ∷ rest) p = run_slots payer spec (idx + 1) rest p
  run_slots payer spec idx (some expected ∷ rest) p =
      run_slots payer spec (idx + 1) rest
        (run_discriminators payer spec idx expected wrong_discriminators p)

  unfoldable pub check : Pubkey → List InstructionSpec → Process Ctx → Process Ctx
  unfolding run_slots
  check payer [] p = p
  check payer (spec ∷ ixs) p =
      check payer ixs (run_slots payer spec 0 spec.expected_discriminators p)
