-- ===== src/Tests/Detectors.antt =====
-- The theorems on single detectors.
use solinv.Base.{
  ◌⊎◌, ltb, All, contains, codes, le_bytes, from_le, ℕ, ◌<◌, ◌≡◌, refl, ◌≢◌, ◌↔◌, true, false, ◌&&◌,
  none, some, [], ◌∷◌, map, arith, ℕ_eq, list_eq, option_eq,
}
use solinv.Fuzz.Guard.{GuardCondition, GuardOperand, const, slot}
use solinv.Fuzz.Guard
use solinv.Core.Recorded.{Sent, recorded, HashesKept}
use solinv.Core.Process.{Process, pda_forge, canonical_send}
use solinv.Core.Process.Restored.{Restored}
use solinv.Core.PreconditionSkip
use solinv.Core.PreconditionSkip.Reports as GuardReports
use solinv.Core.ReallocRace
use solinv.Core.ReallocRace.Reports as RentReports
use solinv.Core.SignerSkip
use solinv.Core.SignerSkip.Attack
use solinv.Core.Substitute.{run_substitution}
use solinv.Core.Substitute.Leaves.{substitution-Restored}
use solinv.Core.AccountSwap
use solinv.Core.AccountSwap.Swaps
use solinv.Core.BumpSeed.Search.{is_alternative, find_alt_canonical_pda_lem}
use solinv.Core.CpiReentrancy.{detect_reentry}
use solinv.Core.CpiReentrancy.Calls.{
  call, Calls, done, next, events_of_all, first_reentry_all, NeverNestedAll,
}
use solinv.Core.CpiReentrancy.Calls.Detects.{detect_reentry-calls}
use solinv.Core.CpiReentrancy.Calls.Nested.{detect_reentry-never_nested}
use solinv.Tests.World.{
  meta, Program, runtime, runtime_stores, vault, withdraw, payer, process, draining, refusing,
}
use solinv.Solana.{success}
use solinv.Fuzz.Capability.{InstructionSpec}
use solinv.Core.Harness.{save_accounts}
use solinv.Core.BumpSeed.{find_alt_canonical_pda}

-- Program 60 calls 61, which calls 60 again.
abbrev nested : Calls
nested = next (call 60 1 false (next (call 61 2 false (next (call 60 3 true done) done)) done)) done

detect_reentry-calls_example :
    detect_reentry (events_of_all nested) [] ≡ first_reentry_all [] [] nested
detect_reentry-calls_example = detect_reentry-calls [] nested

detect_reentry-never_nested_example :
    (detect_reentry (events_of_all nested) [] ≡ none) ↔ NeverNestedAll [] nested
detect_reentry-never_nested_example = detect_reentry-never_nested nested

-- The accounts of the withdrawal, and nothing sent yet.
abbrev unsent : Process (recorded (runtime draining)).Ctx
unsent = record {
  ctx = ((process draining).ctx, []);
  reached = [];
  fingerprints = [];
  warnings = [];
  violations = [];
}

signer_skip-SignsNothing_example :
    All
      (Attack.SignsNothing 2)
      (SignerSkip.run_attempt (recorded (runtime draining)) payer withdraw 1 unsent).ctx.1
    × ((SignerSkip.run_attempt (recorded (runtime draining)) payer withdraw 1 unsent).ctx.1 ≡ []
        → (contains withdraw.optional_signer_indices 1 ≡ true)
          ⊎ ((◌≡◌ {A = ℕ} 2 payer) ⊎ Attack.AskedElsewhere withdraw 1 2))
signer_skip-SignsNothing_example =
    Attack.signer_skip-SignsNothing (runtime draining) payer withdraw 1 unsent (meta 2 true) refl
      refl

signer_skip-reports_example :
    ((SignerSkip.run_attempt (recorded (runtime draining)) payer withdraw 1 unsent).violations ≡ [])
    ↔ All
        (HashesKept (runtime draining) (process draining).ctx payer (1 ∷ 2 ∷ []))
        (SignerSkip.run_attempt (recorded (runtime draining)) payer withdraw 1 unsent).ctx.1
signer_skip-reports_example =
    Attack.signer_skip-reports (runtime draining) payer withdraw 1 unsent refl

substitution-Restored_example : Restored (runtime draining) (1 ∷ 2 ∷ []) (process draining) (
    run_substitution
      (runtime draining)
      payer
      withdraw
      0
      some
      (λ fake. pda_forge 50 (codes "withdraw") 0 fake 1 2)
      1
      (process draining))
substitution-Restored_example =
    substitution-Restored (runtime draining) (runtime_stores draining) payer withdraw 0 some
      (λ fake. pda_forge 50 (codes "withdraw") 0 fake 1 2) 1 (process draining) refl

alternative : find_alt_canonical_pda (runtime draining) [] 50 ≡ some (2, 52)
unfolding find_alt_canonical_pda from_le
alternative = refl

find_alt_canonical_pda_lem_example :
    (2 < 3)
    × ((runtime draining).create_program_address ((2 ∷ []) ∷ []) 50 ≡ some 52)
    × (◌≢◌ {A = ℕ} 52 53)
    × ((ltb 2 1 && is_alternative (runtime draining) [] 50 53 1) ≡ false)
find_alt_canonical_pda_lem_example =
    find_alt_canonical_pda_lem (runtime draining) [] 50 2 1 52 alternative (omega arith)

-- A withdrawal that the source guards by a slot that has not come.
abbrev guarded : InstructionSpec
guarded = record withdraw {
  guards = record { name = codes "unlocked"; lhs = slot; op = Guard.ge; rhs = const 100 } ∷ [];
}

precondition_skip-reports_example :
    ((PreconditionSkip.run_attempt (runtime draining) payer guarded (process draining)).violations
      ≡ [])
    ↔ All
        (GuardReports.IsMet
          (PreconditionSkip.account_data (runtime draining) (process draining).ctx guarded)
          (9 ∷ 9 ∷ [])
          7)
        guarded.guards
precondition_skip-reports_example =
    GuardReports.precondition_skip-reports (runtime draining) payer guarded (process draining) refl

-- Grows the vault of key 1 without paying for it.
abbrev growing : Program
growing s ix =
    (some (success [] 50), (1, record (vault 5) { contents = le_bytes 2000 0; lamports = 1 }) ∷ s)

realloc_race-reports_example :
    ((ReallocRace.run_attempt (runtime growing) payer withdraw (process growing)).violations ≡ [])
    ↔ RentReports.AllPaidFor
        (runtime growing)
        (canonical_send (runtime growing) payer withdraw (process growing).ctx).1
        (save_accounts (runtime growing) (process growing).ctx (1 ∷ 2 ∷ []))
realloc_race-reports_example =
    RentReports.realloc_race-reports (runtime growing) payer withdraw (process growing) refl

refused :
    ReallocRace.rent_error
      (canonical_send (runtime refusing) payer withdraw (process refusing).ctx).0
    ≡ some 0
unfolding ReallocRace.rent_error
refused = refl

abbrev alternate : AccountSwap.Swaps
alternate = (0, 3) ∷ []

allowed : AccountSwap.refusal (recorded (runtime draining)) unsent.ctx withdraw alternate ≡ none
unfolding AccountSwap.refusal
allowed = refl

account_swap-reports_example :
    (sent : Sent) × ((AccountSwap.run_attempt
        (recorded (runtime draining))
        payer
        withdraw
        alternate
        unsent).1.ctx.1
      ≡ sent ∷ [])
    × (sent.0.program_id ≡ 50)
    × (sent.0.payload ≡ 9 ∷ 9 ∷ [])
    × (map (λ m. m.pubkey) sent.0.accounts ≡ AccountSwap.touched_from alternate 0 withdraw.accounts)
    × (((AccountSwap.run_attempt
            (recorded (runtime draining))
            payer
            withdraw
            alternate
            unsent).1.violations
          ≡ [])
        ↔ HashesKept
            (runtime draining)
            (process draining).ctx
            payer
            (map (λ m. m.pubkey) sent.0.accounts)
            sent)
account_swap-reports_example =
    Swaps.account_swap-reports (runtime draining) payer withdraw alternate unsent allowed refl

account_swap-Restored_example :
    Restored
      (runtime draining)
      (AccountSwap.touched_from alternate 0 withdraw.accounts)
      (process draining)
      (AccountSwap.run_attempt (runtime draining) payer withdraw alternate (process draining)).1
account_swap-Restored_example =
    Swaps.account_swap-Restored (runtime draining) (runtime_stores draining) payer withdraw
      alternate (process draining)
