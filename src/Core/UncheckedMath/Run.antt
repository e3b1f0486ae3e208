-- ===== src/Core/UncheckedMath/Run.antt =====
-- One attempt of crates/solinv-core/src/invariants/unchecked_math.rs: what it reports and what it leaves.
use solinv.Base.{
  Option-cases, u128_mod, before, ℕ, ◌<◌, ◌≡◌, ◌⊎◌, inl, inr, true, false, some, List, [], ◌∷◌,
  arith,
}
use solinv.Solana.{Pubkey}
use solinv.Fuzz.Relation.{StateInvariant}
use solinv.Fuzz.Capability.{InstructionSpec, to_instruction}
use solinv.Core.Runtime.{Runtime, StoresAccounts}
use solinv.Core.Harness.{is_success}
use solinv.Core.Process.{Breach, unchecked_math, Process, account_keys, canonical_send}
use solinv.Core.UncheckedMath.Rules.{sum, Respects, check_kind_iff}
use solinv.Core.Process.Restored.{Restored, restore-Restored}
use solinv.Core.UncheckedMath.{check_kind, read_image, run_attempt, check_invariants}

module _ (rt : Runtime) where
  open rt use {Ctx}

  module _ (payer : Pubkey) (spec : InstructionSpec) (inv : StateInvariant) (p : Process Ctx) where
    -- An attempt whose send did not succeed reports nothing.
    pub run_attempt-rejected :
        is_success (canonical_send rt payer spec p.ctx).0 ≡ false
        → (run_attempt rt payer spec inv p).violations ≡ p.violations
    unfolding run_attempt to_instruction
    run_attempt-rejected h = ground arith

    -- Where the images before and after an accepted send can be read and their sums fit a u128, the
    -- attempt reports one violation of the invariant, or none, exactly as the images agree with it.
    pub run_attempt-reports :
        (pre post : List ℕ)
        → read_image rt p.ctx spec inv ≡ some pre
        → is_success (canonical_send rt payer spec p.ctx).0 ≡ true
        → read_image rt (canonical_send rt payer spec p.ctx).1 spec inv ≡ some post
        → sum pre < u128_mod
        → sum post < u128_mod
        → (Respects inv.kind pre post
            × ((run_attempt rt payer spec inv p).violations ≡ p.violations))
          ⊎ ((¬ Respects inv.kind pre post)
              × ((b : Breach) × ((run_attempt rt payer spec inv p).violations
                    ≡ unchecked_math spec.program_id spec.name inv.name b ∷ p.violations)))
    run_attempt-reports pre post before accepted after hp hq =
        elim (Option-cases (check_kind inv.kind pre post)) [
          | inl fine ↦ inl (
            (check_kind_iff inv.kind pre post hp hq).0 fine,
            unfold run_attempt to_instruction in ground (arith, fine),
          )
          | inr (b, breach) ↦ inr (
            (λ r. cc (breach, (check_kind_iff inv.kind pre post hp hq).1 r)),
            (b, unfold run_attempt to_instruction in ground (arith, breach)),
          )
        ]

  module _ (laws : StoresAccounts rt) where
    -- Whatever the instruction does and whether or not it is reported, the accounts of the instruction
    -- that were there before the attempt, and that no context refuses, read as they did.
    pub run_attempt-Restored :
        (payer : Pubkey) (spec : InstructionSpec) (inv : StateInvariant) (p : Process Ctx)
        → Restored rt (account_keys spec) p (run_attempt rt payer spec inv p)
    unfolding run_attempt
    run_attempt-Restored payer spec inv p = restore-Restored rt laws (account_keys spec) p _

    -- After all the invariants of an instruction have been attempted in turn, each of its accounts that
    -- was there reads as before: in a context whose accepted writes are stored, and for an account whose
    -- writing back no context refuses.
    pub check_invariants-Restored :
        (payer : Pubkey) (spec : InstructionSpec) (invs : List StateInvariant) (p : Process Ctx)
        → Restored rt (account_keys spec) p (check_invariants rt payer spec invs p)
    unfolding check_invariants
    check_invariants-Restored payer spec [] p = record { same = λ q a m w g. g }
    check_invariants-Restored payer spec (inv ∷ invs) p = record {
      same = λ q a m w g.
          (check_invariants-Restored payer spec invs (run_attempt rt payer spec inv p)).same q a m w
            ((run_attempt-Restored payer spec inv p).same q a m w g);
    }
