-- ===== src/Core/ReallocRace/Reports.antt =====
-- When realloc_race.rs reports: an account that grew and does not hold the rent for its new size.
use mathlib.Core.Path.{subst}
use solinv.Base.{
  ltb, leb, nat_eq, if◌then◌else◌, Option-cases, length, u64_mod, ℕ, ◌+◌, ◌-◌, ◌*◌, ◌≤◌, ◌<◌, ◌≡◌,
  refl, ◌↔◌, inl, inr, Bool, true, false, Option, none, some, List, [], ◌∷◌, arith,
}
use solinv.Solana.{Pubkey, Account}
use solinv.Fuzz.Capability.{InstructionSpec}
use solinv.Core.Runtime.{Runtime}
use solinv.Core.Harness.{is_success, save_accounts}
use solinv.Core.Process.{
  Violation, realloc_rejected, realloc_shortfall, Process, fuzz_assert, account_keys,
  canonical_send, record_ix_reached, send_canonical,
}
use solinv.Core.Process.Reports.{Judges, Judges-skip, Judges-then, Judges-silent_iff, Judges-iff}
use solinv.Core.ReallocRace.{
  rent_for, rent_error, compare_grown, compare_all, account_label, run_attempt,
}

-- The rent-exempt minimum, (128 + bytes) * 6960, as long as it fits a u64.
pub rent_for_lem :
    (bytes : ℕ) → (128 + bytes) * 6960 < u64_mod → rent_for bytes ≡ (128 + bytes) * 6960
unfolding rent_for
rent_for_lem bytes h = omega arith

-- An account that grew holds the rent for its new size.
abbrev PaidFor : Account → Option Account → Type 0
PaidFor pre none = Unit
PaidFor pre (some post) =
    length pre.contents < length post.contents → rent_for (length post.contents) ≤ post.lamports

module _ {Ctx : Type 0} where
  -- The three tests of `compare_grown` on an account that is still there.
  ladder-Judges :
      (kept closed short : Bool) (v : Violation) (p : Process Ctx)
      → Judges
          (kept ≡ false → closed ≡ false → short ≡ false)
          p
          (if kept then p else if closed then p else if short then fuzz_assert false v p else p)
  unfolding fuzz_assert
  ladder-Judges true closed short v p = (refl, inl ((λ k. cc k), refl))
  ladder-Judges false true short v p = (refl, inl ((λ k c. cc c), refl))
  ladder-Judges false false true v p = (refl, inr ((λ h. cc (h refl refl)), omega arith))
  ladder-Judges false false false v p = (refl, inl ((λ k c. refl), refl))

tests_iff :
    (pre_len post_len lamports required : ℕ)
    → (leb post_len pre_len ≡ false → nat_eq post_len 0 ≡ false → ltb lamports required ≡ false)
      ↔ (pre_len < post_len → required ≤ lamports)
tests_iff pre_len post_len lamports required = (
  (λ h grew. let paid = h (ground arith) (ground arith) in ground arith),
  (λ h kept closed. let paid = h (ground arith) in ground arith),
)

module _ (rt : Runtime) where
  open rt use {Ctx, get_account}

  abbrev pub AllPaidFor : Ctx → List (Pubkey × Account) → Type 0
  AllPaidFor ctx [] = Unit
  AllPaidFor ctx ((pk, pre) ∷ saves) = PaidFor pre (get_account ctx pk) × AllPaidFor ctx saves

  compare_grown-Judges :
      (spec : InstructionSpec) (pk : Pubkey) (pre : Account) (p : Process Ctx)
      → Judges (PaidFor pre (get_account p.ctx pk)) p (compare_grown rt spec pk pre p)
  unfolding compare_grown
  compare_grown-Judges spec pk pre p = elim (Option-cases (get_account p.ctx pk)) [
    | inl e ↦ rw (e, compare_grown) (Judges-skip p)
    | inr (post, e) ↦
        let post_len = length post.contents in
        let required = rent_for post_len in
        let v =
          realloc_shortfall spec.program_id pk (length pre.contents) post_len post.lamports required
            (required - post.lamports) spec.name in
        let kept = leb post_len (length pre.contents) in
        let closed = nat_eq post_len 0 in
        let short = ltb post.lamports required in
        rw (e, compare_grown)
          (Judges-iff p
            (if kept then p else if closed then p else if short then fuzz_assert false v p else p)
            (tests_iff (length pre.contents) post_len post.lamports required)
            (ladder-Judges kept closed short v p))
  ]

  compare_all-Judges :
      (spec : InstructionSpec) (ctx : Ctx) (saves : List (Pubkey × Account)) (p : Process Ctx)
      → p.ctx ≡ ctx
      → Judges (AllPaidFor ctx saves) p (compare_all rt spec saves p)
  unfolding compare_all
  compare_all-Judges spec ctx [] p e = Judges-skip p
  compare_all-Judges spec ctx ((pk, pre) ∷ saves) p e =
      let q = compare_grown rt spec pk pre p in
      let first = compare_grown-Judges spec pk pre p in
      subst (λ c. Judges (AllPaidFor c ((pk, pre) ∷ saves)) p (compare_all rt spec saves q)) e
        (Judges-then p q (compare_all rt spec saves q) first
          (compare_all-Judges spec p.ctx saves q first.0))

  module _ (payer : Pubkey) (spec : InstructionSpec) (p : Process Ctx) where
    abbrev saves : List (Pubkey × Account)
    saves = save_accounts rt p.ctx (account_keys spec)

    abbrev marked : Process Ctx
    marked = record_ix_reached rt spec (send_canonical rt payer spec p).1

    run_attempt-accepted :
        is_success (canonical_send rt payer spec p.ctx).0 ≡ true
        → (run_attempt rt payer spec p).violations ≡ (compare_all rt spec saves marked).violations
    unfolding run_attempt
    run_attempt-accepted h = ground arith

    -- After an accepted send the attempt has added no violation exactly if each account that was there
    -- before and that grew holds the rent for the size that it grew to.
    pub realloc_race-reports :
        is_success (canonical_send rt payer spec p.ctx).0 ≡ true
        → ((run_attempt rt payer spec p).violations ≡ p.violations)
          ↔ AllPaidFor (canonical_send rt payer spec p.ctx).1 saves
    unfolding send_canonical record_ix_reached
    realloc_race-reports accepted = rw (run_attempt-accepted accepted) (
        Judges-silent_iff marked (compare_all rt spec saves marked)
          (compare_all-Judges spec marked.ctx saves marked refl))

    -- A send that the runtime refuses for want of rent is reported, with the account that it names.
    pub realloc_race-rejected :
        (idx : ℕ)
        → rent_error (canonical_send rt payer spec p.ctx).0 ≡ some idx
        → (run_attempt rt payer spec p).violations
          ≡ realloc_rejected spec.program_id (account_label rt saves idx) spec.name ∷ p.violations
    unfolding run_attempt
    realloc_race-rejected idx h = ground arith
