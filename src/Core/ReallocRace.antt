-- ===== src/Core/ReallocRace.antt =====
-- crates/solinv-core/src/invariants/realloc_race.rs: accounts that grow without the rent for it.
pub mod Reports
use solinv.Base.{
  ltb, leb, nat_eq, if◌then◌else◌, length, get_elem?, u64_mod, Text, codes, show, ℕ, ◌+◌, ◌-◌, ◌*◌,
  ◌%◌, false, Option, none, some, List, [], ◌∷◌, ◌++◌,
}
use solinv.Solana.{
  Pubkey, Account, insufficient_funds_for_rent, other_error, TxOutcome, success, program_error,
}
use solinv.Fuzz.Capability.{InstructionSpec}
use solinv.Core.Runtime.{Runtime}
use solinv.Core.Harness.{is_success, save_accounts}
use solinv.Core.Process.{
  realloc_rejected, realloc_shortfall, Process, fuzz_assert, account_keys, restore,
  record_ix_reached, send_canonical,
}

-- `(128 + bytes) as u64 * 3480 * 2`, in u64 arithmetic.
unfoldable pub rent_for : ℕ → ℕ
rent_for bytes = (128 + bytes) % u64_mod * 3480 % u64_mod * 2 % u64_mod

-- The index of the account that the runtime found short of rent, if that is why it refused.
unfoldable pub rent_error : Option TxOutcome → Option ℕ
rent_error (some (program_error logs (insufficient_funds_for_rent account_index) code)) =
    some account_index
rent_error (some (program_error logs (other_error e) code)) = none
rent_error (some (success logs units)) = none
rent_error none = none

module _ (rt : Runtime) where
  open rt use {Ctx, get_account, show_key}

  -- One account that was there before, against what it is after an accepted send.
  unfoldable pub compare_grown : InstructionSpec → Pubkey → Account → Process Ctx → Process Ctx
  unfolding rent_for fuzz_assert
  compare_grown spec pubkey pre p = elim (get_account p.ctx pubkey) [
    | none ↦ p
    | some post ↦
        let post_len = length post.contents in
        let required = rent_for post_len in
        if leb post_len (length pre.contents)
        then p
        else if nat_eq post_len 0
        then p
        else if ltb post.lamports required
        then fuzz_assert false
            (realloc_shortfall spec.program_id pubkey (length pre.contents) post_len post.lamports
              required (required - post.lamports) spec.name)
            p
        else p
  ]

  unfoldable pub compare_all : InstructionSpec → List (Pubkey × Account) → Process Ctx → Process Ctx
  unfolding compare_grown
  compare_all spec [] p = p
  compare_all spec ((pubkey, pre) ∷ saves) p =
      compare_all spec saves (compare_grown spec pubkey pre p)

  unfoldable pub account_label : List (Pubkey × Account) → ℕ → Text
  account_label saves idx = elim (get_elem? saves idx) [
    | some (pk, a) ↦ show_key pk
    | none ↦ codes "account_index=" ++ show idx
  ]

  unfoldable pub run_attempt : Pubkey → InstructionSpec → Process Ctx → Process Ctx
  unfolding restore send_canonical rent_error compare_all record_ix_reached fuzz_assert
  run_attempt payer spec p =
      let saves = save_accounts rt p.ctx (account_keys spec) in
      let (result, sent) = send_canonical rt payer spec p in
      let marked = if is_success result then record_ix_reached rt spec sent else sent in
      elim (rent_error result) [
        | some idx ↦ restore rt saves (
            fuzz_assert false (realloc_rejected spec.program_id (account_label saves idx) spec.name)
              marked)
        | none ↦
            restore rt saves (if is_success result then compare_all spec saves marked else marked)
      ]

  unfoldable pub check : Pubkey → List InstructionSpec → Process Ctx → Process Ctx
  unfolding run_attempt
  check payer [] p = p
  check payer (spec ∷ ixs) p =
      check payer ixs (elim spec.realloc_check [ none ↦ p | some cfg ↦ run_attempt payer spec p ])
