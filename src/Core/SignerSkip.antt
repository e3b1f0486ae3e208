-- ===== src/Core/SignerSkip.antt =====
-- crates/solinv-core/src/invariants/signer_skip.rs: an instruction sent with one required signature
-- missing. The note that a slot is skipped goes to stdout and is left out.
pub mod Attack
use solinv.Base.{
  nat_eq, if◌then◌else◌, get_elem?, modify, filter, contains, ℕ, ◌+◌, Bool, false, not, ◌&&◌, ◌||◌,
  none, some, List, [], ◌∷◌, ℕ_eq, list_eq, option_eq,
}
use solinv.Solana.{Pubkey, AccountMeta, Instruction}
use solinv.Fuzz.Capability.{InstructionSpec}
use solinv.Core.Runtime.{Runtime}
use solinv.Core.Harness.{save_accounts, hash_accounts, hash_accounts_now}
use solinv.Core.Process.{signer_skip, Process, account_keys, send_ix, restore, judge_change}

-- `accounts.iter().enumerate().any(..)` from index `i` on.
unfoldable pub signed_elsewhere : ℕ → ℕ → Pubkey → List AccountMeta → Bool
signed_elsewhere i sig_idx target [] = false
signed_elsewhere i sig_idx target (m ∷ ms) =
    (not (nat_eq i sig_idx) && nat_eq m.pubkey target && m.is_signer)
    || signed_elsewhere (i + 1) sig_idx target ms

abbrev pub drop_signer : AccountMeta → AccountMeta
drop_signer m = record m { is_signer = false }

unfoldable pub attack : InstructionSpec → ℕ → Instruction
attack spec sig_idx = record {
  program_id = spec.program_id;
  accounts = modify spec.accounts sig_idx drop_signer;
  payload = spec.data_sample;
}

unfoldable pub attack_keys : Pubkey → Pubkey → List Pubkey → List Pubkey
attack_keys payer dropped signers =
    payer ∷ filter (λ kp. not (nat_eq kp payer) && not (nat_eq kp dropped)) signers

module _ (rt : Runtime) where
  open rt use {Ctx}

  unfoldable pub run_attack : Pubkey → InstructionSpec → ℕ → Pubkey → Process Ctx → Process Ctx
  unfolding attack attack_keys restore send_ix judge_change
  run_attack payer spec sig_idx dropped p =
      let saves = save_accounts rt p.ctx (account_keys spec) in
      let pre_hash = hash_accounts rt saves in
      let (result, sent) =
        send_ix rt (attack spec sig_idx) payer (attack_keys payer dropped spec.signers) p in
      let post_hash = hash_accounts_now rt sent.ctx (account_keys spec) in
      restore rt saves (
        judge_change result pre_hash post_hash
          (signer_skip spec.program_id spec.name sig_idx dropped pre_hash post_hash) sent)

  unfoldable pub run_attempt : Pubkey → InstructionSpec → ℕ → Process Ctx → Process Ctx
  unfolding signed_elsewhere run_attack
  run_attempt payer spec sig_idx p =
      if contains spec.optional_signer_indices sig_idx
      then p
      else elim (get_elem? spec.accounts sig_idx) [
        | none ↦ p
        | some m ↦
            if signed_elsewhere 0 sig_idx m.pubkey spec.accounts || nat_eq m.pubkey payer
            then p
            else run_attack payer spec sig_idx m.pubkey p
      ]

  unfoldable pub run_slots : Pubkey → InstructionSpec → List ℕ → Process Ctx → Process Ctx
  unfolding run_attempt
  run_slots payer spec [] p = p
  run_slots payer spec (sig_idx ∷ rest) p =
      run_slots payer spec rest (run_attempt payer spec sig_idx p)

  unfoldable pub check : Pubkey → List InstructionSpec → Process Ctx → Process Ctx
  unfolding run_slots
  check payer [] p = p
  check payer (spec ∷ ixs) p = check payer ixs (run_slots payer spec spec.signer_indices p)
