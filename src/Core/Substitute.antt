-- ===== src/Core/Substitute.antt =====
-- The attack that owner_skip.rs, discriminator_skip.rs and pda_forge.rs of
-- crates/solinv-core/src/invariants share: an account is replaced by a fake one at a fresh key.
pub mod Leaves
use solinv.Base.{nat_eq, if◌then◌else◌, ◌>>=◌, modify, ℕ, Option, none, some, List, [], ◌∷◌}
use solinv.Solana.{Pubkey, Account, AccountMeta, Instruction, TxOutcome}
use solinv.Fuzz.Capability.{InstructionSpec}
use solinv.Core.Runtime.{Runtime}
use solinv.Core.Harness.{
  signer_refs, save_accounts, hash_accounts, hash_accounts_now, cleanup_temp_account,
}
use solinv.Core.Process.{Violation, Process, with_ctx, account_keys, send_ix, restore, judge_change}

-- `saves.iter().find(|(pk, _)| *pk == real_pubkey)`.
unfoldable pub find_saved : Pubkey → List (Pubkey × Account) → Option Account
find_saved real [] = none
find_saved real ((pk, a) ∷ saves) = if nat_eq pk real then some a else find_saved real saves

unfoldable pub redirect : InstructionSpec → ℕ → Pubkey → Instruction
redirect spec idx fake = record {
  program_id = spec.program_id;
  accounts = modify spec.accounts idx (λ m. record m { pubkey = fake });
  payload = spec.data_sample;
}

module _ (rt : Runtime) where
  open rt use {Ctx, write_account, new_unique}

  -- From the fake account at `fake` on: send, judge, restore, clean up.
  unfoldable pub send_redirected :
      Pubkey
      → InstructionSpec
      → ℕ
      → List (Pubkey × Account)
      → Pubkey
      → Violation
      → Process Ctx
      → Process Ctx
  unfolding redirect send_ix judge_change restore with_ctx cleanup_temp_account
  send_redirected payer spec idx saves fake v p =
      let (result, sent) =
        send_ix rt (redirect spec idx fake) payer (signer_refs payer spec.signers) p in
      let post_hash = hash_accounts_now rt sent.ctx (account_keys spec) in
      let restored =
        restore rt saves (judge_change result (hash_accounts rt saves) post_hash v sent) in
      with_ctx (cleanup_temp_account rt restored.ctx fake) restored

  -- `fake_of` makes the fake account of the real one; `none` is a check that fails before the attack.
  -- `report` is the message, given the fresh key.
  unfoldable pub run_substitution :
      Pubkey
      → InstructionSpec
      → ℕ
      → (Account → Option Account)
      → (Pubkey → Violation)
      → Pubkey
      → Process Ctx
      → Process Ctx
  unfolding find_saved send_redirected restore with_ctx
  run_substitution payer spec idx fake_of report real_pubkey p =
      let saves = save_accounts rt p.ctx (account_keys spec) in
      elim (find_saved real_pubkey saves >>= fake_of) [
        | none ↦ restore rt saves p
        | some fake_account ↦
            let (fake, fresh) = new_unique p.ctx in
            elim (write_account fresh fake fake_account) [
              | none ↦ restore rt saves (with_ctx fresh p)
              | some c ↦ send_redirected payer spec idx saves fake (report fake) (with_ctx c p)
            ]
      ]
