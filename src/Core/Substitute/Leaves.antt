-- ===== src/Core/Substitute/Leaves.antt =====
-- What a substitution attack leaves behind: the instruction's accounts as they were.
use solinv.Core.Process.Restored.{Restored, restore-Restored, Restored-option}
use solinv.Core.Process.{Violation, Process, with_ctx, account_keys, restore}
use solinv.Base.{
  Bool-cases, ◌>>=◌, ◌==◌, eq_iff, contains, ℕ, ◌≡◌, ◌∙◌, inl, inr, true, false, Option, List,
  arith, ℕ_eq, list_eq, option_eq,
}
use solinv.Solana.{Pubkey, Account}
use solinv.Fuzz.Capability.{InstructionSpec}
use solinv.Core.Runtime.{Runtime, StoresAccounts}
use solinv.Core.Harness.{save_accounts, inert_account, cleanup_temp_account}
use solinv.Core.Harness.Restore.{write_or_keep_other}
use solinv.Core.Substitute.{find_saved, send_redirected, run_substitution}

apart_from :
    (fake q : Pubkey) (keys : List Pubkey)
    → contains keys fake ≡ false
    → contains keys q ≡ true
    → (fake == q) ≡ false
apart_from fake q keys fresh m = elim (Bool-cases (fake == q)) [
  | inl same ↦
      let key : fake ≡ q = (eq_iff fake q).0 same in absurd (ground (arith, rw key at fresh, m))
  | inr apart ↦ apart
]

module _ (rt : Runtime) (laws : StoresAccounts rt) (payer : Pubkey) (spec : InstructionSpec)
    (idx : ℕ) where
  -- A key that is not the instruction's is cleaned up without touching its accounts.
  cleanup-Restored :
      (p x : Process rt.Ctx) (fake : Pubkey)
      → contains (account_keys spec) fake ≡ false
      → Restored rt (account_keys spec) p (
          with_ctx
            (cleanup_temp_account rt
              (restore rt (save_accounts rt p.ctx (account_keys spec)) x).ctx
              fake)
            (restore rt (save_accounts rt p.ctx (account_keys spec)) x))
  unfolding with_ctx cleanup_temp_account
  cleanup-Restored p x fake fresh = record {
    same = λ q a m w g.
        let r = restore rt (save_accounts rt p.ctx (account_keys spec)) x in
        write_or_keep_other rt laws r.ctx fake (inert_account rt) q
          (apart_from fake q (account_keys spec) fresh m)
        ∙ (restore-Restored rt laws (account_keys spec) p x).same q a m w g;
  }

  -- Where the fresh key is none of the instruction's, each of its accounts that was there reads as before
  -- the attack, whether the attack could be built or sent, and whatever the program did: in a context
  -- whose accepted writes are stored, and for an account whose writing back no context refuses.
  pub substitution-Restored :
      (fake_of : Account → Option Account) (report : Pubkey → Violation) (real : Pubkey)
      (p : Process rt.Ctx)
      → contains (account_keys spec) (rt.new_unique p.ctx).0 ≡ false
      → Restored rt (account_keys spec) p (run_substitution rt payer spec idx fake_of report real p)
  unfolding run_substitution send_redirected
  substitution-Restored fake_of report real p fresh =
      let keys = account_keys spec in
      let saves = save_accounts rt p.ctx keys in
      let (fake, c) = rt.new_unique p.ctx in
      Restored-option rt keys (find_saved real saves >>= fake_of) p (restore rt saves p) _
        (restore-Restored rt laws keys p p)
        (λ fake_account.
          Restored-option rt keys (rt.write_account c fake fake_account) p
            (restore rt saves (with_ctx c p)) _ (restore-Restored rt laws keys p (with_ctx c p))
            (λ c'. cleanup-Restored p _ fake fresh))
