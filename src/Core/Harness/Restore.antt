-- ===== src/Core/Harness/Restore.antt =====
-- What `save_accounts` and `restore_accounts` of crates/solinv-core/src/invariants/util.rs promise.
use solinv.Base.{
  Bool-cases, Option-cases, ◌==◌, eq_iff, eq_refl, take, contains, ◌≡◌, refl, sym, ◌∙◌, inl, inr,
  true, false, some, List, [], ◌∷◌, arith, ℕ_eq, list_eq, option_eq,
}
use solinv.Solana.{Pubkey, Account}
use solinv.Core.Runtime.{Runtime, StoresAccounts, IsTaken}
use solinv.Core.Harness.{save_accounts, write_or_keep, restore_accounts}

module _ (rt : Runtime) (laws : StoresAccounts rt) where
  open rt use {Ctx, get_account}

  -- A write that may be refused leaves the other accounts as they were.
  pub write_or_keep_other :
      (c : Ctx) (p : Pubkey) (a : Account) (q : Pubkey)
      → (p == q) ≡ false
      → get_account (write_or_keep rt c p a) q ≡ get_account c q
  unfolding write_or_keep
  write_or_keep_other c p a q apart = elim (Option-cases (rt.write_account c p a)) [
    | inl refused ↦ rw (write_or_keep, refused) refl
    | inr (c', taken) ↦ rw (write_or_keep, taken) (rw (laws.written c c' p a taken q, apart) refl)
  ]

  write_or_keep_taken :
      (c : Ctx) (p : Pubkey) (a : Account)
      → IsTaken rt p a
      → get_account (write_or_keep rt c p a) p ≡ some a
  unfolding write_or_keep
  write_or_keep_taken c p a take = elim (Option-cases (rt.write_account c p a)) [
    | inl refused ↦ absurd (take c refused)
    | inr (c', taken) ↦
        rw (write_or_keep, taken) (rw (laws.written c c' p a taken p, eq_refl p) refl)
  ]

  -- The account of `q` at `q` itself, under whichever name the key comes.
  write_back :
      (start now : Ctx) (p q : Pubkey) (b a : Account)
      → (p == q) ≡ true
      → IsTaken rt q a
      → get_account start p ≡ some b
      → get_account start q ≡ some a
      → get_account (write_or_keep rt now p b) q ≡ some a
  write_back start now p q b a same taken there was =
      let key : p ≡ q = (eq_iff p q).0 same in
      let found : some b ≡ some a = sym (rw key at there) ∙ was in
      let account : b ≡ a = ground (arith, found) in
      rw (key, account) (write_or_keep_taken now q a taken)

  -- Writing back leaves what it did not save, and what already reads as it was saved.
  restore_accounts_same :
      (start now : Ctx) (pks : List Pubkey) (q : Pubkey) (a : Account)
      → IsTaken rt q a
      → get_account start q ≡ some a
      → get_account now q ≡ some a
      → get_account (restore_accounts rt now (save_accounts rt start pks)) q ≡ some a
  unfolding save_accounts restore_accounts
  restore_accounts_same start now [] q a taken was is = is
  restore_accounts_same start now (p ∷ pks) q a taken was is =
      elim (Option-cases (get_account start p)) [
        | inl gone ↦ rw (save_accounts, gone) (restore_accounts_same start now pks q a taken was is)
        | inr (b, there) ↦
            rw (save_accounts, there)
              (restore_accounts_same start (write_or_keep rt now p b) pks q a taken was
                (elim (Bool-cases (p == q)) [
                  | inl same ↦ write_back start now p q b a same taken there was
                  | inr apart ↦ write_or_keep_other now p b q apart ∙ is
                ]))
      ]

  -- An account of the list that was there at the save, and that no context refuses, reads after the
  -- restore as it did then.
  pub restore_accounts-get :
      (start now : Ctx) (pks : List Pubkey) (q : Pubkey) (a : Account)
      → contains pks q ≡ true
      → IsTaken rt q a
      → get_account start q ≡ some a
      → get_account (restore_accounts rt now (save_accounts rt start pks)) q ≡ some a
  unfolding save_accounts restore_accounts
  restore_accounts-get start now [] q a m taken was = absurd (ground (arith, m))
  restore_accounts-get start now (p ∷ pks) q a m taken was = elim (Bool-cases (p == q)) [
    | inl same ↦ elim (Option-cases (get_account start p)) [
      | inl gone ↦
          let key : p ≡ q = (eq_iff p q).0 same in absurd (ground (arith, rw key at gone, was))
      | inr (b, there) ↦
          rw (save_accounts, there)
            (restore_accounts_same start (write_or_keep rt now p b) pks q a taken was
              (write_back start now p q b a same taken there was))
    ]
    | inr apart ↦
        let later : contains pks q ≡ true = ground (arith, m, apart) in
        elim (Option-cases (get_account start p)) [
          | inl gone ↦
              rw (save_accounts, gone) (restore_accounts-get start now pks q a later taken was)
          | inr (b, there) ↦
              rw (save_accounts, there)
                (restore_accounts-get start (write_or_keep rt now p b) pks q a later taken was)
        ]
  ]
