-- ===== src/Core/Recorded.antt =====
-- A runtime that keeps a record of what is sent through it, to state what a detector sends: every field is
-- the given runtime's.
use solinv.Base.{
  nat_eq, nat_eq_iff, Bool-cases, Option-cases, ◌>>=◌, length, ℕ, ◌≡◌, refl, sym, ap, ◌∙◌, ◌↔◌, inl,
  inr, true, not, ◌&&◌, Option, some, List, [], ◌∷◌, arith,
}
use solinv.Solana.{Pubkey, Account, Instruction, TxOutcome}
use solinv.Core.Runtime.{Runtime}
use solinv.Core.Harness.{
  saved_bytes, is_success, save_accounts, write_or_keep, restore_accounts, hash_accounts,
  hash_accounts_now,
}
use solinv.Core.Process.{Violation, Process, fuzz_assert, with_ctx, send_ix, judge_change}

-- An instruction and the keys that sign its transaction.
abbrev pub Sent : Type 0
Sent = Instruction × List Pubkey

abbrev pub recorded : Runtime → Runtime
recorded rt = record {
  Ctx = rt.Ctx × List Sent;
  get_account = λ c q. rt.get_account c.0 q;
  write_account = λ c q a. rt.write_account c.0 q a >>= λ c'. some (c', c.1);
  send = λ c ix payer keys.
      let (result, c') = rt.send c.0 ix payer keys in (result, (c', (ix, keys) ∷ c.1));
  slot = λ c. rt.slot c.0;
  new_unique = λ c. let (key, c') = rt.new_unique c.0 in (key, (c', c.1));
  find_program_address = rt.find_program_address;
  create_program_address = rt.create_program_address;
  finish = rt.finish;
  show_key = rt.show_key;
  parse_key = rt.parse_key;
}

module _ (rt : Runtime) where
  write_or_keep-record :
      (c : (recorded rt).Ctx) (q : Pubkey) (a : Account)
      → (write_or_keep (recorded rt) c q a).1 ≡ c.1
  unfolding write_or_keep
  write_or_keep-record c q a = elim (Option-cases (rt.write_account c.0 q a)) [
    | inl refused ↦ rw (write_or_keep, refused) refl
    | inr (c', taken) ↦ rw (write_or_keep, taken) refl
  ]

  -- Writing accounts back sends nothing.
  pub restore_accounts-record :
      (saves : List (Pubkey × Account)) (c : (recorded rt).Ctx)
      → (restore_accounts (recorded rt) c saves).1 ≡ c.1
  unfolding restore_accounts
  restore_accounts-record [] c = refl
  restore_accounts-record ((q, a) ∷ saves) c =
      restore_accounts-record saves (write_or_keep (recorded rt) c q a) ∙ write_or_keep-record c q a

  -- The record is no account's content.
  pub save_accounts-record :
      (c : (recorded rt).Ctx) (pks : List Pubkey)
      → save_accounts (recorded rt) c pks ≡ save_accounts rt c.0 pks
  unfolding save_accounts
  save_accounts-record c [] = refl
  save_accounts-record c (pk ∷ pks) = elim (Option-cases (rt.get_account c.0 pk)) [
    | inl absent ↦ rw (save_accounts, absent) (save_accounts-record c pks)
    | inr (a, there) ↦ rw (save_accounts, there) (ap (◌∷◌ (pk, a)) (save_accounts-record c pks))
  ]

  pub hash_accounts_now-record :
      (c : (recorded rt).Ctx) (pks : List Pubkey)
      → hash_accounts_now (recorded rt) c pks ≡ hash_accounts_now rt c.0 pks
  unfolding hash_accounts_now hash_accounts
  hash_accounts_now-record c pks = ap (λ s. rt.finish (saved_bytes s)) (save_accounts-record c pks)

-- If the runtime accepted what was sent, the accounts of the keys hash as they did before.
abbrev pub HashesKept : (rt : Runtime) → rt.Ctx → Pubkey → List Pubkey → Sent → Type 0
HashesKept rt c payer keys (ix, signers) =
    is_success (rt.send c ix payer signers).0 ≡ true
    → hash_accounts_now rt c keys ≡ hash_accounts_now rt (rt.send c ix payer signers).1 keys

-- A verdict leaves the context.
pub judge_change-ctx :
    {Ctx : Type 0} (result : Option TxOutcome) (old new : ℕ) (v : Violation) (p : Process Ctx)
    → (judge_change result old new v p).ctx ≡ p.ctx
unfolding judge_change fuzz_assert
judge_change-ctx result old new v p =
    elim (Bool-cases (is_success result && not (nat_eq old new))) [
      | inl hit ↦ rw (judge_change, hit) refl
      | inr miss ↦ rw (judge_change, miss) refl
    ]

-- It is silent exactly if nothing was accepted or the hashes are the same.
pub judge_change-silent_iff :
    {Ctx : Type 0} (result : Option TxOutcome) (old new : ℕ) (v : Violation) (p : Process Ctx)
    → ((judge_change result old new v p).violations ≡ p.violations)
      ↔ (is_success result ≡ true → old ≡ new)
unfolding judge_change fuzz_assert
judge_change-silent_iff result old new v p = (
  λ s accepted. elim (Bool-cases (nat_eq old new)) [
    | inl e ↦ (nat_eq_iff old new).0 e
    | inr differ ↦
        let grown = ap length (rw (judge_change, accepted, differ) at s) in
        absurd (omega (arith, grown))
  ],
  λ same. elim (Bool-cases (is_success result)) [
    | inl accepted ↦ rw (judge_change, accepted, (nat_eq_iff old new).1 (same accepted)) refl
    | inr refused ↦ rw (judge_change, refused) refl
  ],
)

-- Nor does the end of an attempt, a verdict and the restore, send anything.
pub judged-record :
    (rt : Runtime) (saves : List (Pubkey × Account)) (result : Option TxOutcome) (old new : ℕ)
    (v : Violation) (p : Process (recorded rt).Ctx)
    → (restore_accounts (recorded rt) (judge_change result old new v p).ctx saves).1 ≡ p.ctx.1
judged-record rt saves result old new v p =
    restore_accounts-record rt saves (judge_change result old new v p).ctx
    ∙ ap (λ (c : (recorded rt).Ctx). c.1) (judge_change-ctx result old new v p)

-- Where a detector compares the accounts with these keys before and after it has sent, it is silent
-- exactly if their hashes are kept.
pub judged-reports :
    (rt : Runtime) (payer : Pubkey) (keys : List Pubkey) (sent : Sent) (v : Violation)
    (p : Process (recorded rt).Ctx)
    → let c = send_ix (recorded rt) sent.0 payer sent.1 p in
      ((judge_change c.0
          (hash_accounts_now (recorded rt) p.ctx keys)
          (hash_accounts_now (recorded rt) c.1.ctx keys)
          v
          c.1).violations
        ≡ p.violations)
      ↔ HashesKept rt p.ctx.0 payer keys sent
unfolding send_ix with_ctx
judged-reports rt payer keys sent v p =
    let c = send_ix (recorded rt) sent.0 payer sent.1 p in
    let old = hash_accounts_now-record rt p.ctx keys in
    let new = hash_accounts_now-record rt c.1.ctx keys in
    let silent =
      judge_change-silent_iff c.0 (hash_accounts_now (recorded rt) p.ctx keys)
        (hash_accounts_now (recorded rt) c.1.ctx keys) v c.1 in
    (
      (λ s accepted. sym old ∙ (silent.0 s accepted ∙ new)),
      (λ kept. silent.1 (λ accepted. old ∙ (kept accepted ∙ sym new))),
    )
