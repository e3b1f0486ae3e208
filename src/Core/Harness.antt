-- ===== src/Core/Harness.antt =====
-- crates/solinv-core/src/invariants/util.rs and reachability.rs: saving and restoring accounts, their
-- hash, and the sets that a process keeps across detector runs.
pub mod Restore
use solinv.Base.{
  ltb, if◌then◌else◌, ◌>>=◌, ◌==◌, length, filter, contains, u64_mod, checked_add, Bytes, Text,
  codes, le_bytes, from_le, slice, ℕ, Bool, true, false, not, Option, none, some, List, [], ◌∷◌,
  ◌++◌, ℕ_eq, list_eq, option_eq,
}
use solinv.Solana.{Pubkey, Account, TxOutcome, success, program_error}
use solinv.Core.Runtime.{Runtime}

-- `read_field_widened`: a little-endian field of 8 or 16 bytes.
unfoldable pub read_field_widened : Bytes → ℕ → ℕ → Option ℕ
read_field_widened contents offset size = checked_add u64_mod offset size >>= λ end.
    if ltb (length contents) end
    then none
    else if size == 8
    then some (from_le (slice contents offset 8))
    else if size == 16
    then some (from_le (slice contents offset 16))
    else none

-- The bytes that `hash_accounts` writes for one account.
unfoldable pub account_bytes : Pubkey → Account → Bytes
account_bytes pk acct =
    le_bytes 32 pk
    ++ (acct.contents
        ++ (le_bytes 8 acct.lamports
            ++ (le_bytes 32 acct.owner
                ++ ((if acct.executable then 1 else 0) ∷ le_bytes 8 acct.rent_epoch))))

unfoldable pub saved_bytes : List (Pubkey × Account) → Bytes
saved_bytes [] = []
saved_bytes ((pk, acct) ∷ saves) = account_bytes pk acct ++ saved_bytes saves

-- The keys that sign: the fee payer, then the others.
unfoldable pub signer_refs : Pubkey → List Pubkey → List Pubkey
signer_refs payer signers = payer ∷ filter (λ kp. not (kp == payer)) signers

abbrev pub is_success : Option TxOutcome → Bool
is_success none = false
is_success (some (success logs units)) = true
is_success (some (program_error logs e code)) = false

-- `HashSet::insert` on a set kept as a list: whether the key is new, and the set with it.
unfoldable pub insert_key : Text → List Text → Bool × List Text
insert_key key keys = if contains keys key then (false, keys) else (true, key ∷ keys)

module _ (rt : Runtime) where
  open rt use {Ctx, get_account, write_account, finish, show_key}

  unfoldable pub save_accounts : Ctx → List Pubkey → List (Pubkey × Account)
  save_accounts ctx [] = []
  save_accounts ctx (pk ∷ pks) =
      let rest = save_accounts ctx pks in
      elim (get_account ctx pk) [ none ↦ rest | some a ↦ (pk, a) ∷ rest ]

  -- `let _ = ctx.write_account(..)`.
  unfoldable pub write_or_keep : Ctx → Pubkey → Account → Ctx
  write_or_keep ctx pk acct = elim (write_account ctx pk acct) [ none ↦ ctx | some c ↦ c ]

  unfoldable pub restore_accounts : Ctx → List (Pubkey × Account) → Ctx
  restore_accounts ctx [] = ctx
  restore_accounts ctx ((pk, acct) ∷ saves) = restore_accounts (write_or_keep ctx pk acct) saves

  unfoldable pub hash_accounts : List (Pubkey × Account) → ℕ
  hash_accounts saves = finish (saved_bytes saves)

  unfoldable pub hash_accounts_now : Ctx → List Pubkey → ℕ
  hash_accounts_now ctx pks = hash_accounts (save_accounts ctx pks)

  abbrev pub inert_account : Account
  inert_account = record {
    lamports = 0;
    contents = [];
    owner = 0;
    executable = false;
    rent_epoch = 0;
  }

  unfoldable pub cleanup_temp_account : Ctx → Pubkey → Ctx
  cleanup_temp_account ctx pk = write_or_keep ctx pk inert_account

  -- `format!("{program_id}:{ix_name}")`.
  unfoldable pub reached_key : Pubkey → Text → Text
  reached_key program_id ix_name = show_key program_id ++ (codes ":" ++ ix_name)
