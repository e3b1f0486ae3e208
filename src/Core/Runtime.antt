-- ===== src/Core/Runtime.antt =====
-- What the detectors use of code outside the repository: Crucible's `TestContext`, the derivations
-- and the text form of `solana_pubkey`, and the standard hasher. It is a parameter of the model.
use solinv.Base.{
  if◌then◌else◌, ◌==◌, Bytes, Text, ℕ, ◌≡◌, ◌≢◌, Option, none, some, List, ℕ_eq, list_eq, option_eq,
}
use solinv.Solana.{Pubkey, Account, Instruction, TxOutcome}

pub record Runtime : Type 1 where
  pub Ctx : Type 0
  -- `get_account(&pk).ok()`.
  pub get_account : Ctx → Pubkey → Option Account
  -- `write_account(&pk, account)`; `none` is an `Err`, which leaves the context as it was.
  pub write_account : Ctx → Pubkey → Account → Option Ctx
  -- `raw_call(ix).fee_payer(payer).signers(keys).send()`; `none` is an `Err`.
  pub send : Ctx → Instruction → Pubkey → List Pubkey → Option TxOutcome × Ctx
  pub slot : Ctx → ℕ
  -- `Pubkey::new_unique()`, whose counter stands in the context here.
  pub new_unique : Ctx → Pubkey × Ctx
  pub find_program_address : List Bytes → Pubkey → Pubkey × ℕ
  pub create_program_address : List Bytes → Pubkey → Option Pubkey
  -- `DefaultHasher` over the bytes written to it.
  pub finish : Bytes → ℕ
  pub show_key : Pubkey → Text
  -- `parse::<Pubkey>().ok()`.
  pub parse_key : Text → Option Pubkey

-- What the documentation of `write_account` and `get_account` says: after a write that succeeds, a read
-- of the account that was written returns it, and other accounts are as they were.
pub record StoresAccounts (rt : Runtime) : Type 0 where
  pub written :
      (c c' : rt.Ctx) (p : Pubkey) (a : Account)
      → rt.write_account c p a ≡ some c'
      → (q : Pubkey) → rt.get_account c' q ≡ (if p == q then some a else rt.get_account c q)

-- No context refuses to have the account written at the key.
abbrev pub IsTaken : (rt : Runtime) → Pubkey → Account → Type 0
IsTaken rt q a = (c : rt.Ctx) → rt.write_account c q a ≢ none
