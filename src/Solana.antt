-- ===== src/Solana.antt =====
-- The plain structs of the Solana crates that the source builds and reads, with the fields it names.
-- A `Pubkey` is its 32 bytes read as one little-endian number, and a `Keypair` is known by the public
-- key that `pubkey()` returns, which is all that the source asks of it.
use solinv.Base.{Bytes, Text, ℕ, Bool, Option, List}

abbrev pub Pubkey : Type 0
Pubkey = ℕ

abbrev pub Keypair : Type 0
Keypair = Pubkey

-- `solana_account::Account`.
pub record Account : Type 0 where
  pub lamports : ℕ
  pub contents : Bytes
  pub owner : Pubkey
  pub executable : Bool
  pub rent_epoch : ℕ

-- `solana_instruction::AccountMeta`.
pub record AccountMeta : Type 0 where
  pub pubkey : Pubkey
  pub is_signer : Bool
  pub is_writable : Bool

-- `solana_instruction::Instruction`.
pub record Instruction : Type 0 where
  pub program_id : Pubkey
  pub accounts : List AccountMeta
  pub payload : Bytes

-- `solana_transaction_error::TransactionError`, apart from the variant that the source names.
pub data TransactionError : Type 0 where
  insufficient_funds_for_rent : ℕ → TransactionError
  other_error : ℕ → TransactionError

-- `crucible_test_context::TxOutcome`, with the fields that the source reads.
pub data TxOutcome : Type 0 where
  success : List Text → ℕ → TxOutcome
  -- The logs, the error, and the custom code where there is one.
  program_error : List Text → TransactionError → Option ℕ → TxOutcome
