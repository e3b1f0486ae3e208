-- ===== src/Fuzz/Capability.antt =====
-- crates/solinv-fuzz/src/capability.rs: the specification of an instruction, which drives every
-- detector.
use solinv.Base.{ℕ, List, Option, Bytes, Text}
use solinv.Solana.{Pubkey, Keypair, AccountMeta, Instruction}
use solinv.Fuzz.Relation.{StateInvariant}
use solinv.Fuzz.Guard.{GuardCondition}

pub record CpiReentrancyConfig : Type 0 where
  pub allowlist : List Pubkey

-- The source's struct has no field yet.
pub data ReallocCheckConfig : Type 0 where
  default : ReallocCheckConfig

pub record BumpSeedCheckConfig : Type 0 where
  pub bump_data_offset : Option ℕ

pub record InstructionSpec : Type 0 where
  pub program_id : Pubkey
  pub name : Text
  pub accounts : List AccountMeta
  pub signer_indices : List ℕ
  pub optional_signer_indices : List ℕ
  pub expected_owners : List (Option Pubkey)
  pub expected_discriminators : List (Option Bytes)
  pub expected_pda_seeds : List (Option (List Bytes))
  pub creates_indices : List ℕ
  pub swap_alternates : List (List Pubkey)
  pub data_sample : Bytes
  pub signers : List Keypair
  pub state_invariants : List StateInvariant
  pub cu_budget : Option ℕ
  pub cpi_reentrancy : Option CpiReentrancyConfig
  pub realloc_check : Option ReallocCheckConfig
  pub bump_seed_check : Option BumpSeedCheckConfig
  pub guards : List GuardCondition

unfoldable pub to_instruction : InstructionSpec → Instruction
to_instruction spec = record {
  program_id = spec.program_id;
  accounts = spec.accounts;
  payload = spec.data_sample;
}
