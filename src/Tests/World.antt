-- ===== src/Tests/World.antt =====
-- A runtime over an account store, with the program as a function, and an instruction to send.
use solinv.Base.{
  if◌then◌else◌, ◌==◌, Bytes, codes, le_bytes, from_le, show, parse_unsigned, ℕ, ◌+◌, ◌^◌, ◌≡◌, ap,
  Bool, true, false, Option, none, some, List, [], ◌∷◌, ◌++◌, arith, ℕ_eq, list_eq, option_eq,
}
use solinv.Solana.{
  Pubkey, Account, AccountMeta, Instruction, insufficient_funds_for_rent, TxOutcome, success,
  program_error,
}
use solinv.Fuzz.Capability.{InstructionSpec}
use solinv.Core.Runtime.{Runtime, StoresAccounts}
use solinv.Core.Process.{Process}

abbrev pub Store : Type 0
Store = List (Pubkey × Account)

abbrev pub lookup : Store → Pubkey → Option Account
lookup [] q = none
lookup ((p, a) ∷ s) q = if p == q then some a else lookup s q

abbrev pub Program : Type 0
Program = Store → Instruction → Option TxOutcome × Store

-- Executable accounts cannot be written. Fresh keys count up from 1000, a derived address is the sum of
-- the program's key and of its seeds taken as numbers, and the hash of bytes is their value in
-- little-endian order.
abbrev pub seeds_value : List Bytes → ℕ
seeds_value [] = 0
seeds_value (s ∷ ss) = from_le s + seeds_value ss

abbrev pub runtime : Program → Runtime
runtime program = record {
  Ctx = Store × ℕ;
  get_account = λ c p. lookup c.0 p;
  write_account = λ c p a. if a.executable then none else some ((p, a) ∷ c.0, c.1);
  send = λ c ix payer keys. ((program c.0 ix).0, ((program c.0 ix).1, c.1));
  slot = λ c. 7;
  new_unique = λ c. (1000 + c.1, (c.0, c.1 + 1));
  find_program_address = λ seeds pid. (pid + seeds_value seeds + 3, 3);
  create_program_address = λ seeds pid. some (pid + seeds_value seeds);
  finish = from_le;
  show_key = show;
  parse_key = parse_unsigned (2 ^ 256);
}

pub accepted_write :
    (refused : Bool) (x c : Store × ℕ) → (if refused then none else some x) ≡ some c → c ≡ x
accepted_write true x c e = absurd (ground (arith, e))
accepted_write false x c e = cc e

abbrev pub runtime_stores : (program : Program) → StoresAccounts (runtime program)
runtime_stores program = record {
  written = λ c c' p a e q.
      ap (λ (x : Store × ℕ). lookup x.0 q) (accepted_write a.executable ((p, a) ∷ c.0, c.1) c' e);
}

-- A vault holding its total in the 8 bytes behind a discriminator.
abbrev pub vault : ℕ → Account
vault total = record {
  lamports = 10000000;
  contents = le_bytes 8 11 ++ le_bytes 8 total;
  owner = 50;
  executable = false;
  rent_epoch = 0;
}

abbrev pub meta : Pubkey → Bool → AccountMeta
meta pk signs = record { pubkey = pk; is_signer = signs; is_writable = true }

abbrev pub withdraw : InstructionSpec
withdraw = record {
  program_id = 50;
  name = codes "withdraw";
  accounts = meta 1 false ∷ meta 2 true ∷ [];
  signer_indices = 1 ∷ [];
  optional_signer_indices = [];
  expected_owners = none ∷ none ∷ [];
  expected_discriminators = none ∷ none ∷ [];
  expected_pda_seeds = none ∷ none ∷ [];
  creates_indices = [];
  swap_alternates = (3 ∷ []) ∷ [];
  data_sample = 9 ∷ 9 ∷ [];
  signers = 2 ∷ [];
  state_invariants = [];
  cu_budget = some 100;
  cpi_reentrancy = none;
  realloc_check = none;
  bump_seed_check = none;
  guards = [];
}

abbrev pub payer : Pubkey
payer = 90

abbrev pub process : (program : Program) → Process (runtime program).Ctx
process program = record {
  ctx = ((1, vault 5) ∷ (2, vault 0) ∷ (3, vault 8) ∷ [], 0);
  reached = [];
  fingerprints = [];
  warnings = [];
  violations = [];
}

-- Takes two from the vault of key 1.
abbrev pub draining : Program
draining s ix = (some (success [] 120), (1, vault 3) ∷ s)

abbrev pub refusing : Program
refusing s ix = (some (program_error [] (insufficient_funds_for_rent 0) none), s)
