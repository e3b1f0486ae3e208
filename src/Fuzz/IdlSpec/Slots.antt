-- ===== src/Fuzz/IdlSpec/Slots.antt =====
-- idl.rs: the bindings of a builder, and the account in each slot.
use solinv.Base.{
  nat_eq, if◌then◌else◌, is_some, or_else, ◌>>=◌, ◌==◌, find, count, Result, ok, and_then, ok_or,
  Bytes, Text, codes, look_up, rsplit_once, is_empty_text, ℕ, ◌+◌, Bool, not, ◌&&◌, Option, none,
  some, List, [], ◌∷◌, ◌++◌, ℕ_eq, list_eq, option_eq,
}
use solinv.Solana.{Pubkey, Keypair}
use solinv.Static.Idl.{IdlInstruction, Idl, FlatAccount, flat_accounts, path_of}

-- `Parse` is the reader's, which is not modelled.
pub data IdlError : Type 0 where
  unknown_instruction : Text → IdlError
  missing_accounts missing_signers : Text → List Text → IdlError
  bad_address : Text → Text → IdlError

-- `Pubkey` of the Solana crates: its text, both ways, and the address that seeds derive.
pub record Keys : Type 0 where
  pub parse_key : Text → Option Pubkey
  pub show_key : Pubkey → Text
  pub find_program_address : List Bytes → Pubkey → Pubkey

pub record SpecBuilder : Type 0 where
  pub idl : Idl
  pub ix : IdlInstruction
  pub program_id : Pubkey
  pub accounts : List (Text × Pubkey)
  pub signers : List (Text × Keypair)
  pub arg_seeds : List (Text × Bytes)
  pub args : Bytes

unfoldable pub instruction : Idl → Text → Result IdlError IdlInstruction
instruction idl name =
    ok_or (unknown_instruction name)
      (find (λ (ix : IdlInstruction). ix.name == name) idl.instructions)

unfoldable pub start_spec : Idl → Text → Pubkey → Result IdlError SpecBuilder
unfolding instruction
start_spec idl ix_name program_id = and_then (instruction idl ix_name) (λ ix. ok (record {
  idl = idl;
  ix = ix;
  program_id = program_id;
  accounts = [];
  signers = [];
  arg_seeds = [];
  args = [];
}))

-- `account`, `signer`, `args` and `seed_arg` of a builder.
unfoldable pub bind_account : Text → Pubkey → SpecBuilder → SpecBuilder
bind_account name pubkey b = record b { accounts = (name, pubkey) ∷ b.accounts }

unfoldable pub bind_signer : Text → Keypair → SpecBuilder → SpecBuilder
bind_signer name keypair b = record b {
  accounts = (name, keypair) ∷ b.accounts;
  signers = (name, keypair) ∷ b.signers;
}

unfoldable pub with_args : Bytes → SpecBuilder → SpecBuilder
with_args bytes b = record b { args = bytes }

unfoldable pub seed_arg : Text → Bytes → SpecBuilder → SpecBuilder
seed_arg path bytes b = record b { arg_seeds = (path, bytes) ∷ b.arg_seeds }

abbrev pub is_leaf : Text → Text → Bool
is_leaf name path = elim (rsplit_once b'.' path) [
  | none ↦ path == name
  | some (prefix, last) ↦ last == name
]

-- The places of the paths that pass, from `i` on.
unfoldable pub places : (Text → Bool) → ℕ → List Text → List ℕ
places p i [] = []
places p i (t ∷ ts) = let rest = places p (i + 1) ts in if p t then i ∷ rest else rest

abbrev pub first_of : List ℕ → Option ℕ
first_of [] = none
first_of (i ∷ is) = some i

abbrev pub only_one : List ℕ → Option ℕ
only_one [] = none
only_one (i ∷ []) = some i
only_one (i ∷ j ∷ is) = none

-- A slot by its whole path, or by a last component that no other slot has.
unfoldable pub slot_of : List Text → Text → Option ℕ
unfolding places
slot_of paths name =
    or_else (first_of (places (λ p. p == name) 0 paths)) (only_one (places (is_leaf name) 0 paths))

-- The slot that a seed reads, first beside the seeded one.
unfoldable pub seed_slot : List Text → Text → Text → Result Text ℕ
unfolding slot_of
seed_slot paths prefix path = ok_or (codes "seed reads account data `" ++ (path ++ codes "`")) (
    or_else (if is_empty_text prefix then none else slot_of paths (prefix ++ (codes "." ++ path)))
      (slot_of paths path))

-- What is found for a slot: `default_key` is a well-known program's.
pub data SlotKey : Type 0 where
  own_key default_key : Pubkey → SlotKey
  no_key : SlotKey
  bad_key : Text → SlotKey

module _ (keys : Keys) where
  abbrev pub well_known_keys : List (Text × Text)
  well_known_keys =
      (codes "system_program", codes "11111111111111111111111111111111")
      ∷ ((codes "associated_token_program", codes "ATokenGPvbdGVxr1b2hvZbsiqW5xWH25efTNsLJA8knL")
          ∷ [])

  unfoldable pub well_known : Text → Option Pubkey
  unfolding look_up
  well_known name = look_up well_known_keys name >>= keys.parse_key

  module _ (b : SpecBuilder) where
    -- A binding by the slot's path, or by its name where no other slot has it.
    unfoldable pub bound {ℓ} : {A : Type ℓ} → List (Text × A) → FlatAccount → Option A
    unfolding look_up flat_accounts path_of
    bound m f = or_else (look_up m (path_of f)) (
        if nat_eq
          (count (λ (g : FlatAccount). g.account.name == f.account.name) (flat_accounts b.ix)) 1
        then look_up m f.account.name
        else none)

    -- An optional slot that is not bound is left out.
    unfoldable pub is_omitted : FlatAccount → Bool
    unfolding bound
    is_omitted f = f.account.optional && not (is_some (bound b.accounts f))

    unfoldable pub slot_key : FlatAccount → SlotKey
    unfolding bound is_omitted well_known
    slot_key f = elim (bound b.accounts f) [
      | some pk ↦ own_key pk
      | none ↦ elim f.account.address [
        | some addr ↦ elim (keys.parse_key addr) [ some pk ↦ own_key pk | none ↦ bad_key addr ]
        | none ↦
            if is_omitted f
            then own_key b.program_id
            else elim (well_known f.account.name) [ some pk ↦ default_key pk | none ↦ no_key ]
      ]
    ]
