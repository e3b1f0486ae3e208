-- ===== src/Fuzz/IdlSpec/Build.antt =====
-- idl.rs: `build` of a builder.
pub mod Shape
use solinv.Base.{
  ltb, nat_eq, if◌then◌else◌, is_some, length, get_elem?, filter, concat_map, Result, ok, err,
  and_then, ok_or, Bytes, Text, codes, le_bytes, look_up, ℕ, ◌+◌, Bool, not, ◌&&◌, Option, none,
  some, List, [], ◌∷◌, ◌++◌, map,
}
use solinv.Solana.{Pubkey, Keypair, AccountMeta}
use solinv.Static.Idl.{
  IdlSeed, const_seed, account_seed, arg_seed, IdlPda, IdlAccountType, FlatAccount, flat_accounts,
  path_of,
}
use solinv.Fuzz.Capability.{InstructionSpec}
use solinv.Fuzz.IdlSpec.Slots.{
  IdlError, missing_accounts, missing_signers, bad_address, Keys, SpecBuilder, seed_slot, SlotKey,
  own_key, default_key, no_key, bad_key, bound, is_omitted, slot_key,
}

pub record Unresolved : Type 0 where
  pub account : Option Text
  pub what : Text

pub data CandidateKind : Type 0 where
  owner_lead discriminator_lead pda_seeds_lead signer_lead : CandidateKind

pub record Candidate : Type 0 where
  pub account : Text
  pub what : CandidateKind

pub record IdlSpec : Type 0 where
  pub spec : InstructionSpec
  pub account_discs : List Bytes
  pub names : List Text
  pub idl_seeded : List Bool
  pub omitted : List Bool
  pub keypairs : List (Option Keypair)
  pub pda_patterns : List (Text × List IdlSeed)
  pub arg_seeds : List (Text × Bytes)
  pub unresolved : List Unresolved
  pub candidates : List Candidate
  pub defaulted : List (Text × Pubkey)

-- The keys of the slots, with the slots that have none and those that have a well-known one.
pub record Resolved : Type 0 where
  pub pubkeys : List Pubkey
  pub missing : List Text
  pub defaulted : List (Text × Pubkey)

abbrev pub key_bytes : Pubkey → Bytes
key_bytes pk = le_bytes 32 pk

-- The key of the slot at a place, which is one of the slots'.
abbrev pub key_at : List Pubkey → ℕ → Pubkey
key_at pubkeys i = elim (get_elem? pubkeys i) [ none ↦ 0 | some pk ↦ pk ]

abbrev pub alternates_note : Unresolved
alternates_note = record {
  account = none;
  what = codes "swap_alternates: name a second, legitimate account per context-bound slot";
}

-- One result from a list of them: the first error, or all values.
unfoldable pub collect {ℓ κ} : {E : Type ℓ} {A : Type κ} → List (Result E A) → Result E (List A)
collect [] = ok []
collect (r ∷ rs) = and_then r (λ a. and_then (collect rs) (λ found. ok (a ∷ found)))

module _ (keys : Keys) (b : SpecBuilder) where
  -- One round of the loop, with what the later slots give: an address that does not parse ends it.
  unfoldable pub resolve_step : Text → SlotKey → Result IdlError Resolved → Result IdlError Resolved
  resolve_step path (bad_key addr) later = err (bad_address path addr)
  resolve_step path (own_key pk) later =
      and_then later (λ r. ok (record r { pubkeys = pk ∷ r.pubkeys }))
  resolve_step path (default_key pk) later =
      and_then later
        (λ r. ok (record r { pubkeys = pk ∷ r.pubkeys; defaulted = (path, pk) ∷ r.defaulted }))
  resolve_step path no_key later =
      and_then later (λ r. ok (record r { pubkeys = 0 ∷ r.pubkeys; missing = path ∷ r.missing }))

  unfoldable pub resolve_all : List FlatAccount → Result IdlError Resolved
  unfolding slot_key resolve_step path_of
  resolve_all [] = ok (record { pubkeys = []; missing = []; defaulted = [] })
  resolve_all (f ∷ fs) = resolve_step (path_of f) (slot_key keys b f) (resolve_all fs)

  unfoldable pub signs_slot : FlatAccount → Bool
  unfolding is_omitted
  signs_slot f = f.account.signer && not (is_omitted keys b f)

  unfoldable pub missing_signers_of : List FlatAccount → List Text
  unfolding signs_slot bound path_of
  missing_signers_of flat =
      map path_of (filter (λ f. signs_slot f && not (is_some (bound keys b b.signers f))) flat)

  unfoldable pub meta_of : FlatAccount → Pubkey → AccountMeta
  unfolding signs_slot is_omitted
  meta_of f pk = record {
    pubkey = pk;
    is_signer = signs_slot f;
    is_writable = f.account.writable && not (is_omitted keys b f);
  }

  unfoldable pub metas : List FlatAccount → List Pubkey → List AccountMeta
  unfolding meta_of
  metas [] pubkeys = []
  metas (f ∷ fs) [] = []
  metas (f ∷ fs) (pk ∷ pubkeys) = meta_of f pk ∷ metas fs pubkeys

  -- The places of the slots that sign, from `i` on, and their keypairs.
  unfoldable pub signer_places : ℕ → List FlatAccount → List ℕ
  unfolding signs_slot
  signer_places i [] = []
  signer_places i (f ∷ fs) =
      let rest = signer_places (i + 1) fs in if signs_slot f then i ∷ rest else rest

  -- The source unwraps the keypair of every slot that signs; one missing has been refused before.
  unfoldable pub signer_keys : List FlatAccount → List Keypair
  unfolding signs_slot bound
  signer_keys [] = []
  signer_keys (f ∷ fs) =
      let rest = signer_keys fs in
      if signs_slot f
      then (elim (bound keys b b.signers f) [ none ↦ rest | some kp ↦ kp ∷ rest ])
      else rest

  unfoldable pub resolve_seed : List Text → List Pubkey → Text → IdlSeed → Result Text Bytes
  unfolding seed_slot look_up
  resolve_seed paths pubkeys prefix (const_seed value) = ok value
  resolve_seed paths pubkeys prefix (account_seed path account) =
      and_then (seed_slot paths prefix path) (λ j. ok (key_bytes (key_at pubkeys j)))
  resolve_seed paths pubkeys prefix (arg_seed path) =
      ok_or (codes "bind arg seed `" ++ (path ++ codes "` with .seed_arg()"))
        (look_up b.arg_seeds path)

  unfoldable pub resolve_seeds : IdlPda → List Text → List Pubkey → Text → Result Text (List Bytes)
  unfolding collect resolve_seed
  resolve_seeds pda paths pubkeys prefix =
      if is_some pda.program
      then err (codes "derived under another program; pda-forge checks this program only")
      else collect (map (resolve_seed paths pubkeys prefix) pda.seeds)

  -- The seeds of a slot that has some and is not left out.
  unfoldable pub slot_seeds :
      List Text → List Pubkey → FlatAccount → Option (Result Text (List Bytes))
  unfolding resolve_seeds is_omitted
  slot_seeds paths pubkeys f = elim f.account.pda [
    | none ↦ none
    | some pda ↦
        if is_omitted keys b f then none else some (resolve_seeds pda paths pubkeys f.prefix)
  ]

  abbrev pub seeds_found : Option (Result Text (List Bytes)) → Option (List Bytes)
  seeds_found none = none
  seeds_found (some (ok seeds)) = some seeds
  seeds_found (some (err why)) = none

  abbrev pub seeds_note : Text → Option (Result Text (List Bytes)) → List Unresolved
  seeds_note path none = []
  seeds_note path (some (ok seeds)) = []
  seeds_note path (some (err why)) =
      record { account = some path; what = codes "pda seeds: " ++ why } ∷ []

  unfoldable pub address_note : List Unresolved
  address_note = elim (keys.parse_key b.idl.address) [
    | none ↦ []
    | some idl_id ↦
        if nat_eq idl_id b.program_id
        then []
        else record {
          account = none;
          what =
              codes "the IDL's address is "
              ++ (keys.show_key idl_id
                  ++ (codes " but the spec targets "
                      ++ (keys.show_key b.program_id
                          ++ codes
                              ": the loaded .so must declare_id! the latter, or Anchor rejects every instruction with DeclaredProgramIdMismatch (4100) — usually a .so built with different features (mainnet/devnet) than the IDL")));
        }
          ∷ []
  ]

  -- The seeds of every slot of the program that its own addresses are derived from.
  unfoldable pub patterns : List FlatAccount → List (Text × List IdlSeed)
  patterns [] = []
  patterns (f ∷ fs) =
      let rest = patterns fs in
      elim f.account.pda [
        | none ↦ rest
        | some pda ↦ if is_some pda.program then rest else (f.prefix, pda.seeds) ∷ rest
      ]

  abbrev pub unset {ℓ} : {A : Type ℓ} → A → List FlatAccount → List A
  unset a flat = map (λ f. a) flat

  unfoldable pub spec_of : List FlatAccount → List Pubkey → InstructionSpec
  unfolding metas signer_places signer_keys slot_seeds path_of
  spec_of flat pubkeys = record {
    program_id = b.program_id;
    name = b.ix.name;
    accounts = metas flat pubkeys;
    signer_indices = signer_places 0 flat;
    optional_signer_indices = [];
    expected_owners = unset none flat;
    expected_discriminators = unset none flat;
    expected_pda_seeds = map (λ f. seeds_found (slot_seeds (map path_of flat) pubkeys f)) flat;
    creates_indices = [];
    swap_alternates = unset [] flat;
    data_sample = b.ix.discriminator ++ b.args;
    signers = signer_keys flat;
    state_invariants = [];
    cu_budget = none;
    cpi_reentrancy = none;
    realloc_check = none;
    bump_seed_check = none;
    guards = [];
  }

  unfoldable pub built : List FlatAccount → Resolved → IdlSpec
  unfolding spec_of slot_seeds address_note patterns is_omitted signs_slot bound path_of
  built flat r = record {
    spec = spec_of flat r.pubkeys;
    account_discs = map (λ (a : IdlAccountType). a.discriminator) b.idl.accounts;
    names = map path_of flat;
    idl_seeded = map (λ (f : FlatAccount). is_some f.account.pda) flat;
    omitted = map (is_omitted keys b) flat;
    keypairs = map (λ f. if signs_slot f then none else bound keys b b.signers f) flat;
    pda_patterns = patterns (concat_map flat_accounts b.idl.instructions);
    arg_seeds = b.arg_seeds;
    unresolved =
        alternates_note
        ∷ (address_note
            ++ concat_map (λ f. seeds_note (path_of f) (slot_seeds (map path_of flat) r.pubkeys f))
                flat);
    candidates = [];
    defaulted = r.defaulted;
  }

  -- Once the slots have their keys: what is not bound is an error.
  unfoldable pub finish : List FlatAccount → Resolved → Result IdlError IdlSpec
  unfolding missing_signers_of built
  finish flat r =
      if ltb 0 (length r.missing)
      then err (missing_accounts b.ix.name r.missing)
      else if ltb 0 (length (missing_signers_of flat))
      then err (missing_signers b.ix.name (missing_signers_of flat))
      else ok (built flat r)

  unfoldable pub build : Result IdlError IdlSpec
  unfolding resolve_all finish flat_accounts
  build = let flat = flat_accounts b.ix in and_then (resolve_all flat) (finish flat)
