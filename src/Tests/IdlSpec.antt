-- ===== src/Tests/IdlSpec.antt =====
-- The theorems on the specification that is built from an IDL.
use solinv.Base.{
  nat_eq, if◌then◌else◌, ◌==◌, length, ok, Text, codes, le_bytes, look_up, ◌+◌, ◌≡◌, refl, Bool,
  true, false, Option, none, some, List, [], ◌∷◌, ℕ_eq, list_eq, option_eq,
}
use solinv.Solana.{Pubkey, Account}
use solinv.Static.Idl.{
  account_seed, IdlPda, IdlAccount, single, IdlAccountItems, no_items, more_items, IdlInstruction,
  FlatAccount, walk_items, flat_accounts, path_of,
}
use solinv.Fuzz.IdlSpec.Slots.{Keys, SpecBuilder, bound, is_omitted, slot_key}
use solinv.Fuzz.IdlSpec.Build.{
  owner_lead, signer_lead, IdlSpec, resolve_step, resolve_all, signs_slot, missing_signers_of,
  slot_seeds, address_note, patterns, spec_of, built, finish, build,
}
use solinv.Fuzz.IdlSpec.Build.Shape.{Shaped}
use solinv.Fuzz.IdlSpec.Infer.{value_at, infer_from_state}
use solinv.Fuzz.IdlSpec.Candidates.{infer_candidates}
use solinv.Fuzz.IdlSpec.Candidates.Keeps.{inferred-Shaped}
use solinv.Fuzz.IdlSpec.Candidates.Facts.{Expects, infer_candidates-Expects}

-- One key has a text, and seeds derive their number more than the program.
abbrev plain_keys : Keys
plain_keys = record {
  parse_key = λ t. if t == codes "7" then some 7 else none;
  show_key = λ k. codes "key";
  find_program_address = λ seeds program. length seeds + program;
}

abbrev slot_of_idl : Text → Bool → Option IdlPda → IdlAccount
slot_of_idl name signs pda = record {
  name = name;
  writable = true;
  signer = signs;
  optional = false;
  address = none;
  pda = pda;
  relations = [];
}

abbrev owner_seeds : IdlPda
owner_seeds = record { seeds = account_seed (codes "owner") none ∷ []; program = none }

abbrev pay_items : Bool → IdlAccountItems
pay_items signs = more_items (single (slot_of_idl (codes "vault") false (some owner_seeds))) (
    more_items (single (slot_of_idl (codes "owner") signs none))
      (more_items (single (slot_of_idl (codes "book") false none)) no_items))

abbrev pay_builder : Bool → SpecBuilder
pay_builder signs =
    let ix : IdlInstruction = record {
      name = codes "pay";
      discriminator = 1 ∷ [];
      accounts = pay_items signs;
      args = [];
    } in
    record {
      idl = record {
        address = codes "7";
        instructions = ix ∷ [];
        accounts = record { name = codes "Vault"; discriminator = 5 ∷ [] } ∷ [];
        legacy = false;
      };
      ix = ix;
      program_id = 9;
      accounts = (codes "vault", 10) ∷ ((codes "owner", 3) ∷ ((codes "book", 4) ∷ []));
      signers = (codes "owner", 3) ∷ [];
      arg_seeds = [];
      args = 8 ∷ [];
    }

abbrev pay_slots : Bool → List FlatAccount
unfolding flat_accounts walk_items
pay_slots signs = flat_accounts (pay_builder signs).ix

abbrev pay_spec : Bool → IdlSpec
unfolding built spec_of slot_seeds address_note patterns is_omitted signs_slot bound path_of
pay_spec signs =
    built plain_keys (pay_builder signs) (pay_slots signs)
      (record { pubkeys = 10 ∷ (3 ∷ (4 ∷ [])); missing = []; defaulted = [] })

pay_built : (signs : Bool) → build plain_keys (pay_builder signs) ≡ ok (pay_spec signs)
unfolding build resolve_all finish flat_accounts walk_items slot_key bound is_omitted resolve_step
    missing_signers_of signs_slot path_of look_up
pay_built true = refl
pay_built false = refl

-- The vault and the book are the program's, and the book stores the owner's key.
abbrev accounts_held : Pubkey → Option Account
accounts_held key =
    if nat_eq key 3
    then none
    else some (record {
      lamports = 1;
      contents = 5 ∷ le_bytes 32 3;
      owner = 9;
      executable = false;
      rent_epoch = 0;
    })

abbrev after_facts : IdlSpec
after_facts = infer_from_state accounts_held (pay_spec false)

inferred-Shaped_example :
    Shaped (length (pay_slots false)) (infer_candidates plain_keys accounts_held after_facts)
unfolding pay_slots flat_accounts
inferred-Shaped_example =
    inferred-Shaped plain_keys accounts_held (pay_builder false) (pay_spec false) (pay_built false)

infer_candidates-Expects_example :
    Expects 0
      (some 9)
      (value_at after_facts.spec.expected_discriminators 0)
      (value_at after_facts.spec.expected_pda_seeds 0)
      (infer_candidates plain_keys accounts_held after_facts)
unfolding infer_from_state pay_spec
infer_candidates-Expects_example =
    infer_candidates-Expects plain_keys accounts_held after_facts 0 9 refl

-- The leads are the book's owner and the signature of the owner slot.
leads :
    (infer_candidates plain_keys accounts_held after_facts).candidates
    ≡ record { account = codes "book"; what = owner_lead }
      ∷ (record { account = codes "owner"; what = signer_lead } ∷ [])
unfolding infer_candidates infer_from_state pay_spec le_bytes
leads = refl
