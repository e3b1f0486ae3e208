-- ===== src/Tests/Static.antt =====
-- The theorems on the comparison of IDLs.
use solinv.Base.{
  get_elem?, any, All, Text, codes, ◌≡◌, refl, Bool, true, false, Option, none, some, List, [], ◌∷◌,
}
use solinv.Static.Idl.{
  account_seed, IdlPda, IdlAccount, composite, single, IdlAccountItems, no_items, more_items,
  IdlInstruction, Idl, walk_items, flat_accounts, path_of,
}
use solinv.Static.IdlDiff.{flat, find_slot, Sides, diff_ix}
use solinv.Static.IdlDiff.Whole.{paths_of, diff_idl}
use solinv.Static.IdlDiff.SameSlots.{distinct}
use solinv.Static.IdlDiff.Same.{diff_idl_self}
use solinv.Static.IdlDiff.Losses.{is_regression_at, lost_check-regresses}
use solinv.Static.IdlDiff.Regressions.{is_regression, IsSure, diff_ix-regressions}

abbrev slot_named : Text → Bool → Option IdlPda → List Text → IdlAccount
slot_named name signs pda relations = record {
  name = name;
  writable = true;
  signer = signs;
  optional = false;
  address = none;
  pda = pda;
  relations = relations;
}

abbrev vault_seeds : IdlPda
vault_seeds = record { seeds = account_seed (codes "owner") none ∷ []; program = none }

abbrev items : Bool → IdlAccountItems
items signs = more_items (single (slot_named (codes "vault") false (some vault_seeds) [])) (
    more_items
      (composite (codes "group")
        (more_items (single (slot_named (codes "owner") signs none (codes "vault" ∷ []))) no_items))
      no_items)

abbrev withdraw_ix : Bool → IdlInstruction
withdraw_ix signs = record {
  name = codes "withdraw";
  discriminator = 1 ∷ 2 ∷ [];
  accounts = items signs;
  args = [];
}

abbrev program_idl : Idl
program_idl = record {
  address = [];
  instructions = withdraw_ix true ∷ [];
  accounts = [];
  legacy = false;
}

paths_once : distinct (paths_of (withdraw_ix true)) ≡ true
unfolding flat flat_accounts walk_items path_of
paths_once = refl

diff_idl_self_example : diff_idl program_idl program_idl ≡ []
diff_idl_self_example = diff_idl_self program_idl refl (paths_once, tt)

abbrev named_sides : Sides
named_sides = record {
  guessed = false;
  resolved = true;
  legacy_base = false;
  legacy_head = false;
  ix = codes "withdraw";
}

abbrev owner : Bool → IdlAccount
owner signs = slot_named (codes "owner") signs none (codes "vault" ∷ [])

at_owner : get_elem? (flat (withdraw_ix true)) 1 ≡ some (codes "group.owner", owner true)
unfolding flat flat_accounts walk_items path_of
at_owner = refl

found_owner : find_slot (flat (withdraw_ix false)) (codes "group.owner") ≡ some (owner false)
unfolding find_slot flat flat_accounts walk_items path_of
found_owner = refl

lost_check-regresses_example :
    any
      (is_regression_at (codes "group.owner"))
      (diff_ix (withdraw_ix true) (withdraw_ix false) named_sides)
    ≡ true
lost_check-regresses_example =
    lost_check-regresses (withdraw_ix true) (withdraw_ix false) named_sides 1 (codes "group.owner")
      (owner true) (owner false) refl at_owner found_owner refl

diff_ix-regressions_example :
    All
      (λ c.
        is_regression c ≡ true
        → IsSure (flat (withdraw_ix true)) (flat (withdraw_ix false)) named_sides c)
      (diff_ix (withdraw_ix true) (withdraw_ix false) named_sides)
diff_ix-regressions_example = diff_ix-regressions (withdraw_ix true) (withdraw_ix false) named_sides
