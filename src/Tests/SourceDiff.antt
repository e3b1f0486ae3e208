-- ===== src/Tests/SourceDiff.antt =====
-- The theorems on the comparison of sources.
use solinv.Base.{
  leb, any, contains, Text, codes, look_up, rsplit_once, words, ℕ, ◌≡◌, refl, Bool, true, false,
  ◌&&◌, ◌||◌, Option, none, some, List, [], ◌∷◌, map, arith, ℕ_eq, list_eq, option_eq,
}
use solinv.Static.Change.{regression, Change}
use solinv.Static.Source.{SlotKind, unchecked, typed, Attrs, Slot, SourceKinds, slot_at, ix_names}
use solinv.Static.Source.Clauses.{clauses_step, clauses}
use solinv.Static.Source.Clauses.Enough.{clauses-clauses_step}
use solinv.Static.SourceDiff.Checks.{signs}
use solinv.Static.SourceDiff.Keys.{TextTools}
use solinv.Static.SourceDiff.Slots.{Compared}
use solinv.Static.SourceDiff.Constraints.{slot_changes}
use solinv.Static.SourceDiff.Constraints.Lost.{no_type, is_regression_at}
use solinv.Static.SourceDiff.Constraints.Kept.{Keeps, slot_changes-Keeps}
use solinv.Static.SourceDiff.Renamed.{settle, scored_pairs, renamed, name_in_head}
use solinv.Static.SourceDiff.Renamed.Pairs.{name_in_head-injective}
use solinv.Static.SourceDiff.Whole.{diff}
use solinv.Static.SourceDiff.Whole.Same.{IsMap, diff_self}
use solinv.Static.SourceDiff.Whole.Lost.{compared, diff-Loss}
use solinv.Static.SourceDiff.Render.{is_regression, render_github}
use solinv.Static.SourceDiff.Render.Lines.{line_ends, line_ends-render_github}

-- Every name of a text is a match, and nothing is replaced.
abbrev is_ascii_name : ℕ → Bool
is_ascii_name c = (leb b'a' c && leb c b'z') || (leb b'A' c && leb c b'Z')

abbrev plain_tools : TextTools
plain_tools = record {
  is_match = λ pattern s. false;
  captures = λ pattern s. map (λ w. w ∷ ([] ∷ (w ∷ []))) (words is_ascii_name s);
  replace_all = λ pattern f s. s;
  escape = λ s. s;
  is_alphanumeric = is_ascii_name;
}

abbrev attrs_with : List Text → Option Text → Attrs
attrs_with has_one close = record {
  mutable = true;
  signer = false;
  seeds = false;
  address = false;
  owner = false;
  has_one = has_one;
  address_expr = none;
  token_mint = none;
  token_owner = none;
  constraints = [];
  close = close;
  init = false;
  init_if_needed = false;
  token_authority = false;
  seed_names = [];
  address_names = [];
  authority_names = [];
  keyed_constraints = [];
  refs = [];
  validate = [];
  validate_keys = [];
  body = [];
  body_keys = [];
  handed = [];
}

abbrev slot_with : SlotKind → Text → Attrs → Slot
slot_with kind ty attrs = record {
  kind = some kind;
  ty = ty;
  full_ty = ty;
  optional = false;
  deprecated = false;
  attrs = attrs;
  file = codes "lib.rs";
  line = 7;
  order = 0;
}

abbrev plain_attrs : Attrs
plain_attrs = attrs_with [] none

abbrev vault : Slot
vault = slot_with typed (codes "Account") (attrs_with (codes "owner" ∷ []) none)

abbrev loose_vault : Slot
loose_vault = slot_with unchecked (codes "UncheckedAccount") (attrs_with (codes "owner" ∷ []) none)

abbrev owner_slot : Slot
owner_slot = slot_with typed (codes "Signer") plain_attrs

-- `deposit` and `withdraw` with one vault each.
abbrev program_with : Text → Slot → SourceKinds
program_with deposit withdrawn = record {
  slots =
      ((deposit, codes "pool"), vault)
      ∷ (((codes "withdraw", codes "owner"), owner_slot)
          ∷ (((codes "withdraw", codes "vault"), withdrawn) ∷ []));
  checks = [];
  handlers = [];
}

abbrev program : SourceKinds
program = program_with (codes "deposit") vault

program-IsMap : IsMap program
unfolding slot_at look_up
program-IsMap = (refl, (refl, (refl, tt)))

diff_self_example : diff plain_tools program program ≡ []
diff_self_example = diff_self plain_tools program (program-IsMap)

-- `deposit` is renamed, and the vault of `withdraw` is no longer typed.
abbrev changed_program : SourceKinds
changed_program = program_with (codes "fund") loose_vault

withdraw_kept :
    name_in_head (renamed program changed_program) changed_program (codes "withdraw")
    ≡ some (codes "withdraw")
unfolding name_in_head renamed scored_pairs settle rsplit_once
withdraw_kept = refl

deposit_renamed :
    name_in_head (renamed program changed_program) changed_program (codes "deposit")
    ≡ some (codes "fund")
unfolding name_in_head renamed scored_pairs settle rsplit_once
deposit_renamed = refl

deposit_listed : contains (ix_names program) (codes "deposit") ≡ true
unfolding ix_names
deposit_listed = refl

vault_found : slot_at changed_program (codes "withdraw") (codes "vault") ≡ some loose_vault
unfolding slot_at look_up
vault_found = refl

diff-Loss_example :
    any
      (is_regression_at (codes "withdraw") (codes "vault"))
      (diff plain_tools program changed_program)
    ≡ true
diff-Loss_example =
    diff-Loss plain_tools program changed_program (codes "withdraw") (codes "withdraw")
      (codes "vault") vault loose_vault 2 refl withdraw_kept vault_found (no_type refl refl refl)

name_in_head-injective_example : codes "deposit" ≡ codes "deposit"
name_in_head-injective_example =
    name_in_head-injective program changed_program (codes "deposit") (codes "deposit")
      (codes "fund") deposit_listed deposit_listed deposit_renamed deposit_renamed

abbrev closing_vault : Slot
closing_vault =
    slot_with typed (codes "AccountLoader")
      (attrs_with (codes "owner" ∷ (codes "pool" ∷ [])) (some (codes "owner")))

abbrev stricter : Compared
stricter =
    compared program program (codes "withdraw") (codes "withdraw") (codes "vault") vault
      closing_vault

stricter-Keeps : Keeps stricter
unfolding signs
stricter-Keeps = record {
  type_kept = refl;
  signature_kept = refl;
  seeds_kept = refl;
  address_kept = refl;
  owner_kept = refl;
  mint_kept = refl;
  authority_kept = refl;
  close_kept = refl;
  has_one_kept = (refl, tt);
  constraints_kept = tt;
  validate_kept = tt;
  body_kept = λ c. omega arith;
}

slot_changes-Keeps_example : any is_regression (slot_changes plain_tools stricter) ≡ false
slot_changes-Keeps_example = slot_changes-Keeps plain_tools stricter stricter-Keeps

abbrev two_lines : Change
two_lines = record {
  severity = regression;
  ix = codes "withdraw";
  path = codes "vault";
  message = codes "first\nsecond";
  file = codes "a:b.rs";
  line = 12;
}

line_ends-render_github_example : line_ends (render_github (two_lines ∷ (two_lines ∷ []))) ≡ 2
line_ends-render_github_example = line_ends-render_github (two_lines ∷ (two_lines ∷ []))

clauses-clauses_step_example :
    clauses (codes "(a == b && (c || d))") ≡ clauses_step clauses (codes "(a == b && (c || d))")
clauses-clauses_step_example = clauses-clauses_step (codes "(a == b && (c || d))")
