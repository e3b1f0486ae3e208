-- ===== src/Static/IdlDiff/Whole.antt =====
-- crates/solinv-static/src/idl_diff.rs: `diff_idl`, which pairs the instructions of two versions and
-- compares each pair.
use solinv.Base.{
  ltb, leb, nat_eq, if◌then◌else◌, is_some, ◌>>=◌, ◌==◌, length, any, find, filter, count, contains,
  Text, codes, has_substring, ℕ, ◌+◌, ◌*◌, max, Bool, true, false, not, ◌&&◌, ◌||◌, Option, none,
  some, List, [], ◌∷◌, ◌++◌, map, ℕ_eq, list_eq, option_eq,
}
use solinv.Static.Idl.{
  IdlAccount, IdlInstruction, Idl, FlatAccount, flat_accounts, is_unsigned_writer,
}
use solinv.Static.Renames.{slot_paths}
use solinv.Static.IdlDiff.{change, flat, Sides, when, diff_ix}
use solinv.Static.IdlDiff.Messages.{
  unresolved_message, replaced_message, compared_message, new_unsigned_message,
}
use solinv.Static.Change.{warning, Change}

abbrev pub paths_of : IdlInstruction → List Text
paths_of ix = slot_paths (flat ix)

abbrev pub arg_names : IdlInstruction → List Text
arg_names ix = map (λ a. a.name) ix.args

-- The number of elements of the set that the list is collected to.
abbrev pub set_size : List Text → ℕ
set_size [] = 0
set_size (x ∷ xs) = (if contains xs x then 0 else 1) + set_size xs

-- How many slots of the second instruction have a path that the first has too.
unfoldable pub overlap : IdlInstruction → IdlInstruction → ℕ
overlap b h = count (λ (p : Text). contains (paths_of b) p) (paths_of h)

-- `max_by_key`: the last of the elements with the greatest key.
unfoldable pub max_by_key {ℓ} : {A : Type ℓ} → (A → ℕ) → List A → Option A
max_by_key key [] = none
max_by_key key (x ∷ xs) = elim (max_by_key key xs) [
  | none ↦ some x
  | some y ↦ if ltb (key y) (key x) then some x else some y
]

-- A candidate that shares the argument names and enough slot paths.
unfoldable pub may_rename : IdlInstruction → IdlInstruction → Bool
may_rename b h =
    let size = max (set_size (paths_of b)) (length (paths_of h)) in
    let common = overlap b h in
    (arg_names h == arg_names b)
    && (if nat_eq (length (arg_names b)) 0
        then leb (size * 9) (common * 10)
        else leb (size * 3) (common * 4))

unfoldable pub renamed_ix : IdlInstruction → List IdlInstruction → Option IdlInstruction
renamed_ix b candidates =
    if nat_eq (length (paths_of b)) 0
    then none
    else max_by_key (overlap b) (filter (may_rename b) candidates)

abbrev pub any_slot : Idl → (IdlAccount → Bool) → Bool
any_slot idl f =
    any (λ (ix : IdlInstruction). any (λ (s : FlatAccount). f s.account) (flat_accounts ix))
      idl.instructions

abbrev pub has_relations : IdlAccount → Bool
has_relations a = not (nat_eq (length a.relations) 0)

unfoldable pub built_without_resolution : Idl → Idl → Bool
built_without_resolution base head =
    let base_resolved =
      any_slot base (λ a. is_some a.address)
      || (base.legacy && any_slot base (λ a. is_some a.pda || has_relations a)) in
    let head_resolved =
      any_slot head (λ a. is_some a.address || (is_some a.pda || has_relations a)) in
    base_resolved && not head_resolved

abbrev pub names_of : List IdlInstruction → List Text
names_of ixs = map (λ ix. ix.name) ixs

abbrev pub not_named_in : List IdlInstruction → IdlInstruction → Bool
not_named_in others ix = not (contains (names_of others) ix.name)

-- The loop that pairs the base instructions that are gone with new ones: what is left unmatched, and
-- the base instruction of each head name, the last entry first.
unfoldable pub pair_gone :
    List IdlInstruction
    → List (Text × IdlInstruction)
    → List IdlInstruction
    → List IdlInstruction × List (Text × IdlInstruction)
pair_gone unmatched renamed_to [] = (unmatched, renamed_to)
pair_gone unmatched renamed_to (b ∷ gone) =
    let none_found = pair_gone unmatched renamed_to gone in
    elim (renamed_ix b unmatched) [
      | none ↦ none_found
      | some h ↦
          pair_gone (filter (λ (u : IdlInstruction). not (u.name == h.name)) unmatched)
            ((h.name, b) ∷ renamed_to) gone
    ]

-- Fixed addresses are left out.
unfoldable pub has_checks : IdlInstruction → Bool
has_checks b =
    any
      (λ (f : FlatAccount). f.account.signer || (is_some f.account.pda || has_relations f.account))
      (flat_accounts b)

unfoldable pub gone_change :
    List IdlInstruction → List (Text × IdlInstruction) → IdlInstruction → List Change
gone_change unmatched renamed_to b =
    if any (λ (r : Text × IdlInstruction). r.1.name == b.name) renamed_to
    then []
    else elim (max_by_key (overlap b) unmatched) [
      | none ↦ []
      | some h ↦
          when (has_checks b)
            (change warning b.name [] (replaced_message h.name (overlap b h)) ∷ [])
    ]

abbrev pub find_named : List IdlInstruction → Text → Option IdlInstruction
find_named ixs name = find (λ (ix : IdlInstruction). ix.name == name) ixs

abbrev pub find_renamed : List (Text × IdlInstruction) → Text → Option IdlInstruction
find_renamed [] name = none
find_renamed ((n, b) ∷ rest) name = if n == name then some b else find_renamed rest name

abbrev pub sides : Idl → Idl → Bool → IdlInstruction → Sides
sides base head guessed h = record {
  guessed = guessed;
  resolved = not (built_without_resolution base head);
  legacy_base = base.legacy;
  legacy_head = head.legacy;
  ix = h.name;
}

-- What the main loop reports of one head instruction.
unfoldable pub head_changes :
    Idl → Idl → List (Text × IdlInstruction) → IdlInstruction → List Change
head_changes base head renamed_to h = elim (find_named base.instructions h.name) [
  | some b ↦ diff_ix b h (sides base head false h)
  | none ↦ elim (find_renamed renamed_to h.name) [
    | some b ↦
        map (λ (c : Change). record c { message = compared_message c.message b.name })
          (diff_ix b h (sides base head true h))
    | none ↦ when (is_unsigned_writer h) (change warning h.name [] new_unsigned_message ∷ [])
  ]
]

abbrev pub concat_map {ℓ κ} : {A : Type ℓ} {B : Type κ} → (A → List B) → List A → List B
concat_map f [] = []
concat_map f (x ∷ xs) = f x ++ concat_map f xs

-- The instruction added to the first change of the same path and message.
unfoldable pub merge_guess : Change → List Change → Option (List Change)
merge_guess c [] = none
merge_guess c (p ∷ out) =
    let rest = merge_guess c out in
    if (p.path == c.path) && (p.message == c.message)
    then some (record p { ix = p.ix ++ (codes ", " ++ c.ix) } ∷ out)
    else rest >>= λ merged. some (p ∷ merged)

unfoldable pub collapse_from : List Change → List Change → List Change
collapse_from out [] = out
collapse_from out (c ∷ changes) =
    let pushed = collapse_from (out ++ (c ∷ [])) changes in
    let merged : List Change → List Change = λ m. collapse_from m changes in
    if has_substring (codes "a guess from its shape") c.message
    then elim (merge_guess c out) [ some m ↦ merged m | none ↦ pushed ]
    else pushed

unfoldable pub collapse_guesses : List Change → List Change
collapse_guesses changes = collapse_from [] changes

unfoldable pub diff_idl : Idl → Idl → List Change
diff_idl base head =
    let gone = filter (not_named_in head.instructions) base.instructions in
    let fresh = filter (not_named_in base.instructions) head.instructions in
    let (unmatched, renamed_to) = pair_gone fresh [] gone in
    collapse_guesses (
      when (built_without_resolution base head) (change warning [] [] unresolved_message ∷ [])
      ++ (concat_map (gone_change unmatched renamed_to) gone
          ++ concat_map (head_changes base head renamed_to) head.instructions))
