-- ===== src/Static/Renames.antt =====
-- crates/solinv-static/src/idl_diff.rs: `Renames`, the pairing of the slots that only the base version
-- has with those that only the head version has.
use solinv.Base.{
  ltb, nat_eq, if◌then◌else◌, is_some, ◌==◌, length, any, filter, count, contains, Bytes, Text,
  codes, show, starts_with, split_once, rsplit_once, ℕ, suc, ◌+◌, Bool, true, false, not, ◌&&◌,
  ◌||◌, Option, none, some, List, [], ◌∷◌, ◌++◌, map, ℕ_eq, list_eq, option_eq,
}
use solinv.Static.Idl.{IdlSeed, const_seed, account_seed, arg_seed, IdlPda, IdlAccount, join}

-- A slot's dotted path and the account there.
abbrev pub Slot : Type 0
Slot = Text × IdlAccount

abbrev pub same_bool : Bool → Bool → Bool
same_bool true true = true
same_bool true false = false
same_bool false true = false
same_bool false false = true

pub record Renames : Type 0 where
  -- The map from base paths to head paths, the last entry first.
  pub paths : List (Text × Text)
  pub guessed : List (Text × Text)

abbrev pub prefix_of : Text → Text
prefix_of path = elim (rsplit_once b'.' path) [ some parts ↦ parts.0 | none ↦ [] ]

abbrev pub leaf_of : Text → Text
leaf_of path = elim (rsplit_once b'.' path) [ some parts ↦ parts.1 | none ↦ path ]

-- `self.paths.get(path)`.
abbrev pub find_path : List (Text × Text) → Text → Option Text
find_path [] path = none
find_path ((from, to) ∷ paths) path = if from == path then some to else find_path paths path

unfoldable pub head_path : Renames → Text → Text
head_path r base_path = elim (find_path r.paths base_path) [ some to ↦ to | none ↦ base_path ]

-- A name within a composite, as a path.
abbrev pub full_path : Text → Text → Text
full_path prefix first = if nat_eq (length prefix) 0 then first else prefix ++ (codes "." ++ first)

-- The first segment of a dotted name in head's names.
unfoldable pub sibling_first : Renames → Text → Text → Text
sibling_first r prefix first = elim (find_path r.paths (full_path prefix first)) [
  | some to ↦ leaf_of to
  | none ↦ first
]

unfoldable pub sibling : Renames → Text → Text → Text
unfolding sibling_first
sibling r prefix name = elim (split_once b'.' name) [
  | none ↦ sibling_first r prefix name
  | some (first, rest) ↦ sibling_first r prefix first ++ (codes "." ++ rest)
]

-- `{value:?}` of a byte vector.
unfoldable pub debug_bytes : Bytes → Text
debug_bytes value = codes "[" ++ (join (codes ", ") (map show value) ++ codes "]")

-- `legacy::UNCONVERTED`.
abbrev pub unconverted : Bytes
unconverted = 0 ∷ codes "solinv:unconverted-const-seed:"

unfoldable pub seed_key : Renames → Text → Bool → IdlSeed → Text
unfolding debug_bytes sibling
seed_key r prefix legacy (const_seed value) =
    if legacy && starts_with unconverted value
    then codes "unconverted:" ++ debug_bytes value
    else codes "const:" ++ debug_bytes value
seed_key r prefix legacy (account_seed path account) = codes "account:" ++ sibling r prefix path
seed_key r prefix legacy (arg_seed path) = codes "arg:" ++ path

abbrev pub no_renames : Renames
no_renames = record { paths = []; guessed = [] }

abbrev pub program_key : Renames → Text → Bool → Option IdlSeed → Option Text
program_key r prefix legacy none = none
program_key r prefix legacy (some s) = some (seed_key r prefix legacy s)

unfoldable pub same_seeds : Renames → Text → IdlPda → IdlPda → Bool × Bool → Bool
unfolding seed_key
same_seeds r prefix base head (legacy_base, legacy_head) =
    (map (seed_key r prefix legacy_base) base.seeds
      == map (seed_key no_renames [] legacy_head) head.seeds)
    && (program_key r prefix legacy_base base.program
        == program_key no_renames [] legacy_head head.program)

abbrev pub slot_paths : List Slot → List Text
slot_paths slots = map (λ s. s.0) slots

-- The slots of a composite that list a name among their relations.
unfoldable pub listed_by : List Slot → Text → Text → List Text
listed_by slots name prefix =
    map (λ s. leaf_of s.0)
      (filter (λ (s : Slot). (prefix_of s.0 == prefix) && contains s.1.relations name) slots)

-- How many distinct names of the first list are in the second: `intersection(..).count()`.
unfoldable pub common_names : List Text → List Text → ℕ
common_names [] ys = 0
common_names (x ∷ xs) ys =
    (if contains ys x && not (contains xs x) then 1 else 0) + common_names xs ys

pub record Pair : Type 0 where
  pub shared : ℕ
  pub same_prefix : Bool
  pub same_pda : Bool
  pub same_address : Bool
  pub bi : ℕ
  pub hi : ℕ
  -- `gone[bi]` and `free[hi]`.
  pub from : Slot
  pub to : Slot

unfoldable pub score_pair : List Slot → List Slot → ℕ → Slot → ℕ → Slot → Pair
unfolding listed_by common_names
score_pair b h bi (bp, ba) hi (hp, ha) = record {
  shared =
      common_names (listed_by b (leaf_of bp) (prefix_of bp))
        (listed_by h (leaf_of hp) (prefix_of hp))
      + length (filter (λ (r : Text). contains ha.relations r) ba.relations);
  same_prefix = prefix_of hp == prefix_of bp;
  same_pda = same_bool (is_some ha.pda) (is_some ba.pda);
  same_address = ha.address == ba.address;
  bi = bi;
  hi = hi;
  from = (bp, ba);
  to = (hp, ha);
}

-- The inner loop: the pairs of one slot that is gone.
unfoldable pub pairs_of : List Slot → List Slot → ℕ → Slot → ℕ → List Slot → List Pair
unfolding score_pair
pairs_of b h bi from hi [] = []
pairs_of b h bi from hi (to ∷ free) =
    let rest = pairs_of b h bi from (suc hi) free in
    if same_bool to.1.signer from.1.signer && same_bool to.1.writable from.1.writable
    then score_pair b h bi from hi to ∷ rest
    else rest

unfoldable pub all_pairs : List Slot → List Slot → List Slot → ℕ → List Slot → List Pair
unfolding pairs_of
all_pairs b h free bi [] = []
all_pairs b h free bi (from ∷ gone) =
    pairs_of b h bi from 0 free ++ all_pairs b h free (suc bi) gone

-- `x > y` of tuples, from the first component that differs.
abbrev pub above_bool : Bool → Bool → Bool → Bool
above_bool true true later = later
above_bool true false later = true
above_bool false true later = false
above_bool false false later = later

abbrev pub above_nat : ℕ → ℕ → Bool → Bool
above_nat x y later = if nat_eq x y then later else ltb y x

-- The order of `pairs`: the best score first, then the first slots.
unfoldable pub goes_before : Pair → Pair → Bool
goes_before x y = above_nat x.shared y.shared (
    above_bool x.same_prefix y.same_prefix (
      above_bool x.same_pda y.same_pda (
        above_bool x.same_address y.same_address
          (above_nat y.bi x.bi (above_nat y.hi x.hi false)))))

unfoldable pub insert_pair : Pair → List Pair → List Pair
unfolding goes_before
insert_pair x [] = x ∷ []
insert_pair x (y ∷ ys) =
    let rest = insert_pair x ys in if goes_before x y then x ∷ (y ∷ ys) else y ∷ rest

unfoldable pub sort_pairs : List Pair → List Pair
unfolding insert_pair
sort_pairs [] = []
sort_pairs (x ∷ xs) = insert_pair x (sort_pairs xs)

-- A dropped fixed-address slot is no rename candidate.
abbrev pub is_candidate : IdlAccount → Bool
is_candidate a =
    not (
      is_some a.address && (not a.signer && (not (is_some a.pda) && nat_eq (length a.relations) 0)))

-- The seed reads the slot of a leaf name.
abbrev pub reads_slot : Text → IdlSeed → Bool
reads_slot leaf (account_seed path account) = elim (split_once b'.' path) [
  | none ↦ path == leaf
  | some parts ↦ parts.0 == leaf
]
reads_slot leaf (const_seed value) = false
reads_slot leaf (arg_seed path) = false

unfoldable pub named_by_seeds : List Slot → Text → Bool
named_by_seeds b bp =
    any
      (λ (s : Slot).
        (prefix_of s.0 == prefix_of bp)
        && elim s.1.pda [ none ↦ false | some pda ↦ any (reads_slot (leaf_of bp)) pda.seeds ])
      b

-- Whether a pairing is plainly a rename.
unfoldable pub is_sure : List Slot → List Slot → List Slot → Pair → Bool
unfolding named_by_seeds
is_sure b gone free p =
    let (bp, ba) = p.from in
    let hp = p.to.0 in
    let one_to_one =
      nat_eq (count (λ (s : Slot). (prefix_of s.0 == prefix_of bp) && is_candidate s.1) gone) 1
      && nat_eq (count (λ (s : Slot). prefix_of s.0 == prefix_of hp) free) 1 in
    let checks_itself =
      ba.signer
      || (is_some ba.pda
          || (is_some ba.address
              || (not (nat_eq (length ba.relations) 0) || named_by_seeds b bp))) in
    one_to_one && (ltb 0 p.shared || not checks_itself)

-- The loop that takes the pairs, the best first; `guessed` is in the order of the source.
unfoldable pub take_pairs : (Pair → Bool) → List ℕ → List ℕ → Renames → List Pair → Renames
take_pairs sure used_b used_h r [] = r
take_pairs sure used_b used_h r (p ∷ pairs) =
    let (bp, ba) = p.from in
    let (hp, ha) = p.to in
    let taken : Renames = record {
      paths = (bp, hp) ∷ r.paths;
      guessed = if sure p then r.guessed else r.guessed ++ ((bp, hp) ∷ []);
    } in
    let skip = take_pairs sure used_b used_h r pairs in
    let rest = take_pairs sure (p.bi ∷ used_b) (p.hi ∷ used_h) taken pairs in
    if contains used_b p.bi || contains used_h p.hi then skip else rest

-- The slots of one list whose path is not in the other.
abbrev pub only_in : List Slot → List Slot → List Slot
only_in slots others = filter (λ (s : Slot). not (contains (slot_paths others) s.0)) slots

unfoldable pub renames : List Slot → List Slot → Renames
unfolding take_pairs is_sure sort_pairs all_pairs
renames b h =
    let free = only_in h b in
    let gone = only_in b h in
    take_pairs (is_sure b gone free) [] [] no_renames (sort_pairs (all_pairs b h free 0 gone))
