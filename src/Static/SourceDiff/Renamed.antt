-- ===== src/Static/SourceDiff/Renamed.antt =====
-- diff.rs: the new instruction that one gone from the head version was renamed to.
pub mod Pairs
use solinv.Base.{
  ltb, leb, nat_eq, if◌then◌else◌, or_else, ◌==◌, length, any, filter, concat_map, count, contains,
  Text, codes, before, look_up, sort_by, ℕ, ◌+◌, ◌-◌, ◌*◌, max, Bool, not, ◌&&◌, ◌||◌, Option, none,
  some, List, [], ◌∷◌, map, ℕ_eq, list_eq, option_eq,
}
use solinv.Static.Source.{Slot, SourceKinds, in_ix, ix_names}
use solinv.Static.SourceDiff.Checks.{leaf}

abbrev pub common_types : List Text
common_types = codes "Program" ∷ (codes "Interface" ∷ (codes "Sysvar" ∷ []))

abbrev pub common_leaves : List Text
common_leaves = codes "authority" ∷ (codes "payer" ∷ [])

unfoldable pub tells : Text × Slot → Bool
unfolding leaf
tells (p, s) = not (contains common_types s.ty) && not (contains common_leaves (leaf p))

-- The slots that tell an instruction from another; a path stands once in an instruction.
unfoldable pub telling : SourceKinds → Text → List Text
unfolding in_ix tells
telling k ix = map (λ (e : Text × Slot). e.0) (filter tells (in_ix k ix))

-- A score as the fraction `shared / union` that the source divides as floats. Counts below 2 ^ 26
-- divide to distinct floats where the fractions differ, and in their order.
pub record Scored : Type 0 where
  pub shared : ℕ
  pub union : ℕ
  pub old : Text
  pub new : Text

unfoldable pub score : SourceKinds → SourceKinds → Text → Text → List Scored
unfolding telling
score base head old new =
    let a = telling base old in
    let b = telling head new in
    let shared = count (contains b) a in
    let union = max (length a + length b - shared) 1 in
    if ltb 0 shared && leb union (2 * shared)
    then record { shared = shared; union = union; old = old; new = new } ∷ []
    else []

unfoldable pub same_score : Scored → Scored → Bool
same_score x y = nat_eq (x.shared * y.union) (y.shared * x.union)

-- The best score first, then the names.
unfoldable pub scores_before : Scored → Scored → Bool
unfolding same_score
scores_before x y =
    ltb (y.shared * x.union) (x.shared * y.union)
    || (same_score x y && (before x.old y.old || ((x.old == y.old) && before x.new y.new)))

-- Another pair of the same score for one of its instructions.
unfoldable pub is_rival : Scored → Scored → Bool
unfolding same_score
is_rival x y =
    same_score x y
    && (not ((y.old == x.old) && (y.new == x.new)) && ((y.old == x.old) || (y.new == x.new)))

-- The pairs taken, the best first: a pair with a rival settles its instructions and pairs neither.
unfoldable pub settle : List Scored → List Text → List Text → List Scored → List (Text × Text)
unfolding is_rival
settle scored settled taken [] = []
settle scored settled taken (x ∷ xs) =
    let skipped = settle scored settled taken xs in
    let rest = settle scored (x.old ∷ settled) (x.new ∷ taken) xs in
    if contains settled x.old || contains taken x.new
    then skipped
    else if any (is_rival x) scored
    then rest
    else (x.old, x.new) ∷ rest

abbrev pub only_of : List Text → List Text → List Text
only_of others names = filter (λ n. not (contains others n)) names

unfoldable pub scored_pairs : SourceKinds → SourceKinds → List Scored
unfolding score ix_names
scored_pairs base head =
    let gone = only_of (ix_names head) (ix_names base) in
    let new = only_of (ix_names base) (ix_names head) in
    concat_map (λ old. concat_map (score base head old) new) gone

unfoldable pub renamed : SourceKinds → SourceKinds → List (Text × Text)
unfolding scored_pairs settle scores_before sort_by
renamed base head =
    let scored = sort_by scores_before (scored_pairs base head) in settle scored [] [] scored

-- A base instruction's name in the head version, if it is there.
unfoldable pub name_in_head : List (Text × Text) → SourceKinds → Text → Option Text
unfolding look_up ix_names
name_in_head renames head base_ix =
    or_else (look_up renames base_ix)
      (if contains (ix_names head) base_ix then some base_ix else none)
