-- ===== src/Static/SourceDiff/Restated.antt =====
-- diff.rs: whether a key equality that a slot declared is still declared in other words.
use solinv.Base.{
  nat_eq, if◌then◌else◌, ◌==◌, length, all, filter, concat_map, contains, Text, codes, not, ◌&&◌,
  Option, none, some, List, [], ◌∷◌, ◌++◌, map, ℕ_eq, list_eq, option_eq, pair_eq,
}
use solinv.Static.Source.{Slot, SourceKinds, is_typed, in_ix}
use solinv.Static.SourceDiff.Checks.{leaf, to_list}
use solinv.Static.SourceDiff.Keys.{
  TextTools, KeyEq, ordered, join_with, token_value, key_eq, constraint_eqs,
}

-- The typed slots of an instruction, with their types.
unfoldable pub typed_slots : SourceKinds → Text → List (Text × Text)
unfolding in_ix
typed_slots k ix =
    map (λ (e : Text × Slot). (e.0, e.1.full_ty))
      (filter (λ (e : Text × Slot). is_typed e.1) (in_ix k ix))

abbrev pub not_under : List (Text × Text) → List (Text × Text) → List (Text × Text)
not_under others slots =
    filter (λ (e : Text × Text). not (contains (map (λ (o : Text × Text). o.0) others) e.0)) slots

abbrev pub of_type : Text → List (Text × Text) → List (Text × Text)
of_type ty slots = filter (λ (e : Text × Text). e.1 == ty) slots

-- A slot gone, with the one new slot of its type where each is the only one.
unfoldable pub pair_slot :
    List (Text × Text) → List (Text × Text) → Text × Text → List (Text × Text)
pair_slot gone new (n, ty) = elim (of_type ty new) [
  | [] ↦ []
  | m ∷ others ↦
      if nat_eq (length (of_type ty gone)) 1 && nat_eq (length others) 0 then (n, m.0) ∷ [] else []
]

unfoldable pub renamed_slots : SourceKinds → SourceKinds → Text → Text → List (Text × Text)
unfolding typed_slots pair_slot
renamed_slots base head base_ix ix =
    let b = typed_slots base base_ix in
    let h = typed_slots head ix in
    let gone = not_under h b in concat_map (pair_slot gone (not_under b h)) gone

module _ (tools : TextTools) where
  -- `replace_all` of `@old` at a word's end; a path has no `$`.
  unfoldable pub swap : List (Text × Text) → Text → Text
  swap [] t = t
  swap ((old, new) ∷ renames) t = swap renames (
      tools.replace_all (codes "@" ++ (tools.escape old ++ codes "\\b"))
        (λ groups. codes "@" ++ new) t)

  unfoldable pub rename_eqs : List KeyEq → List (Text × Text) → List KeyEq
  unfolding swap ordered
  rename_eqs eqs renames = map (λ (e : KeyEq). ordered (swap renames e.0) (swap renames e.1)) eqs

  module _ (k : SourceKinds) (ix : Text) where
    abbrev eqs_of : Option (List KeyEq) → List KeyEq
    eqs_of none = []
    eqs_of (some eqs) = eqs

    -- The equalities that one slot declares; an optional one's are not checked when it is left out.
    unfoldable pub slot_eqs : Text × Slot → List KeyEq
    unfolding leaf key_eq token_value constraint_eqs
    slot_eqs (path, s) =
        let eq = key_eq tools k ix path in
        let name = leaf path in
        if s.optional
        then []
        else map (λ t. eq (name ++ (codes "." ++ t)) (t ++ codes ".key()")) s.attrs.has_one
          ++ (map (λ e. eq (name ++ codes ".key()") e) (to_list s.attrs.address_expr)
              ++ (map (λ e. eq (name ++ codes ".mint") (token_value tools e))
                    (to_list s.attrs.token_mint)
                  ++ (map (λ e. eq (name ++ codes ".owner") (token_value tools e))
                        (to_list s.attrs.token_owner)
                      ++ concat_map (λ c. eqs_of (constraint_eqs tools k ix path c))
                          s.attrs.constraints)))

    unfoldable pub declared_eqs : List KeyEq
    unfolding slot_eqs in_ix
    declared_eqs = concat_map slot_eqs (in_ix k ix)

  abbrev pub arrow : Text × Text → Text
  arrow (o, n) = codes "`" ++ (o ++ (codes "` → `" ++ (n ++ codes "`")))

  -- None where an equality is gone; otherwise the renames, if any, that it takes to find them all.
  unfoldable pub restated :
      SourceKinds → SourceKinds → Text → Text → List KeyEq → Option (Option Text)
  unfolding declared_eqs renamed_slots rename_eqs join_with
  restated base head base_ix ix eqs =
      let held = declared_eqs head ix in
      let renames = renamed_slots base head base_ix ix in
      let used = filter (λ r. not (rename_eqs eqs (r ∷ []) == eqs)) renames in
      if all (contains held) eqs
      then some none
      else if all (contains held) (rename_eqs eqs renames)
      then some (some (join_with (codes ", ") (map arrow used)))
      else none
