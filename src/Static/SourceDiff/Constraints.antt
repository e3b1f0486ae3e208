-- ===== src/Static/SourceDiff/Constraints.antt =====
-- diff.rs on a slot that both versions have: its constraints, the checks of the handler and of
-- `validate`, and all its changes together.
pub mod Unchanged
pub mod Lost
pub mod Kept
use solinv.Base.{
  ltb, if◌then◌else◌, ◌>>=◌, length, all, find, filter, concat_map, contains, Text, codes,
  has_substring, Bool, false, not, ◌&&◌, Option, none, some, List, [], ◌∷◌, ◌++◌, map, ℕ_eq,
  list_eq, option_eq,
}
use solinv.Static.Change.{regression, warning, Change}
use solinv.Static.Source.{Handed, Slot, is_unchecked, in_ix, distinct_from}
use solinv.Static.SourceDiff.Checks.{leaf, to_list, copies, body_total}
use solinv.Static.SourceDiff.Keys.{TextTools, join_with, constraint_eqs, gate_on, others_named}
use solinv.Static.SourceDiff.Gates.{yes_no, negated}
use solinv.Static.SourceDiff.Instead.{declared_instead}
use solinv.Static.SourceDiff.Messages.{
  constraint_moved_message, constraint_restated_message, gate_message, constraint_handed_message,
  constraint_message, moved_message, handler_message, validate_moved_message, validate_message,
  placeholder_message,
}
use solinv.Static.SourceDiff.Slots.{
  Compared, Finding, regress, warn, when_so, handed_at, type_change, optional_change,
  signature_change, seeds_change, owner_change, close_change, unless_restated, restated_here,
  address_gone, address_changed, token_change, compares_key, has_one_change,
}

-- What the base version lists and the head version does not.
abbrev pub gone_from : List Text → List Text → List Text
gone_from now was = filter (λ x. not (contains now x)) was

module _ (tools : TextTools) (d : Compared) where
  -- The new gate that stands in for one removed, where none of `used` is it.
  unfoldable pub new_gate : List Text → Text → Option Text
  unfolding yes_no negated gate_on
  new_gate used expr =
      find
        (λ e.
          not (contains d.was.attrs.constraints e)
          && (not (contains used e)
              && (yes_no tools e
                  && (not (negated expr e)
                      && (gate_on tools d.head d.ix d.path e
                          && gate_on tools d.base d.base_ix d.path expr)))))
        d.now.attrs.constraints

  -- The call that may compare the keys that a removed constraint compared.
  unfoldable pub keys_call : Text → Option Handed
  unfolding has_substring others_named compares_key
  keys_call expr =
      let others = others_named tools d.base d.base_ix d.path expr in
      if has_substring (codes ".key") expr && ltb 0 (length others)
      then find (λ c. all (compares_key tools d c) others) d.now.attrs.handed
      else none

  unfoldable pub lost_constraint : Text → Finding
  unfolding keys_call handed_at
  lost_constraint expr = elim (keys_call expr) [
    | some call ↦ regress (constraint_handed_message expr (handed_at call))
    | none ↦ regress (constraint_message expr)
  ]

  -- What is found on one removed constraint, and the gate that it uses up.
  unfoldable pub constraint_change : List Text → Text → List Finding × Option Text
  unfolding in_ix constraint_eqs restated_here new_gate lost_constraint
  constraint_change used expr =
      elim (find (λ (s : Text × Slot). contains s.1.attrs.constraints expr) (in_ix d.head d.ix)) [
        | some other ↦ (warn (constraint_moved_message expr other.0) ∷ [], none)
        | none ↦
            elim (constraint_eqs tools d.base d.base_ix d.path expr >>= restated_here tools d) [
              | some r ↦ (unless_restated (some r) (constraint_restated_message expr) [], none)
              | none ↦ elim (new_gate used expr) [
                | some e ↦ (warn (gate_message expr e) ∷ [], some e)
                | none ↦ (lost_constraint expr ∷ [], none)
              ]
            ]
      ]

  unfoldable pub constraint_changes : List Text → List Text → List Finding
  unfolding constraint_change
  constraint_changes used [] = []
  constraint_changes used (expr ∷ exprs) =
      let found = constraint_change used expr in
      found.0 ++ constraint_changes (to_list found.1 ++ used) exprs

  -- A slot's copies that are gone, where the instruction as a whole has fewer.
  unfoldable pub is_lost : Text → Bool
  unfolding copies body_total
  is_lost check =
      ltb (copies d.now.attrs.body check) (copies d.was.attrs.body check)
      && ltb (body_total d.head d.ix check) (body_total d.base d.base_ix check)

  unfoldable pub body_change : Text → List Finding
  unfolding is_lost declared_instead
  body_change check =
      when_so (is_lost check)
        (elim (declared_instead tools d.base d.head d.base_ix d.ix check (some d.path)) [
          | some slot ↦ warn (moved_message check slot)
          | none ↦ regress (handler_message check)
        ])

  unfoldable pub validate_change : Text → Finding
  unfolding in_ix
  validate_change check =
      elim (find (λ (s : Text × Slot). contains s.1.attrs.validate check) (in_ix d.head d.ix)) [
        | some other ↦ warn (validate_moved_message check other.0)
        | none ↦ regress (validate_message check)
      ]

  -- Every change of the slot, in the order of the source.
  unfoldable pub findings : List Finding
  unfolding type_change optional_change signature_change seeds_change address_gone address_changed
      token_change owner_change has_one_change constraint_changes close_change body_change
      validate_change distinct_from
  findings =
      let ba = d.was.attrs in
      let ha = d.now.attrs in
      type_change d
      ++ (optional_change d
          ++ (signature_change d
              ++ (seeds_change d
                  ++ ((if ba.address && not ha.address then address_gone tools d else [])
                      ++ (address_changed tools d
                          ++ (token_change tools d (codes "token::mint") (codes "mint")
                                ba.token_mint ha.token_mint
                              ++ (token_change tools d (codes "token::authority") (codes "owner")
                                    ba.token_owner ha.token_owner
                                  ++ (owner_change d
                                      ++ (concat_map (has_one_change tools d)
                                            (gone_from ha.has_one ba.has_one)
                                          ++ (constraint_changes []
                                                (gone_from ha.constraints ba.constraints)
                                              ++ (close_change d
                                                  ++ (concat_map body_change
                                                        (distinct_from [] ba.body)
                                                      ++ map validate_change (
                                                          gone_from ha.validate
                                                            ba.validate)))))))))))))

-- `/// CHECK: Deprecated …` on an account that nothing checks.
unfoldable pub placeholder : Slot → Bool
placeholder s = s.deprecated && is_unchecked s

-- A removal that a slot made a placeholder takes with it: not a lost signature.
unfoldable pub is_merged : Finding → Bool
unfolding has_substring
is_merged (regression, message) = not (has_substring (codes "no longer required to sign") message)
is_merged (warning, message) = false

unfoldable pub merge : Compared → List Finding → List Finding
unfolding placeholder is_merged join_with leaf
merge d found =
    let merged = filter is_merged found in
    let kept = filter (λ f. not (is_merged f)) found in
    if placeholder d.now && (not (placeholder d.was) && ltb 0 (length merged))
    then kept
      ++ (regress (
            placeholder_message (join_with (codes "; ") (map (λ (f : Finding). f.1) merged))
              (leaf d.path))
          ∷ [])
    else found

abbrev pub at_slot : Compared → Finding → Change
at_slot d f = record {
  severity = f.0;
  ix = d.ix;
  path = d.path;
  message = f.1;
  file = d.now.file;
  line = d.now.line;
}

unfoldable pub slot_changes : TextTools → Compared → List Change
unfolding findings merge
slot_changes tools d = map (at_slot d) (merge d (findings tools d))
