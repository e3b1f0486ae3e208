-- ===== src/Static/SourceDiff/Whole.antt =====
-- `diff` of diff.rs: two versions of the source, compared whole.
pub mod Same
pub mod Lost
use solinv.Base.{
  ltb, if◌then◌else◌, ◌==◌, length, any, find, filter, concat_map, Text, codes, before, look_up,
  sort_by, ℕ, Bool, true, false, not, ◌&&◌, ◌||◌, none, some, List, [], ◌∷◌, ◌++◌, map, ℕ_eq,
  list_eq, option_eq,
}
use solinv.Static.Change.{Severity, regression, warning, Change}
use solinv.Static.Source.{
  Slot, SourceKinds, in_ix, slot_at, ix_checks, handler_at, distinct_from, ix_names,
}
use solinv.Static.SourceDiff.Checks.{signs, checks_of, copies, body_total}
use solinv.Static.SourceDiff.Keys.{TextTools, join_with}
use solinv.Static.SourceDiff.Instead.{declared_instead}
use solinv.Static.SourceDiff.Messages.{
  renamed_message, removed_ix_message, slot_gone_message, moved_message, handler_message,
  unsigned_message,
}
use solinv.Static.SourceDiff.Slots.{Finding, regress, warn}
use solinv.Static.SourceDiff.Constraints.{slot_changes}
use solinv.Static.SourceDiff.Renamed.{only_of, renamed, name_in_head}

abbrev pub warned : Text → Text → Text → Text → ℕ → Change
warned ix path message file line = record {
  severity = warning;
  ix = ix;
  path = path;
  message = message;
  file = file;
  line = line;
}

abbrev pub when_change : Bool → Change → List Change
when_change c change = if c then change ∷ [] else []

-- A slot that is gone, where the instruction has others: the first is pointed at.
unfoldable pub slot_gone : SourceKinds → Text → Text → Slot → List Change
unfolding in_ix checks_of join_with
slot_gone head ix path b = elim (in_ix head ix) [
  | [] ↦ []
  | other ∷ others ↦ elim (checks_of b) [
    | [] ↦ []
    | c ∷ checks ↦
        warned ix path (slot_gone_message (join_with (codes ", ") (c ∷ checks))) other.1.file
          other.1.line
        ∷ []
  ]
]

abbrev pub severity_before : Severity → Severity → Bool
severity_before regression regression = false
severity_before regression warning = true
severity_before warning s = false

abbrev pub same_severity : Severity → Severity → Bool
same_severity regression regression = true
same_severity regression warning = false
same_severity warning regression = false
same_severity warning warning = true

-- The order of the report: by severity, instruction and path.
unfoldable pub reports_before : Change → Change → Bool
reports_before a b =
    severity_before a.severity b.severity
    || (same_severity a.severity b.severity
        && (before a.ix b.ix || ((a.ix == b.ix) && before a.path b.path)))

module _ (tools : TextTools) (base head : SourceKinds) where
  -- An instruction that is gone: renamed, or its checks are not compared.
  unfoldable pub gone_change : List (Text × Text) → Text → List Change
  unfolding look_up in_ix ix_checks checks_of
  gone_change renames old =
      let checks =
        concat_map (λ (s : Text × Slot). checks_of s.1) (in_ix base old) ++ ix_checks base old in
      elim (look_up renames old) [
        | some n ↦ elim (in_ix head n) [
          | [] ↦ warned old [] (renamed_message n) [] 0 ∷ []
          | s ∷ slots ↦ warned old [] (renamed_message n) s.1.file s.1.line ∷ []
        ]
        | none ↦
            when_change (ltb 0 (length checks))
              (warned old [] (removed_ix_message (length checks)) [] 0)
      ]

  unfoldable pub entry_changes : List (Text × Text) → (Text × Text) × Slot → List Change
  unfolding name_in_head slot_at slot_gone slot_changes
  entry_changes renames ((base_ix, path), b) = elim (name_in_head renames head base_ix) [
    | none ↦ []
    | some ix ↦ elim (slot_at head ix path) [
      | none ↦ slot_gone head ix path b
      | some h ↦ slot_changes tools (record {
        base = base;
        head = head;
        base_ix = base_ix;
        ix = ix;
        path = path;
        was = b;
        now = h;
      })
    ]
  ]

  -- A check that names no slot, and is written fewer times.
  unfoldable pub lost_in_ix : Text → Text → Text → Bool
  unfolding copies ix_checks body_total
  lost_in_ix base_ix ix c =
      ltb (copies (ix_checks head ix) c) (copies (ix_checks base base_ix) c)
      && ltb (body_total head ix c) (body_total base base_ix c)

  unfoldable pub ix_change : Text → Text → Text → Change
  unfolding declared_instead handler_at
  ix_change base_ix ix check =
      let place : Text × ℕ = elim (handler_at head ix) [ none ↦ ([], 0) | some at ↦ at ] in
      let found : Finding = elim (declared_instead tools base head base_ix ix check none) [
        | some slot ↦ warn (moved_message check slot)
        | none ↦ regress (handler_message check)
      ] in
      record {
        severity = found.0;
        ix = ix;
        path = [];
        message = found.1;
        file = place.0;
        line = place.1;
      }

  unfoldable pub ix_changes : List (Text × Text) → Text → List Change
  unfolding name_in_head lost_in_ix ix_change distinct_from ix_checks
  ix_changes renames base_ix = elim (name_in_head renames head base_ix) [
    | none ↦ []
    | some ix ↦
        map (ix_change base_ix ix)
          (filter (lost_in_ix base_ix ix) (distinct_from [] (ix_checks base base_ix)))
  ]

  -- A new instruction that no one signs and that writes an account.
  unfoldable pub new_change : Text → List Change
  unfolding in_ix signs
  new_change ix =
      let slots = in_ix head ix in
      elim (find (λ (s : Text × Slot). s.1.attrs.mutable) slots) [
        | none ↦ []
        | some written ↦
            when_change (not (any (λ (s : Text × Slot). signs s.1) slots))
              (warned ix written.0 unsigned_message written.1.file written.1.line)
      ]

  -- Everything that is found, before it is sorted.
  unfoldable pub found_changes : List (Text × Text) → List Change
  unfolding gone_change entry_changes ix_changes new_change ix_names
  found_changes renames =
      let base_ixs = ix_names base in
      let head_ixs = ix_names head in
      let new = only_of (map (λ (r : Text × Text). r.1) renames) (only_of base_ixs head_ixs) in
      concat_map (gone_change renames) (only_of head_ixs base_ixs)
      ++ (concat_map (entry_changes renames) base.slots
          ++ (concat_map (ix_changes renames) base_ixs ++ concat_map new_change new))

  unfoldable pub diff : List Change
  unfolding renamed found_changes reports_before sort_by
  diff = sort_by reports_before (found_changes (renamed base head))
