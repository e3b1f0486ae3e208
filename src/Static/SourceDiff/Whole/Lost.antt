-- ===== src/Static/SourceDiff/Whole/Lost.antt =====
-- diff.rs on a check that a slot of the base version has lost, in the whole report.
use solinv.Base.{
  get_elem?, any, concat_map, any-front, any-behind, any-concat_map, Text, any-sort_by, ℕ, ◌≡◌, ◌∙◌,
  true, some, List,
}
use solinv.Static.Source.{Slot, SourceKinds, slot_at, ix_names}
use solinv.Static.SourceDiff.Keys.{TextTools}
use solinv.Static.SourceDiff.Slots.{Compared}
use solinv.Static.SourceDiff.Constraints.Lost.{Loss, is_regression_at, slot_changes-Loss}
use solinv.Static.SourceDiff.Renamed.{only_of, renamed, name_in_head}
use solinv.Static.SourceDiff.Whole.{reports_before, gone_change, entry_changes, found_changes, diff}

abbrev pub compared : SourceKinds → SourceKinds → Text → Text → Text → Slot → Slot → Compared
compared base head base_ix ix path was now = record {
  base = base;
  head = head;
  base_ix = base_ix;
  ix = ix;
  path = path;
  was = was;
  now = now;
}

module _ (tools : TextTools) (base head : SourceKinds) (base_ix ix path : Text)
    (was now : Slot) where
  entry_changes-Loss :
      (renames : List (Text × Text))
      → name_in_head renames head base_ix ≡ some ix
      → slot_at head ix path ≡ some now
      → Loss tools (compared base head base_ix ix path was now)
      → any
          (is_regression_at ix path)
          (entry_changes tools base head renames ((base_ix, path), was))
        ≡ true
  unfolding entry_changes
  entry_changes-Loss renames named found loss =
      rw (entry_changes, named, found)
        (slot_changes-Loss (compared base head base_ix ix path was now) tools loss)

  -- A slot that only the base version checks in one of these ways, with nothing that `diff` takes in its
  -- stead, is a regression of the report at the slot's path, where the head version still has the slot
  -- and its instruction, under its own name or a new one: its signature, its owner and type, its seeds,
  -- owner or address, the mint or the authority of a token account, a `has_one`, its closing, a check of
  -- the handler, or one of `validate`. Constraints are not among them.
  pub diff-Loss :
      (i : ℕ)
      → get_elem? base.slots i ≡ some ((base_ix, path), was)
      → name_in_head (renamed base head) head base_ix ≡ some ix
      → slot_at head ix path ≡ some now
      → Loss tools (compared base head base_ix ix path was now)
      → any (is_regression_at ix path) (diff tools base head) ≡ true
  unfolding diff found_changes
  diff-Loss i entry named found loss =
      let renames = renamed base head in
      let at_path = is_regression_at ix path in
      any-sort_by reports_before at_path (found_changes tools base head renames)
      ∙ any-behind at_path
          (concat_map (gone_change tools base head renames)
            (only_of (ix_names head) (ix_names base)))
          _
          (any-front at_path (concat_map (entry_changes tools base head renames) base.slots) _ (
            any-concat_map at_path (entry_changes tools base head renames) base.slots i
              ((base_ix, path), was) entry (entry_changes-Loss renames named found loss)))
