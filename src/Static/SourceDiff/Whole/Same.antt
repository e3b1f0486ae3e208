-- ===== src/Static/SourceDiff/Whole/Same.antt =====
-- diff.rs on a source and itself.
use solinv.Base.{
  eq_iff, All, All-of, All-both, All-map, contains, contains-map, filter-none, All-self,
  concat_map-empty, Text, look_up, sort_by, ◌≡◌, refl, ap, true, not, ◌||◌, some, List, [], ◌∷◌,
  map, arith, ℕ_eq, list_eq, option_eq,
}
use solinv.Static.Source.{Slot, SourceKinds, slot_at, ix_checks, distinct_from, ix_names}
use solinv.Static.SourceDiff.Checks.{copies}
use solinv.Static.SourceDiff.Keys.{TextTools}
use solinv.Static.SourceDiff.Constraints.Unchanged.{none-more, slot_changes_self}
use solinv.Static.SourceDiff.Renamed.{settle, only_of, scored_pairs, renamed, name_in_head}
use solinv.Static.SourceDiff.Whole.{entry_changes, lost_in_ix, ix_changes, found_changes, diff}

-- Every entry is what its key finds: no key stands twice.
abbrev pub IsMap : SourceKinds → Type 0
IsMap k = All (λ (e : (Text × Text) × Slot). slot_at k e.0.0 e.0.1 ≡ some e.1) k.slots

abbrev names_of : List ((Text × Text) × Slot) → List Text
names_of slots = map (λ (e : (Text × Text) × Slot). e.0.0) slots

contains-distinct_from :
    (seen names : List Text) (n : Text)
    → contains names n ≡ true
    → (contains seen n || contains (distinct_from seen names) n) ≡ true
unfolding distinct_from
contains-distinct_from seen [] n h = ground (arith, h)
contains-distinct_from seen (m ∷ names) n h = grind (
  arith,
  h,
  eq_iff m n,
  contains-distinct_from seen names n,
  contains-distinct_from (m ∷ seen) names n,
)

-- An instruction of some slot is among the instructions.
pub contains-ix_names :
    (k : SourceKinds) (n : Text)
    → contains (names_of k.slots) n ≡ true
    → contains (ix_names k) n ≡ true
unfolding ix_names
contains-ix_names k n h = contains-distinct_from [] (names_of k.slots) n h

only_of_self : (xs : List Text) → only_of xs xs ≡ []
only_of_self xs =
    filter-none (λ x. not (contains xs x)) xs (All-map _ _ xs (λ x h. ap not h) (All-self xs))

renamed_self : (k : SourceKinds) → renamed k k ≡ []
unfolding renamed scored_pairs sort_by settle
renamed_self k = rw (only_of_self (ix_names k)) refl

module _ (tools : TextTools) (k : SourceKinds) where
  name_in_head_self : (n : Text) → contains (ix_names k) n ≡ true → name_in_head [] k n ≡ some n
  unfolding name_in_head look_up
  name_in_head_self n h = rw h refl

  entry_changes_self :
      (e : (Text × Text) × Slot)
      → contains (ix_names k) e.0.0 ≡ true
      → slot_at k e.0.0 e.0.1 ≡ some e.1
      → entry_changes tools k k [] e ≡ []
  unfolding entry_changes
  entry_changes_self ((ix, path), s) named found =
      rw (entry_changes, name_in_head_self ix named, found) (slot_changes_self tools k ix path s)

  ix_changes_self : (n : Text) → contains (ix_names k) n ≡ true → ix_changes tools k k [] n ≡ []
  unfolding lost_in_ix ix_changes
  ix_changes_self n named =
      rw
        (
          ix_changes,
          name_in_head_self n named,
          filter-none (lost_in_ix tools k k n n) (distinct_from [] (ix_checks k n)) (
              All-of _ (distinct_from [] (ix_checks k n))
                (λ c. rw (none-more (copies (ix_checks k n) c)) refl)),
        )
        refl

  found_changes_self : IsMap k → found_changes tools k k [] ≡ []
  unfolding found_changes
  found_changes_self is_map =
      let named = contains-map (λ (e : (Text × Text) × Slot). e.0.0) k.slots in
      let entries =
        All-map _ _ k.slots (λ e h. entry_changes_self e (contains-ix_names k e.0.0 h.0) h.1)
          (All-both _ _ k.slots named is_map) in
      let ixs = All-map _ _ (ix_names k) ix_changes_self (All-self (ix_names k)) in
      rw
        (
          found_changes,
          only_of_self (ix_names k),
          concat_map-empty (entry_changes tools k k []) k.slots entries,
          concat_map-empty (ix_changes tools k k []) (ix_names k) ixs,
        )
        refl

  -- A source read into a map shows no change against itself.
  pub diff_self : IsMap k → diff tools k k ≡ []
  unfolding sort_by diff
  diff_self is_map = rw (diff, renamed_self k, found_changes_self is_map) refl
