-- ===== src/Static/IdlDiff/KeptSlots.antt =====
-- idl_diff.rs: the pairing of slots leaves a slot that both versions have under its own path.
use solinv.Base.{
  Bool-cases, Option-cases, ◌==◌, eq_iff, all, All, All-append, contains, Text, ℕ, suc, ◌≡◌, refl,
  ap, inl, inr, Bool, true, false, ◌&&◌, ◌||◌, none, some, List, [], ◌∷◌, arith, ℕ_eq, list_eq,
  option_eq,
}
use solinv.Static.Renames.{
  Slot, same_bool, Renames, find_path, head_path, no_renames, slot_paths, Pair, score_pair,
  pairs_of, all_pairs, goes_before, insert_pair, sort_pairs, take_pairs, only_in, renames,
}
use solinv.Static.Idl.{IdlAccount}
use solinv.Static.IdlDiff.{find_slot}

-- A slot that head does not have.
abbrev Absent : List Slot → Slot → Type 0
Absent h s = contains (slot_paths h) s.0 ≡ false

only_in-Absent : (b h : List Slot) → All (Absent h) (only_in b h)
only_in-Absent [] h = tt
only_in-Absent (s ∷ b) h = elim (Bool-cases (contains (slot_paths h) s.0)) [
  | inl kept ↦ rw (kept, All) (only_in-Absent b h)
  | inr gone ↦ rw (gone, All) (gone, only_in-Absent b h)
]

abbrev FromAbsent : List Slot → List Pair → Type 0
FromAbsent h pairs = All (λ (p : Pair). Absent h p.from) pairs

pairs_of-FromAbsent :
    (b h : List Slot) (bi : ℕ) (from : Slot) (hi : ℕ) (free : List Slot)
    → Absent h from
    → FromAbsent h (pairs_of b h bi from hi free)
unfolding pairs_of score_pair
pairs_of-FromAbsent b h bi from hi [] gone = tt
pairs_of-FromAbsent b h bi from hi (to ∷ free) gone =
    elim (Bool-cases
      (same_bool to.1.signer from.1.signer && same_bool to.1.writable from.1.writable)) [
        | inl agree ↦ rw (agree, All) (gone, pairs_of-FromAbsent b h bi from (suc hi) free gone)
        | inr differ ↦ rw (differ, All) (pairs_of-FromAbsent b h bi from (suc hi) free gone)
      ]

all_pairs-FromAbsent :
    (b h free : List Slot) (bi : ℕ) (gone : List Slot)
    → All (Absent h) gone
    → FromAbsent h (all_pairs b h free bi gone)
unfolding all_pairs
all_pairs-FromAbsent b h free bi [] absent = tt
all_pairs-FromAbsent b h free bi (from ∷ gone) absent =
    All-append _ (pairs_of b h bi from 0 free) _ (pairs_of-FromAbsent b h bi from 0 free absent.0)
      (all_pairs-FromAbsent b h free (suc bi) gone absent.1)

insert_pair-FromAbsent :
    (h : List Slot) (x : Pair) (ys : List Pair)
    → Absent h x.from
    → FromAbsent h ys
    → FromAbsent h (insert_pair x ys)
unfolding insert_pair
insert_pair-FromAbsent h x [] hx hy = (hx, tt)
insert_pair-FromAbsent h x (y ∷ ys) hx hy = elim (Bool-cases (goes_before x y)) [
  | inl first ↦ rw (first, All) (hx, hy)
  | inr later ↦ rw (later, All) (hy.0, insert_pair-FromAbsent h x ys hx hy.1)
]

sort_pairs-FromAbsent :
    (h : List Slot) (xs : List Pair) → FromAbsent h xs → FromAbsent h (sort_pairs xs)
unfolding sort_pairs
sort_pairs-FromAbsent h [] all = tt
sort_pairs-FromAbsent h (x ∷ xs) all =
    insert_pair-FromAbsent h x (sort_pairs xs) all.0 (sort_pairs-FromAbsent h xs all.1)

-- No entry stands for a path that head has.
abbrev Unmapped : Text → Renames → Type 0
Unmapped path r = find_path r.paths path ≡ none

Absent-differs :
    (h : List Slot) (path : Text) (s : Slot)
    → contains (slot_paths h) path ≡ true
    → Absent h s
    → (s.0 == path) ≡ false
Absent-differs h path s kept gone = elim (Bool-cases (s.0 == path)) [
  | inl same ↦ absurd (ground (arith, kept, rw ((eq_iff s.0 path).0 same) at gone))
  | inr differs ↦ differs
]

take_pairs-Unmapped :
    (h : List Slot) (path : Text) (sure : Pair → Bool) (used_b used_h : List ℕ) (r : Renames)
    (pairs : List Pair)
    → contains (slot_paths h) path ≡ true
    → FromAbsent h pairs
    → Unmapped path r
    → Unmapped path (take_pairs sure used_b used_h r pairs)
unfolding take_pairs
take_pairs-Unmapped h path sure used_b used_h r [] kept absent unmapped = unmapped
take_pairs-Unmapped h path sure used_b used_h r (p ∷ pairs) kept absent unmapped =
    elim (Bool-cases (contains used_b p.bi || contains used_h p.hi)) [
      | inl used ↦
          rw used (take_pairs-Unmapped h path sure used_b used_h r pairs kept absent.1 unmapped)
      | inr free ↦ rw free (
          take_pairs-Unmapped h path sure (p.bi ∷ used_b) (p.hi ∷ used_h) _ pairs kept absent.1
            (rw (Absent-differs h path p.from kept absent.0) unmapped))
    ]

renames-Unmapped :
    (b h : List Slot) (path : Text)
    → contains (slot_paths h) path ≡ true
    → Unmapped path (renames b h)
unfolding renames
renames-Unmapped b h path kept =
    take_pairs-Unmapped h path _ [] [] no_renames _ kept
      (sort_pairs-FromAbsent h _
        (all_pairs-FromAbsent b h (only_in h b) 0 (only_in b h) (only_in-Absent b h)))
      refl

find_slot-contains :
    (slots : List Slot) (path : Text) (a : IdlAccount)
    → find_slot slots path ≡ some a
    → contains (slot_paths slots) path ≡ true
unfolding find_slot
find_slot-contains [] path a found = absurd (ground (arith, found))
find_slot-contains ((p, b) ∷ slots) path a found = elim (Option-cases (find_slot slots path)) [
  | inr (c, later) ↦ ground (arith, find_slot-contains slots path c later)
  | inl missing ↦ ground (arith, missing, found)
]

-- A slot that head has under its path stands there after the pairing too.
pub head_path-kept :
    (b h : List Slot) (path : Text) (a : IdlAccount)
    → find_slot h path ≡ some a
    → head_path (renames b h) path ≡ path
unfolding head_path
head_path-kept b h path a found =
    ap (λ o. elim o [ some to ↦ to | none ↦ path ])
      (renames-Unmapped b h path (find_slot-contains h path a found))
