-- ===== src/Static/IdlDiff/SameSlots.antt =====
-- idl_diff.rs on a slot and itself, and on an instruction and itself.
use mathlib.Core.Path.{subst}
use solinv.Base.{
  ltb, Option-cases, eq_refl, All, All-map, contains, contains-map, Text, ℕ, ◌≡◌, refl, sym, ap,
  ◌∙◌, inl, inr, Bool, true, false, not, ◌&&◌, Option, none, some, List, [], ◌∷◌, map, arith, ℕ_eq,
  list_eq, option_eq,
}
use solinv.Static.Idl.{IdlAccount, IdlInstruction, is_unsigned_writer}
use solinv.Static.Renames.{Slot, prefix_of, head_path, no_renames, slot_paths}
use solinv.Static.IdlDiff.{
  change, checks, flat, signers, find_slot, Sides, relation_loss, sure_losses, unsure_losses, lost,
  seeds_differ, addresses, when, losses, removed_checks, address_changes, diff_kept,
  is_loose_removal, diff_slot, diff_slots, diff_ix,
}
use solinv.Static.IdlDiff.Messages.{slot_gone_message}
use solinv.Static.IdlDiff.Whole.{paths_of}
use solinv.Static.IdlDiff.SameSeeds.{
  renames_self, sibling-same, same_seeds_self, address_change_self,
}
use solinv.Static.Change.{warning}

-- No text occurs twice.
abbrev pub distinct : List Text → Bool
distinct [] = true
distinct (x ∷ xs) = not (contains xs x) && distinct xs

seeds_differ_self :
    (prefix : Text) (d : Sides) (a : IdlAccount)
    → d.legacy_base ≡ d.legacy_head
    → seeds_differ no_renames prefix d a a ≡ false
unfolding seeds_differ
seeds_differ_self prefix d a formats = elim (Option-cases a.pda) [
  | inl missing ↦ rw missing refl
  | inr (x, found) ↦ rw (found, sym formats, same_seeds_self prefix x d.legacy_base) refl
]

relation_loss-kept :
    (head : List Slot) (prefix hp : Text) (ha : IdlAccount) (rel : Text)
    → contains ha.relations rel ≡ true
    → relation_loss no_renames head prefix hp ha rel ≡ none
unfolding relation_loss
relation_loss-kept head prefix hp ha rel h = rw (sibling-same prefix rel, h) refl

map-id {ℓ} : {A : Type ℓ} (xs : List A) → map (λ x. x) xs ≡ xs
map-id [] = refl
map-id (x ∷ xs) = ap (◌∷◌ x) (map-id xs)

losses_self :
    (head : List Slot) (prefix hp : Text) (ha : IdlAccount) (rels : List Text)
    → All (λ r. contains ha.relations r ≡ true) rels
    → (sure_losses (map (relation_loss no_renames head prefix hp ha) rels) ≡ [])
      × (unsure_losses (map (relation_loss no_renames head prefix hp ha) rels) ≡ [])
unfolding sure_losses unsure_losses
losses_self head prefix hp ha [] h = (refl, refl)
losses_self head prefix hp ha (rel ∷ rels) h =
    let kept : relation_loss no_renames head prefix hp ha rel ≡ none =
      relation_loss-kept head prefix hp ha rel h.0 in
    rw kept (losses_self head prefix hp ha rels h.1)

own-relations : (a : IdlAccount) → All (λ r. contains a.relations r ≡ true) a.relations
own-relations a =
    subst (λ rs. All (λ r. contains rs r ≡ true) a.relations) (map-id a.relations)
      (contains-map (λ r. r) a.relations)

head_path-same : (path : Text) → head_path no_renames path ≡ path
unfolding head_path
head_path-same path = refl

lost_self {ℓ} : {A : Type ℓ} (o : Option A) → lost o o ≡ false
lost_self none = refl
lost_self (some x) = refl

when_self : (b : Bool) → (b && not b) ≡ false
when_self true = refl
when_self false = refl

and-false : (b : Bool) → (b && false) ≡ false
and-false true = refl
and-false false = refl

losses_when_self :
    (b : Bool) (head : List Slot) (prefix hp : Text) (a : IdlAccount)
    → (sure_losses (when b (map (relation_loss no_renames head prefix hp a) a.relations)) ≡ [])
      × (unsure_losses (when b (map (relation_loss no_renames head prefix hp a) a.relations)) ≡ [])
unfolding sure_losses unsure_losses
losses_when_self true head prefix hp a = losses_self head prefix hp a a.relations (own-relations a)
losses_when_self false head prefix hp a = (refl, refl)

removed_checks_self :
    (head : List Slot) (d : Sides) (prefix hp : Text) (a : IdlAccount)
    → (removed_checks no_renames head d prefix hp a a ≡ [])
      × (unsure_losses (losses no_renames head d prefix hp a a) ≡ [])
unfolding removed_checks losses
removed_checks_self head d prefix hp a =
    let kept = losses_when_self d.resolved head prefix hp a in
    (
      rw
          (
            when_self a.signer,
            lost_self a.pda,
            lost_self a.address,
            and-false d.resolved,
            and-false (addresses d),
          )
          kept.0,
      kept.1,
    )

address_changes_self : (d : Sides) (at : Text) (a : IdlAccount) → address_changes d at a a ≡ []
address_changes_self d at a =
    ap
      (λ (o : Option Text). elim o [
        | none ↦ []
        | some message ↦ when (addresses d) (change warning d.ix at message ∷ [])
      ])
      (address_change_self a)

diff_kept_self :
    (head : List Slot) (d : Sides) (slot : Slot)
    → d.legacy_base ≡ d.legacy_head
    → diff_kept no_renames head d slot slot.1 ≡ []
unfolding diff_kept
diff_kept_self head d (path, a) formats =
    let kept = removed_checks_self head d (prefix_of path) path a in
    rw
      (
        head_path-same path,
        eq_refl path,
        seeds_differ_self (prefix_of path) d a formats,
        address_changes_self d path a,
        kept.0,
        kept.1,
      )
      (ground (arith, when_self a.optional))

diff_slot_self :
    (head : List Slot) (d : Sides) (path : Text) (a : IdlAccount)
    → d.legacy_base ≡ d.legacy_head
    → find_slot head path ≡ some a
    → diff_slot no_renames head d (path, a) ≡ []
unfolding diff_slot
diff_slot_self head d path a formats found =
    ap
      (λ o. elim o [
        | none ↦
            when (is_loose_removal a) (change warning d.ix path (slot_gone_message (checks a)) ∷ [])
        | some ha ↦ diff_kept no_renames head d (path, a) ha
      ])
      (ap (find_slot head) (head_path-same path) ∙ found)
    ∙ diff_kept_self head d (path, a) formats

diff_slots_self :
    (head : List Slot) (d : Sides) (slots : List Slot)
    → d.legacy_base ≡ d.legacy_head
    → All (λ (s : Slot). find_slot head s.0 ≡ some s.1) slots
    → diff_slots no_renames head d slots ≡ []
unfolding diff_slots
diff_slots_self head d [] formats h = refl
diff_slots_self head d ((path, a) ∷ slots) formats h =
    let rest = diff_slots_self head d slots formats h.1 in
    rw (diff_slot_self head d path a formats h.0) rest

find_slot-missing :
    (slots : List Slot) (path : Text)
    → contains (slot_paths slots) path ≡ false
    → find_slot slots path ≡ none
unfolding find_slot
find_slot-missing [] path h = refl
find_slot-missing ((p, a) ∷ slots) path h = ground (arith, h, find_slot-missing slots path)

find_slot-later :
    (p path : Text) (a b : IdlAccount) (slots : List Slot)
    → find_slot slots path ≡ some b
    → find_slot ((p, a) ∷ slots) path ≡ some b
unfolding find_slot
find_slot-later p path a b slots h = rw h refl

find_slot-first :
    (path : Text) (a : IdlAccount) (slots : List Slot)
    → contains (slot_paths slots) path ≡ false
    → find_slot ((path, a) ∷ slots) path ≡ some a
unfolding find_slot
find_slot-first path a slots h = rw (find_slot-missing slots path h, eq_refl path) refl

ltb_self : (n : ℕ) → ltb n n ≡ false
ltb_self n = ground arith

not-and_self : (b : Bool) → (not b && b) ≡ false
not-and_self true = refl
not-and_self false = refl

find_slot-own :
    (slots : List Slot)
    → distinct (slot_paths slots) ≡ true
    → All (λ (s : Slot). find_slot slots s.0 ≡ some s.1) slots
find_slot-own [] h = tt
find_slot-own ((path, a) ∷ slots) h = (
  find_slot-first path a slots (ground (arith, h)),
  All-map _ _ slots (λ s found. find_slot-later path s.0 a s.1 slots found)
      (find_slot-own slots (ground (arith, h))),
)

-- An instruction compared with itself, both in one format, is unchanged.
pub diff_ix_self :
    (b : IdlInstruction) (d : Sides)
    → d.legacy_base ≡ d.legacy_head
    → distinct (paths_of b) ≡ true
    → diff_ix b b d ≡ []
unfolding diff_ix
diff_ix_self b d formats once =
    let slots = diff_slots_self (flat b) d (flat b) formats (find_slot-own (flat b) once) in
    rw (renames_self (flat b), slots, ltb_self (signers b), not-and_self (is_unsigned_writer b))
      refl
