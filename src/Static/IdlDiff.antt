-- ===== src/Static/IdlDiff.antt =====
-- crates/solinv-static/src/idl_diff.rs: the changes between two versions of an IDL that remove a check
-- or may have.
pub mod Messages
pub mod Whole
pub mod SameSeeds
pub mod SameSlots
pub mod Same
pub mod KeptSlots
pub mod Losses
pub mod Regressions
use solinv.Base.{
  ltb, nat_eq, if◌then◌else◌, is_some, or_else, ◌==◌, length, any, count, contains, Text, codes, ℕ,
  Bool, true, false, not, ◌&&◌, Option, none, some, List, [], ◌∷◌, ◌++◌, map, ℕ_eq, list_eq,
  option_eq,
}
use solinv.Static.Idl.{
  IdlAccount, IdlInstruction, FlatAccount, join, flat_accounts, path_of, is_unsigned_writer,
}
use solinv.Static.Renames.{
  Slot, Renames, prefix_of, leaf_of, head_path, full_path, sibling, same_seeds, renames,
}
use solinv.Static.IdlDiff.Messages.{
  guess_message, slot_gone_message, no_signer_message, no_seeds_message, no_address_message,
  seeds_message, address_message, has_one_message, moved_message, optional_message, now_path,
  fewer_signers_message, unsigned_message,
}
use solinv.Static.Change.{Severity, regression, warning, Change}

-- A change read from an IDL has no file and no line.
abbrev pub change : Severity → Text → Text → Text → Change
change severity ix path message = record {
  severity = severity;
  ix = ix;
  path = path;
  message = message;
  file = [];
  line = 0;
}

unfoldable pub checks : IdlAccount → List Text
checks a =
    (if a.signer then codes "signer" ∷ [] else [])
    ++ ((if is_some a.pda then codes "seeds" ∷ [] else [])
        ++ ((if is_some a.address then codes "address" ∷ [] else [])
            ++ map (λ r. r ++ (codes " has_one = " ++ a.name)) a.relations))

unfoldable pub flat : IdlInstruction → List Slot
flat ix = map (λ f. (path_of f, f.account)) (flat_accounts ix)

unfoldable pub signers : IdlInstruction → ℕ
signers ix = count (λ (f : FlatAccount). f.account.signer) (flat_accounts ix)

-- `head.get(path)`, in a map that was collected from the slots: the last one of a path.
unfoldable pub find_slot : List Slot → Text → Option IdlAccount
find_slot [] path = none
find_slot ((p, a) ∷ slots) path =
    or_else (find_slot slots path) (if p == path then some a else none)

-- What one call of `diff_ix` is told of the two versions.
pub record Sides : Type 0 where
  pub guessed : Bool
  pub resolved : Bool
  pub legacy_base : Bool
  pub legacy_head : Bool
  pub ix : Text

-- A relation that the head version no longer lists, and whether the declaring slot is still there.
unfoldable pub relation_loss :
    Renames → List Slot → Text → Text → IdlAccount → Text → Option (Bool × Text)
relation_loss r head prefix hp ha rel =
    let now = sibling r prefix rel in
    let declarer = full_path prefix rel in
    if contains ha.relations now
    then none
    else some (
      (head_path r declarer == declarer) && is_some (find_slot head declarer),
      has_one_message now (leaf_of hp),
    )

unfoldable pub sure_losses : List (Option (Bool × Text)) → List Text
sure_losses [] = []
sure_losses (none ∷ losses) = sure_losses losses
sure_losses (some (true, message) ∷ losses) = message ∷ sure_losses losses
sure_losses (some (false, message) ∷ losses) = sure_losses losses

unfoldable pub unsure_losses : List (Option (Bool × Text)) → List Text
unsure_losses [] = []
unsure_losses (none ∷ losses) = unsure_losses losses
unsure_losses (some (true, message) ∷ losses) = unsure_losses losses
unsure_losses (some (false, message) ∷ losses) = moved_message message ∷ unsure_losses losses

-- Whether a check that may be there is there only in the base version, and whether it differs.
abbrev pub lost {ℓ} : {A : Type ℓ} → Option A → Option A → Bool
lost (some x) none = true
lost (some x) (some y) = false
lost none h = false

unfoldable pub seeds_differ : Renames → Text → Sides → IdlAccount → IdlAccount → Bool
seeds_differ r prefix d ba ha = elim ba.pda [
  | none ↦ false
  | some x ↦ elim ha.pda [
    | none ↦ false
    | some y ↦ not (same_seeds r prefix x y (d.legacy_base, d.legacy_head))
  ]
]

abbrev pub addresses : Sides → Bool
addresses d = d.resolved && (not d.legacy_base && not d.legacy_head)

unfoldable pub address_change : IdlAccount → IdlAccount → Option Text
address_change ba ha = elim ba.address [
  | none ↦ none
  | some x ↦ elim ha.address [
    | none ↦ none
    | some y ↦ if x == y then none else some (address_message x y)
  ]
]

abbrev pub when {ℓ} : {A : Type ℓ} → Bool → List A → List A
when true xs = xs
when false xs = []

-- The losses of the relations of a kept slot.
unfoldable pub losses :
    Renames
    → List Slot
    → Sides
    → Text
    → Text
    → IdlAccount
    → IdlAccount
    → List (Option (Bool × Text))
losses r head d prefix hp ba ha =
    when d.resolved (map (relation_loss r head prefix hp ha) ba.relations)

-- `removed`: the checks of a kept slot that are surely gone.
unfoldable pub removed_checks :
    Renames → List Slot → Sides → Text → Text → IdlAccount → IdlAccount → List Text
removed_checks r head d prefix hp ba ha =
    when (ba.signer && not ha.signer) (no_signer_message ∷ [])
    ++ (when (d.resolved && lost ba.pda ha.pda) (no_seeds_message ∷ [])
        ++ (when (addresses d && lost ba.address ha.address) (no_address_message ∷ [])
            ++ sure_losses (losses r head d prefix hp ba ha)))

-- One finding of a list of messages, unless it is empty.
abbrev pub report_joined : Severity → Text → Text → List Text → List Change
report_joined severity ix at [] = []
report_joined severity ix at (m ∷ ms) = change severity ix at (join (codes "; ") (m ∷ ms)) ∷ []

abbrev pub seed_changes : Renames → Sides → Text → Text → IdlAccount → IdlAccount → List Change
seed_changes r d prefix at ba ha =
    when (d.resolved && seeds_differ r prefix d ba ha) (change warning d.ix at seeds_message ∷ [])

abbrev pub address_changes : Sides → Text → IdlAccount → IdlAccount → List Change
address_changes d at ba ha = elim (address_change ba ha) [
  | none ↦ []
  | some message ↦ when (addresses d) (change warning d.ix at message ∷ [])
]

abbrev pub optional_changes : Sides → Text → IdlAccount → IdlAccount → List Change
optional_changes d at ba ha =
    when (not ba.optional && ha.optional) (change warning d.ix at optional_message ∷ [])

-- On a slot paired by shape the loss may be the pairing's.
abbrev pub severity_of : Sides → Text → Text → Severity
severity_of d path hp = if not d.guessed && (hp == path) then regression else warning

-- A slot that is still there, perhaps under another name.
unfoldable pub diff_kept : Renames → List Slot → Sides → Slot → IdlAccount → List Change
diff_kept r head d (path, ba) ha =
    let hp = head_path r path in
    let prefix = prefix_of path in
    let at = if hp == path then path else now_path path hp in
    seed_changes r d prefix at ba ha
    ++ (address_changes d at ba ha
        ++ (report_joined (severity_of d path hp) d.ix at (removed_checks r head d prefix hp ba ha)
            ++ (report_joined warning d.ix at (unsure_losses (losses r head d prefix hp ba ha))
                ++ optional_changes d at ba ha)))

-- A slot that is gone; one with only a fixed address loosens nothing.
unfoldable pub is_loose_removal : IdlAccount → Bool
is_loose_removal ba =
    let gone = checks ba in
    not (nat_eq (length gone) 0) && not (nat_eq (length gone) 1 && is_some ba.address)

unfoldable pub diff_slot : Renames → List Slot → Sides → Slot → List Change
diff_slot r head d (path, ba) = elim (find_slot head (head_path r path)) [
  | none ↦
      when (is_loose_removal ba) (change warning d.ix path (slot_gone_message (checks ba)) ∷ [])
  | some ha ↦ diff_kept r head d (path, ba) ha
]

-- Whether the slot sets `signer_reported`.
unfoldable pub reports_signer : Renames → List Slot → Slot → Bool
reports_signer r head (path, ba) = elim (find_slot head (head_path r path)) [
  | none ↦ is_loose_removal ba && ba.signer
  | some ha ↦ ba.signer && not ha.signer
]

unfoldable pub diff_slots : Renames → List Slot → Sides → List Slot → List Change
diff_slots r head d [] = []
diff_slots r head d (slot ∷ slots) = diff_slot r head d slot ++ diff_slots r head d slots

abbrev pub guess_changes : Sides → List (Text × Text) → List Change
guess_changes d guesses = map (λ g. change warning d.ix g.0 (guess_message g.1)) guesses

abbrev pub fewer_signers : IdlInstruction → IdlInstruction → Sides → Renames → List Change
fewer_signers b h d r =
    when (ltb (signers h) (signers b) && not (any (reports_signer r (flat h)) (flat b)))
      (change warning d.ix [] (fewer_signers_message (signers h) (signers b)) ∷ [])

abbrev pub now_unsigned : IdlInstruction → IdlInstruction → Sides → List Change
now_unsigned b h d =
    when (not (is_unsigned_writer b) && is_unsigned_writer h)
      (change warning d.ix [] unsigned_message ∷ [])

unfoldable pub diff_ix : IdlInstruction → IdlInstruction → Sides → List Change
diff_ix b h d =
    let r = renames (flat b) (flat h) in
    guess_changes d r.guessed
    ++ (diff_slots r (flat h) d (flat b) ++ (fewer_signers b h d r ++ now_unsigned b h d))
