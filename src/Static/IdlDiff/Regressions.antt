-- ===== src/Static/IdlDiff/Regressions.antt =====
-- idl_diff.rs: what stands behind a regression that the comparison of two instructions reports.
use solinv.Base.{
  ltb, if◌then◌else◌, Bool-cases, Option-cases, is_some, ◌==◌, eq_iff, eq_refl, any, All,
  All-append, All-map, Text, codes, ◌≡◌, refl, sym, inl, inr, Bool, true, false, not, ◌&&◌, List,
  [], ◌∷◌, arith, ℕ_eq, list_eq, option_eq,
}
use solinv.Static.Renames.{Slot, Renames, prefix_of, head_path, renames}
use solinv.Static.Idl.{IdlAccount, IdlInstruction, join, is_unsigned_writer}
use solinv.Static.IdlDiff.{
  change, checks, flat, signers, find_slot, Sides, unsure_losses, seeds_differ, addresses,
  address_change, when, losses, removed_checks, report_joined, seed_changes, address_changes,
  severity_of, diff_kept, is_loose_removal, diff_slot, reports_signer, diff_slots, guess_changes,
  fewer_signers, diff_ix,
}
use solinv.Static.IdlDiff.Messages.{
  guess_message, slot_gone_message, seeds_message, optional_message, now_path,
  fewer_signers_message, unsigned_message,
}
use solinv.Static.Change.{regression, warning, Change}

abbrev pub is_regression : Change → Bool
is_regression c = elim c.severity [ regression ↦ true | warning ↦ false ]

-- Both versions have a slot under the path of the finding, and their pairing was no guess.
abbrev pub IsSure : List Slot → List Slot → Sides → Change → Type 0
IsSure base head d c =
    (any (λ (s : Slot). s.0 == c.path) base ≡ true)
    × ((is_some (find_slot head c.path) ≡ true) × (d.guessed ≡ false))

abbrev IsSound : List Slot → List Slot → Sides → Change → Type 0
IsSound base head d c = is_regression c ≡ true → IsSure base head d c

module _ (base head : List Slot) (d : Sides) where
  warning-IsSound : (ix path message : Text) → IsSound base head d (change warning ix path message)
  warning-IsSound ix path message h = ground (arith, h)

  warnings-IsSound :
      (c : Bool) (ix path message : Text)
      → All (IsSound base head d) (when c (change warning ix path message ∷ []))
  warnings-IsSound true ix path message = (warning-IsSound ix path message, tt)
  warnings-IsSound false ix path message = tt

  joined_warning-IsSound :
      (ix at : Text) (ms : List Text) → All (IsSound base head d) (report_joined warning ix at ms)
  joined_warning-IsSound ix at [] = tt
  joined_warning-IsSound ix at (m ∷ ms) = (warning-IsSound ix at (join (codes "; ") (m ∷ ms)), tt)

  address_changes-IsSound :
      (at : Text) (ba ha : IdlAccount) → All (IsSound base head d) (address_changes d at ba ha)
  address_changes-IsSound at ba ha = elim (Option-cases (address_change ba ha)) [
    | inl e ↦ rw (address_changes, e) tt
    | inr (message, e) ↦ rw (address_changes, e) (warnings-IsSound (addresses d) d.ix at message)
  ]

  guesses-IsSound :
      (guesses : List (Text × Text)) → All (IsSound base head d) (guess_changes d guesses)
  guesses-IsSound [] = tt
  guesses-IsSound (g ∷ guesses) =
      (warning-IsSound d.ix g.0 (guess_message g.1), guesses-IsSound guesses)

  -- A joined finding is a regression only on a slot that keeps its path in a sure comparison.
  joined-IsSound :
      (path hp ix : Text) (ms : List Text)
      → any (λ (s : Slot). s.0 == path) base ≡ true
      → is_some (find_slot head hp) ≡ true
      → All (IsSound base head d) (
          report_joined
            (severity_of d path hp)
            ix
            (if hp == path then path else now_path path hp)
            ms)
  joined-IsSound path hp ix [] own found = tt
  joined-IsSound path hp ix (m ∷ ms) own found = elim (Bool-cases (hp == path)) [
    | inl e ↦ elim (Bool-cases d.guessed) [
      | inl g ↦ rw (e, g) ((λ h. ground (arith, h)), tt)
      | inr g ↦ rw (e, g) ((λ h. (own, (rw (sym ((eq_iff hp path).0 e)) found, refl))), tt)
    ]
    | inr e ↦ elim (Bool-cases d.guessed) [
      | inl g ↦ rw (e, g) ((λ h. ground (arith, h)), tt)
      | inr g ↦ rw (e, g) ((λ h. ground (arith, h)), tt)
    ]
  ]

  diff_slot-IsSound :
      (r : Renames) (path : Text) (ba : IdlAccount)
      → any (λ (s : Slot). s.0 == path) base ≡ true
      → All (IsSound base head d) (diff_slot r head d (path, ba))
  unfolding diff_slot diff_kept
  diff_slot-IsSound r path ba own = elim (Option-cases (find_slot head (head_path r path))) [
    | inl e ↦
        rw (diff_slot, e)
          (warnings-IsSound (is_loose_removal ba) d.ix path (slot_gone_message (checks ba)))
    | inr (ha, e) ↦
        let hp = head_path r path in
        let prefix = prefix_of path in
        let at = if hp == path then path else now_path path hp in
        let S = IsSound base head d in
        rw (diff_slot, e)
          (All-append S (seed_changes r d prefix at ba ha) _
            (warnings-IsSound (d.resolved && seeds_differ r prefix d ba ha) d.ix at seeds_message)
            (All-append S (address_changes d at ba ha) _ (address_changes-IsSound at ba ha) (
              All-append S
                (report_joined (severity_of d path hp) d.ix at
                  (removed_checks r head d prefix hp ba ha))
                _
                (joined-IsSound path hp d.ix (removed_checks r head d prefix hp ba ha) own
                  (rw e refl))
                (All-append S
                  (report_joined warning d.ix at (unsure_losses (losses r head d prefix hp ba ha)))
                  _
                  (joined_warning-IsSound d.ix at (unsure_losses (losses r head d prefix hp ba ha)))
                  (warnings-IsSound (not ba.optional && ha.optional) d.ix at optional_message)))))
  ]

  diff_slots-IsSound :
      (r : Renames) (slots : List Slot)
      → All (λ (s : Slot). any (λ (o : Slot). o.0 == s.0) base ≡ true) slots
      → All (IsSound base head d) (diff_slots r head d slots)
  unfolding diff_slots
  diff_slots-IsSound r [] own = tt
  diff_slots-IsSound r ((path, ba) ∷ slots) (here, later) =
      All-append (IsSound base head d) (diff_slot r head d (path, ba)) _
        (diff_slot-IsSound r path ba here) (diff_slots-IsSound r slots later)

-- Every slot stands in its list.
any-own :
    (slots : List Slot) → All (λ (s : Slot). any (λ (o : Slot). o.0 == s.0) slots ≡ true) slots
any-own [] = tt
any-own (s ∷ slots) = (
  ground (arith, eq_refl s.0),
  All-map (λ (t : Slot). any (λ (o : Slot). o.0 == t.0) slots ≡ true)
      (λ (t : Slot). any (λ (o : Slot). o.0 == t.0) (s ∷ slots) ≡ true) slots
      (λ t h. ground (arith, h)) (any-own slots),
)

-- Every regression that `diff_ix` reports is at a path that both versions have a slot under, in a
-- comparison of two instructions whose pairing was no guess.
pub diff_ix-regressions :
    (b h : IdlInstruction) (d : Sides)
    → All (λ c. is_regression c ≡ true → IsSure (flat b) (flat h) d c) (diff_ix b h d)
unfolding diff_ix
diff_ix-regressions b h d =
    let r = renames (flat b) (flat h) in
    let S = IsSound (flat b) (flat h) d in
    All-append S (guess_changes d r.guessed) _ (guesses-IsSound (flat b) (flat h) d r.guessed) (
      All-append S (diff_slots r (flat h) d (flat b)) _
        (diff_slots-IsSound (flat b) (flat h) d r (flat b) (any-own (flat b)))
        (All-append S (fewer_signers b h d r) _
          (warnings-IsSound (flat b) (flat h) d
            (ltb (signers h) (signers b) && not (any (reports_signer r (flat h)) (flat b))) d.ix []
            (fewer_signers_message (signers h) (signers b)))
          (warnings-IsSound (flat b) (flat h) d (not (is_unsigned_writer b) && is_unsigned_writer h)
            d.ix [] unsigned_message)))
