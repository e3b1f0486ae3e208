-- ===== src/Static/IdlDiff/Losses.antt =====
-- idl_diff.rs on a slot that both versions have under one path: which lost checks are regressions.
use solinv.Base.{
  nat_eq, Bool-cases, ◌==◌, eq_refl, length, get_elem?, any, any-front, any-behind, Text, ℕ, zero,
  suc, ◌≡◌, refl, ap, ◌∙◌, inl, inr, Bool, true, false, not, ◌&&◌, ◌||◌, some, List, [], ◌∷◌, ◌++◌,
  arith, ℕ_eq, list_eq, option_eq,
}
use solinv.Static.Renames.{Slot, Renames, prefix_of, head_path, renames}
use solinv.Static.Idl.{IdlAccount, IdlInstruction}
use solinv.Static.IdlDiff.{
  flat, find_slot, Sides, sure_losses, unsure_losses, lost, seeds_differ, addresses, when, losses,
  removed_checks, report_joined, seed_changes, address_changes, optional_changes, diff_kept,
  diff_slot, diff_slots, guess_changes, fewer_signers, now_unsigned, diff_ix,
}
use solinv.Static.IdlDiff.Messages.{no_signer_message, no_seeds_message, no_address_message}
use solinv.Static.IdlDiff.KeptSlots.{head_path-kept}
use solinv.Static.Change.{regression, warning, Change}

-- A regression reported at a path.
abbrev pub is_regression_at : Text → Change → Bool
is_regression_at path c = elim c.severity [ regression ↦ c.path == path | warning ↦ false ]

-- A signer, or seeds or a fixed address where the two versions can be compared on them, that only
-- the base version declares.
abbrev pub loses_check : Sides → IdlAccount → IdlAccount → Bool
loses_check d ba ha =
    (ba.signer && not ha.signer)
    || ((d.resolved && lost ba.pda ha.pda) || (addresses d && lost ba.address ha.address))

when-one :
    (c : Bool) (m : Text) (rest : List Text)
    → c ≡ true
    → nat_eq (length (when c (m ∷ []) ++ rest)) 0 ≡ false
when-one c m rest h = rw h (ground arith)

when-rest :
    (c : Bool) (m : Text) (rest : List Text)
    → nat_eq (length rest) 0 ≡ false
    → nat_eq (length (when c (m ∷ []) ++ rest)) 0 ≡ false
when-rest true m rest h = ground arith
when-rest false m rest h = h

removed_checks-some :
    (r : Renames) (head : List Slot) (d : Sides) (prefix hp : Text) (ba ha : IdlAccount)
    → loses_check d ba ha ≡ true
    → nat_eq (length (removed_checks r head d prefix hp ba ha)) 0 ≡ false
unfolding removed_checks
removed_checks-some r head d prefix hp ba ha loses =
    let relations : List Text = sure_losses (losses r head d prefix hp ba ha) in
    let address = addresses d && lost ba.address ha.address in
    let seeds = d.resolved && lost ba.pda ha.pda in
    let after_seeds : List Text = when address (no_address_message ∷ []) ++ relations in
    let after_signer : List Text = when seeds (no_seeds_message ∷ []) ++ after_seeds in
    elim (Bool-cases (ba.signer && not ha.signer)) [
      | inl unsigned ↦ when-one (ba.signer && not ha.signer) no_signer_message after_signer unsigned
      | inr signed ↦
          when-rest (ba.signer && not ha.signer) no_signer_message after_signer
            (elim (Bool-cases seeds) [
              | inl unseeded ↦ when-one seeds no_seeds_message after_seeds unseeded
              | inr seeded ↦
                  let moved : address ≡ true = ground (arith, signed, seeded, loses) in
                  when-rest seeds no_seeds_message after_seeds
                    (when-one address no_address_message relations moved)
            ])
    ]

report_joined-any :
    (ix path : Text) (ms : List Text)
    → nat_eq (length ms) 0 ≡ false
    → any (is_regression_at path) (report_joined regression ix path ms) ≡ true
report_joined-any ix path [] h = absurd (ground (arith, h))
report_joined-any ix path (m ∷ ms) h = rw (eq_refl path) refl

diff_kept-regresses :
    (r : Renames) (head : List Slot) (d : Sides) (path : Text) (ba ha : IdlAccount)
    → d.guessed ≡ false
    → head_path r path ≡ path
    → loses_check d ba ha ≡ true
    → any (is_regression_at path) (diff_kept r head d (path, ba) ha) ≡ true
unfolding diff_kept seeds_differ removed_checks losses
diff_kept-regresses r head d path ba ha named kept loses =
    let p = is_regression_at path in
    let prefix = prefix_of path in
    let removed = removed_checks r head d prefix path ba ha in
    let seeds = seed_changes r d prefix path ba ha in
    let address = address_changes d path ba ha in
    let reported = report_joined regression d.ix path removed in
    let later =
      report_joined warning d.ix path (unsure_losses (losses r head d prefix path ba ha))
      ++ optional_changes d path ba ha in
    let here : any p reported ≡ true =
      report_joined-any d.ix path removed (removed_checks-some r head d prefix path ba ha loses) in
    rw (kept, named, eq_refl path)
      (any-behind p seeds (address ++ (reported ++ later))
        (any-behind p address (reported ++ later) (any-front p reported later here)))

diff_slot-regresses :
    (r : Renames) (head : List Slot) (d : Sides) (path : Text) (ba ha : IdlAccount)
    → d.guessed ≡ false
    → head_path r path ≡ path
    → find_slot head path ≡ some ha
    → loses_check d ba ha ≡ true
    → any (is_regression_at path) (diff_slot r head d (path, ba)) ≡ true
unfolding diff_slot
diff_slot-regresses r head d path ba ha named kept found loses =
    rw (ap (find_slot head) kept ∙ found, diff_slot)
      (diff_kept-regresses r head d path ba ha named kept loses)

diff_slots-any :
    (p : Change → Bool) (r : Renames) (head : List Slot) (d : Sides) (slots : List Slot) (i : ℕ)
    (s : Slot)
    → get_elem? slots i ≡ some s
    → any p (diff_slot r head d s) ≡ true
    → any p (diff_slots r head d slots) ≡ true
unfolding diff_slots
diff_slots-any p r head d [] i s at h = absurd (ground (arith, at))
diff_slots-any p r head d (x ∷ slots) zero s at h =
    let same : x ≡ s = ground (arith, at) in
    any-front p (diff_slot r head d x) (diff_slots r head d slots) (rw same h)
diff_slots-any p r head d (x ∷ slots) (suc i) s at h =
    any-behind p (diff_slot r head d x) (diff_slots r head d slots)
      (diff_slots-any p r head d slots i s at h)

-- Between two versions of an instruction under one name, a slot that both have under its path and
-- that loses its signer, or its seeds or fixed address where those are compared, is reported as a
-- regression at that path, whatever the other slots and the pairing of renamed slots.
pub lost_check-regresses :
    (b h : IdlInstruction) (d : Sides) (i : ℕ) (path : Text) (ba ha : IdlAccount)
    → d.guessed ≡ false
    → get_elem? (flat b) i ≡ some (path, ba)
    → find_slot (flat h) path ≡ some ha
    → loses_check d ba ha ≡ true
    → any (is_regression_at path) (diff_ix b h d) ≡ true
unfolding diff_ix
lost_check-regresses b h d i path ba ha named at found loses =
    let kept = head_path-kept (flat b) (flat h) path ha found in
    let here =
      diff_slots-any (is_regression_at path) (renames (flat b) (flat h)) (flat h) d (flat b) i
        (path, ba) at
        (diff_slot-regresses (renames (flat b) (flat h)) (flat h) d path ba ha named kept found
          loses) in
    let r = renames (flat b) (flat h) in
    let p = is_regression_at path in
    let last = fewer_signers b h d r ++ now_unsigned b h d in
    any-behind p (guess_changes d r.guessed) (diff_slots r (flat h) d (flat b) ++ last)
      (any-front p (diff_slots r (flat h) d (flat b)) last here)
