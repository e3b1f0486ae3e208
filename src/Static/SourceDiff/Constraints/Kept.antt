-- ===== src/Static/SourceDiff/Constraints/Kept.antt =====
-- diff.rs on a slot that keeps every check of the base version, and may declare more.
use solinv.Base.{
  is_some, ◌==◌, any, filter, All, All-of, All-map, contains, filter-none, any-append,
  concat_map-empty, any-map, Text, codes, ◌≤◌, ◌≡◌, refl, ap, ◌∙◌, Bool, true, false, not, ◌&&◌,
  Option, none, some, List, [], ◌∷◌, ◌++◌, arith, ℕ_eq, list_eq, option_eq,
}
use solinv.Static.Source.{is_typed, is_unchecked, distinct_from}
use solinv.Static.SourceDiff.Checks.{signs, copies}
use solinv.Static.SourceDiff.Keys.{TextTools, token_value}
use solinv.Static.SourceDiff.Slots.{
  Compared, Finding, warn, when_so, type_change, optional_change, signature_change, seeds_change,
  owner_change, close_change, unless_restated, restated_here, own_eq, address_changed, token_change,
}
use solinv.Static.SourceDiff.Constraints.{
  gone_from, constraint_changes, is_lost, body_change, findings, is_merged, merge, at_slot,
  slot_changes,
}
use solinv.Static.SourceDiff.Constraints.Lost.{is_regress}
use solinv.Static.Change.{regression, warning}
use solinv.Static.SourceDiff.Render.{is_regression}
use solinv.Static.SourceDiff.Messages.{token_restated_message, token_changed_message}

abbrev pub lost_flag : Bool → Bool → Bool
lost_flag was now = was && not now

-- The head version of the slot has each check that the base version has; the values of an address, a
-- token's mint and authority and the target of `close` may differ, and a type be another type.
pub record Keeps (d : Compared) : Type 0 where
  pub type_kept :
      (is_typed d.was && (is_unchecked d.now && not (d.was.ty == codes "Signer"))) ≡ false
  pub signature_kept : lost_flag (signs d.was) (signs d.now) ≡ false
  pub seeds_kept : lost_flag d.was.attrs.seeds d.now.attrs.seeds ≡ false
  pub address_kept : lost_flag d.was.attrs.address d.now.attrs.address ≡ false
  pub owner_kept : lost_flag d.was.attrs.owner d.now.attrs.owner ≡ false
  pub mint_kept :
      lost_flag (is_some d.was.attrs.token_mint) (is_some d.now.attrs.token_mint) ≡ false
  pub authority_kept :
      lost_flag (is_some d.was.attrs.token_owner) (is_some d.now.attrs.token_owner) ≡ false
  pub close_kept : lost_flag (is_some d.was.attrs.close) (is_some d.now.attrs.close) ≡ false
  pub has_one_kept : All (λ t. contains d.now.attrs.has_one t ≡ true) d.was.attrs.has_one
  pub constraints_kept :
      All (λ e. contains d.now.attrs.constraints e ≡ true) d.was.attrs.constraints
  pub validate_kept : All (λ c. contains d.now.attrs.validate c ≡ true) d.was.attrs.validate
  pub body_kept : (c : Text) → copies d.was.attrs.body c ≤ copies d.now.attrs.body c

gone_from-kept :
    (now was : List Text) → All (λ x. contains now x ≡ true) was → gone_from now was ≡ []
gone_from-kept now was h =
    filter-none (λ x. not (contains now x)) was (All-map _ _ was (λ x h. ap not h) h)

unless_restated-quiet :
    (r : Option (Option Text)) (message : Text → Text) (lost : List Finding)
    → any is_regress lost ≡ false
    → any is_regress (unless_restated r message lost) ≡ false
unless_restated-quiet none message lost h = h
unless_restated-quiet (some none) message lost h = refl
unless_restated-quiet (some (some r)) message lost h = refl

when_so-warns : (c : Bool) (message : Text) → any is_regress (when_so c (warn message)) ≡ false
when_so-warns true message = refl
when_so-warns false message = refl

module _ (tools : TextTools) (d : Compared) (kept : Keeps d) where
  type_change-quiet : any is_regress (type_change d) ≡ false
  unfolding type_change
  type_change-quiet =
      rw kept.type_kept (
        when_so-warns (is_typed d.was && (is_typed d.now && not (d.was.full_ty == d.now.full_ty)))
          _)

  optional_change-quiet : any is_regress (optional_change d) ≡ false
  unfolding optional_change
  optional_change-quiet = when_so-warns (not d.was.optional && d.now.optional) _

  address_changed-quiet : any is_regress (address_changed tools d) ≡ false
  unfolding address_changed
  address_changed-quiet = ground (arith)

  token_change-quiet :
      (key field : Text) (was now : Option Text)
      → lost_flag (is_some was) (is_some now) ≡ false
      → any is_regress (token_change tools d key field was now) ≡ false
  unfolding token_change
  token_change-quiet key field none now h = refl
  token_change-quiet key field (some x) none h = absurd (ground arith)
  token_change-quiet key field (some x) (some y) h = ground (
    arith,
    unless_restated-quiet
        (restated_here tools d (own_eq tools d (codes "." ++ field) (token_value tools x) ∷ []))
        (token_restated_message key x) (warn (token_changed_message key x y) ∷ []) refl,
  )

  close_change-quiet : any is_regress (close_change d) ≡ false
  unfolding close_change
  close_change-quiet = ground (arith, kept.close_kept)

  body_change-quiet : (c : Text) → body_change tools d c ≡ []
  unfolding body_change is_lost
  body_change-quiet c = ground (arith, kept.body_kept c)

  findings-quiet : any is_regress (findings tools d) ≡ false
  unfolding findings signature_change seeds_change owner_change constraint_changes
  findings-quiet = simp (
    any-append,
    type_change-quiet,
    optional_change-quiet,
    kept.signature_kept,
    kept.seeds_kept,
    kept.address_kept,
    kept.owner_kept,
    address_changed-quiet,
    token_change-quiet (codes "token::mint") (codes "mint") d.was.attrs.token_mint
        d.now.attrs.token_mint kept.mint_kept,
    token_change-quiet (codes "token::authority") (codes "owner") d.was.attrs.token_owner
        d.now.attrs.token_owner kept.authority_kept,
    gone_from-kept d.now.attrs.has_one d.was.attrs.has_one kept.has_one_kept,
    gone_from-kept d.now.attrs.constraints d.was.attrs.constraints kept.constraints_kept,
    close_change-quiet,
    concat_map-empty (body_change tools d) (distinct_from [] d.was.attrs.body) (
        All-of (λ c. body_change tools d c ≡ []) (distinct_from [] d.was.attrs.body)
          body_change-quiet),
    gone_from-kept d.now.attrs.validate d.was.attrs.validate kept.validate_kept,
  )

  merged-none : (found : List Finding) → any is_regress found ≡ false → filter is_merged found ≡ []
  unfolding is_merged
  merged-none [] h = refl
  merged-none ((regression, message) ∷ found) h = absurd (ground arith)
  merged-none ((warning, message) ∷ found) h = merged-none found h

  merge-quiet : (found : List Finding) → any is_regress found ≡ false → merge d found ≡ found
  unfolding merge
  merge-quiet found h = rw (merged-none found h) (ground arith)

  -- A slot that keeps every check is no regression, whatever else changes.
  pub slot_changes-Keeps : any is_regression (slot_changes tools d) ≡ false
  unfolding slot_changes
  slot_changes-Keeps =
      any-map is_regression (at_slot d) (merge d (findings tools d))
      ∙ ap (any is_regress) (merge-quiet (findings tools d) findings-quiet)
      ∙ findings-quiet
