-- ===== src/Static/SourceDiff/Constraints/Unchanged.antt =====
-- diff.rs on a slot that is the same in both versions.
use solinv.Base.{
  ltb, Option-cases, eq_refl, All-of, All-map, contains, filter-none, All-self, concat_map-empty,
  Text, codes, ℕ, ◌≡◌, refl, ap, inl, inr, Bool, true, false, not, ◌&&◌, Option, none, some, List,
  [], arith, ℕ_eq, list_eq, option_eq,
}
use solinv.Static.Source.{SlotKind, unchecked, typed, Slot, SourceKinds, distinct_from}
use solinv.Static.SourceDiff.Checks.{signs, copies}
use solinv.Static.SourceDiff.Keys.{TextTools}
use solinv.Static.SourceDiff.Slots.{
  Compared, type_change, optional_change, signature_change, seeds_change, owner_change,
  close_change, address_changed, token_change,
}
use solinv.Static.SourceDiff.Constraints.{
  gone_from, constraint_changes, is_lost, body_change, findings, merge, slot_changes,
}

gone_from_self : (xs : List Text) → gone_from xs xs ≡ []
gone_from_self xs =
    filter-none (λ x. not (contains xs x)) xs (All-map _ _ xs (λ x h. ap not h) (All-self xs))

abbrev pub unchanged : SourceKinds → Text → Text → Slot → Compared
unchanged k ix path s = record {
  base = k;
  head = k;
  base_ix = ix;
  ix = ix;
  path = path;
  was = s;
  now = s;
}

one_kind :
    (kind : Option SlotKind)
    → (elim kind [ none ↦ false | some k ↦ elim k [ typed ↦ true | unchecked ↦ false ] ]
        && elim kind [ none ↦ false | some k ↦ elim k [ typed ↦ false | unchecked ↦ true ] ])
      ≡ false
one_kind none = refl
one_kind (some unchecked) = refl
one_kind (some typed) = refl

and-not : (b : Bool) → (b && not b) ≡ false
and-not true = refl
and-not false = refl

pub none-more : (n : ℕ) → ltb n n ≡ false
none-more n = ground arith

module _ (tools : TextTools) (k : SourceKinds) (ix path : Text) (s : Slot) where
  abbrev d : Compared
  d = unchanged k ix path s

  type_change_self : type_change d ≡ []
  unfolding type_change
  type_change_self = rw (eq_refl s.full_ty) (ground (arith, one_kind s.kind))

  optional_change_self : optional_change d ≡ []
  unfolding optional_change
  optional_change_self = ground arith

  address_changed_self : address_changed tools d ≡ []
  unfolding address_changed
  address_changed_self = elim (Option-cases s.attrs.address_expr) [
    | inl none_there ↦ ground (arith, none_there)
    | inr (x, there) ↦ ground (arith, there, eq_refl x)
  ]

  token_change_self : (key field : Text) (o : Option Text) → token_change tools d key field o o ≡ []
  unfolding token_change
  token_change_self key field none = refl
  token_change_self key field (some x) = rw (eq_refl x) refl

  close_change_self : close_change d ≡ []
  unfolding close_change
  close_change_self = elim (Option-cases s.attrs.close) [
    | inl none_there ↦ ground (arith, none_there)
    | inr (x, there) ↦ ground (arith, there, eq_refl x)
  ]

  body_change_self : (c : Text) → body_change tools d c ≡ []
  unfolding body_change is_lost
  body_change_self c = rw (none-more (copies s.attrs.body c)) refl

  pub findings_self : findings tools d ≡ []
  unfolding findings signature_change seeds_change owner_change constraint_changes
  findings_self =
      rw
        (
          type_change_self,
          optional_change_self,
          and-not (signs s),
          and-not s.attrs.seeds,
          and-not s.attrs.address,
          and-not s.attrs.owner,
          address_changed_self,
          token_change_self (codes "token::mint") (codes "mint") s.attrs.token_mint,
          token_change_self (codes "token::authority") (codes "owner") s.attrs.token_owner,
          gone_from_self s.attrs.has_one,
          gone_from_self s.attrs.constraints,
          close_change_self,
          concat_map-empty (body_change tools d) (distinct_from [] s.attrs.body) (
              All-of (λ c. body_change tools d c ≡ []) (distinct_from [] s.attrs.body)
                body_change_self),
          gone_from_self s.attrs.validate,
        )
        refl

  pub slot_changes_self : slot_changes tools d ≡ []
  unfolding slot_changes merge
  slot_changes_self = rw findings_self (ground arith)
