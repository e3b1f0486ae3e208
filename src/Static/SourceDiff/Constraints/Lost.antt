-- ===== src/Static/SourceDiff/Constraints/Lost.antt =====
-- diff.rs on a slot that has lost a check: what it reports, merged or not.
use solinv.Base.{
  Option-cases, ◌>>=◌, ◌==◌, eq_refl, get_elem?, any, find, filter, contains, any-append,
  any-behind, any-concat_map, any-map, any-same, Text, codes, ℕ, zero, suc, ◌≡◌, refl, ◌∙◌, inl,
  inr, Bool, true, false, not, ◌&&◌, ◌||◌, none, some, List, [], ◌∷◌, ◌++◌, map, arith, ℕ_eq,
  list_eq, option_eq,
}
use solinv.Static.Change.{regression, warning, Change}
use solinv.Static.Source.{Slot, is_typed, is_unchecked, in_ix, beside, distinct_from}
use solinv.Static.SourceDiff.Checks.{leaf, signs}
use solinv.Static.SourceDiff.Keys.{TextTools, join_with, token_value}
use solinv.Static.SourceDiff.Instead.{declared_instead}
use solinv.Static.SourceDiff.Slots.{
  Compared, Finding, regress, type_change, signature_change, fixed_address, fixed_seeds,
  seeds_change, owner_change, close_change, restated_here, own_eq, address_gone, token_change,
  compares_key, has_one_change,
}
use solinv.Static.SourceDiff.Constraints.{
  gone_from, is_lost, body_change, validate_change, findings, is_merged, merge, at_slot,
  slot_changes,
}
use solinv.Static.SourceDiff.Messages.{placeholder_message}

-- A check that only the base version has, with nothing in the head version that stands in for it: a
-- signature, an owner and type, seeds, an owner, an address, the mint or the authority of a token
-- account, a `has_one`, the closing of the account, a check of the handler, or one of `validate`.
pub data Loss (tools : TextTools) (d : Compared) : Type 0 where
  no_signature : signs d.was ≡ true → signs d.now ≡ false → Loss tools d
  no_type :
      is_typed d.was ≡ true
      → is_unchecked d.now ≡ true
      → (d.was.ty == codes "Signer") ≡ false
      → Loss tools d
  no_seeds :
      d.was.attrs.seeds ≡ true → d.now.attrs.seeds ≡ false → fixed_address d ≡ false → Loss tools d
  no_owner :
      d.was.attrs.owner ≡ true → d.now.attrs.owner ≡ false → fixed_address d ≡ false → Loss tools d
  no_close : (t : Text) → d.was.attrs.close ≡ some t → d.now.attrs.close ≡ none → Loss tools d
  no_address :
      d.was.attrs.address ≡ true
      → d.now.attrs.address ≡ false
      → fixed_seeds d ≡ false
      → (d.was.attrs.address_expr >>= λ e.
          restated_here tools d (own_eq tools d (codes ".key()") e ∷ []))
        ≡ none
      → Loss tools d
  no_mint :
      (x : Text)
      → d.was.attrs.token_mint ≡ some x
      → d.now.attrs.token_mint ≡ none
      → restated_here tools d (own_eq tools d (codes ".mint") (token_value tools x) ∷ []) ≡ none
      → Loss tools d
  no_authority :
      (x : Text)
      → d.was.attrs.token_owner ≡ some x
      → d.now.attrs.token_owner ≡ none
      → restated_here tools d (own_eq tools d (codes ".owner") (token_value tools x) ∷ []) ≡ none
      → Loss tools d
  no_has_one :
      (i : ℕ) (target : Text)
      → get_elem? (gone_from d.now.attrs.has_one d.was.attrs.has_one) i ≡ some target
      → find (λ (s : Text × Slot). contains s.1.attrs.has_one target) (in_ix d.head d.ix) ≡ none
      → restated_here tools d (own_eq tools d (codes "." ++ target) (target ++ codes ".key()") ∷ [])
        ≡ none
      → Loss tools d
  no_handler_check :
      (i : ℕ) (check : Text)
      → get_elem? (distinct_from [] d.was.attrs.body) i ≡ some check
      → is_lost tools d check ≡ true
      → declared_instead tools d.base d.head d.base_ix d.ix check (some d.path) ≡ none
      → Loss tools d
  no_validate :
      (i : ℕ) (check : Text)
      → get_elem? (gone_from d.now.attrs.validate d.was.attrs.validate) i ≡ some check
      → find (λ (s : Text × Slot). contains s.1.attrs.validate check) (in_ix d.head d.ix) ≡ none
      → Loss tools d

abbrev pub is_regress : Finding → Bool
is_regress f = elim f.0 [ regression ↦ true | warning ↦ false ]

-- A regression reported for an instruction at a path.
abbrev pub is_regression_at : Text → Text → Change → Bool
is_regression_at ix path c = elim c.severity [
  | regression ↦ (c.ix == ix) && (c.path == path)
  | warning ↦ false
]

or-true : (b : Bool) → (b || true) ≡ true
or-true true = refl
or-true false = refl

any-mapped {ℓ κ} :
    {A : Type ℓ} {B : Type κ} (p : B → Bool) (f : A → B) (xs : List A) (i : ℕ) (x : A)
    → get_elem? xs i ≡ some x
    → p (f x) ≡ true
    → any p (map f xs) ≡ true
any-mapped p f [] i x e h = absurd (ground (arith, e))
any-mapped p f (y ∷ xs) zero x e h = let same : y ≡ x = ground (arith, e) in rw (same, h) refl
any-mapped p f (y ∷ xs) (suc i) x e h = rw (any-mapped p f xs i x e h) (or-true (p (f y)))

module _ (d : Compared) where
  signature_change-lost :
      signs d.was ≡ true → signs d.now ≡ false → any is_regress (signature_change d) ≡ true
  unfolding signature_change
  signature_change-lost h k = rw (h, k) refl

  type_change-lost :
      is_typed d.was ≡ true
      → is_unchecked d.now ≡ true
      → (d.was.ty == codes "Signer") ≡ false
      → any is_regress (type_change d) ≡ true
  unfolding type_change
  type_change-lost h k t = rw (h, k, t) (ground arith)

  seeds_change-lost :
      d.was.attrs.seeds ≡ true
      → d.now.attrs.seeds ≡ false
      → fixed_address d ≡ false
      → any is_regress (seeds_change d) ≡ true
  unfolding seeds_change
  seeds_change-lost h k a = rw (h, k, a) refl

  owner_change-lost :
      d.was.attrs.owner ≡ true
      → d.now.attrs.owner ≡ false
      → fixed_address d ≡ false
      → any is_regress (owner_change d) ≡ true
  unfolding owner_change
  owner_change-lost h k a = rw (h, k, a) refl

  close_change-lost :
      (t : Text)
      → d.was.attrs.close ≡ some t
      → d.now.attrs.close ≡ none
      → any is_regress (close_change d) ≡ true
  unfolding close_change
  close_change-lost t h k = rw (h, k) refl

  address_gone-lost :
      (tools : TextTools)
      → fixed_seeds d ≡ false
      → (d.was.attrs.address_expr >>= λ e.
          restated_here tools d (own_eq tools d (codes ".key()") e ∷ []))
        ≡ none
      → any is_regress (address_gone tools d) ≡ true
  unfolding address_gone
  address_gone-lost tools s r = rw (address_gone, s, r) refl

  token_change-lost :
      (tools : TextTools) (key field x : Text)
      → restated_here tools d (own_eq tools d (codes "." ++ field) (token_value tools x) ∷ [])
        ≡ none
      → any is_regress (token_change tools d key field (some x) none) ≡ true
  unfolding token_change
  token_change-lost tools key field x r = rw (token_change, r) refl

  has_one_change-lost :
      (tools : TextTools) (target : Text)
      → find (λ (s : Text × Slot). contains s.1.attrs.has_one target) (in_ix d.head d.ix) ≡ none
      → restated_here tools d (own_eq tools d (codes "." ++ target) (target ++ codes ".key()") ∷ [])
        ≡ none
      → any is_regress (has_one_change tools d target) ≡ true
  unfolding has_one_change
  has_one_change-lost tools target m r =
      elim (Option-cases
        (find (λ c. compares_key tools d c (beside d.path target)) d.now.attrs.handed)) [
          | inl alone ↦ rw (has_one_change, m, r, alone) refl
          | inr (call, handed) ↦ rw (has_one_change, m, r, handed) refl
        ]

  body_change-lost :
      (tools : TextTools) (check : Text)
      → is_lost tools d check ≡ true
      → declared_instead tools d.base d.head d.base_ix d.ix check (some d.path) ≡ none
      → any is_regress (body_change tools d check) ≡ true
  unfolding body_change
  body_change-lost tools check l r = rw (body_change, l, r) refl

  validate_change-lost :
      (tools : TextTools) (check : Text)
      → find (λ (s : Text × Slot). contains s.1.attrs.validate check) (in_ix d.head d.ix) ≡ none
      → is_regress (validate_change tools d check) ≡ true
  unfolding validate_change
  validate_change-lost tools check m = rw (validate_change, m) refl

  findings-Loss : (tools : TextTools) → Loss tools d → any is_regress (findings tools d) ≡ true
  unfolding findings
  findings-Loss tools (no_signature h k) = simp (any-append, or-true, signature_change-lost h k)
  findings-Loss tools (no_type h k t) = simp (any-append, type_change-lost h k t)
  findings-Loss tools (no_seeds h k a) = simp (any-append, or-true, seeds_change-lost h k a)
  findings-Loss tools (no_owner h k a) = simp (any-append, or-true, owner_change-lost h k a)
  findings-Loss tools (no_close t h k) = simp (any-append, or-true, close_change-lost t h k)
  findings-Loss tools (no_address h k s r) =
      simp (any-append, or-true, h, k, address_gone-lost tools s r)
  findings-Loss tools (no_mint x h k r) =
      simp (
        any-append,
        or-true,
        h,
        k,
        token_change-lost tools (codes "token::mint") (codes "mint") x r,
      )
  findings-Loss tools (no_authority x h k r) = simp (
    any-append,
    or-true,
    h,
    k,
    token_change-lost tools (codes "token::authority") (codes "owner") x r,
  )
  findings-Loss tools (no_has_one i target e m r) = simp (
    any-append,
    or-true,
    any-concat_map is_regress (has_one_change tools d)
        (gone_from d.now.attrs.has_one d.was.attrs.has_one) i target e
        (has_one_change-lost tools target m r),
  )
  findings-Loss tools (no_handler_check i check e l r) = simp (
    any-append,
    or-true,
    any-concat_map is_regress (body_change tools d) (distinct_from [] d.was.attrs.body) i check e
        (body_change-lost tools check l r),
  )
  findings-Loss tools (no_validate i check e m) = simp (
    any-append,
    or-true,
    any-mapped is_regress (validate_change tools d)
        (gone_from d.now.attrs.validate d.was.attrs.validate) i check e
        (validate_change-lost tools check m),
  )

  merge-regress :
      (found : List Finding) → any is_regress found ≡ true → any is_regress (merge d found) ≡ true
  unfolding merge
  merge-regress found h =
      let merged = regress (
        placeholder_message
          (join_with (codes "; ") (map (λ (f : Finding). f.1) (filter is_merged found)))
          (leaf d.path)) in
      ground
        (arith, h, any-behind is_regress (filter (λ f. not (is_merged f)) found) (merged ∷ []) refl)

  at_slot-regress : (f : Finding) → is_regression_at d.ix d.path (at_slot d f) ≡ is_regress f
  at_slot-regress (regression, message) = rw (eq_refl d.ix, eq_refl d.path) refl
  at_slot-regress (warning, message) = refl

  -- A slot that has lost a check is reported as a regression.
  pub slot_changes-Loss :
      (tools : TextTools)
      → Loss tools d
      → any (is_regression_at d.ix d.path) (slot_changes tools d) ≡ true
  unfolding slot_changes
  slot_changes-Loss tools loss =
      any-map (is_regression_at d.ix d.path) (at_slot d) (merge d (findings tools d))
      ∙ (any-same (λ f. is_regression_at d.ix d.path (at_slot d f)) is_regress at_slot-regress
            (merge d (findings tools d))
          ∙ merge-regress (findings tools d) (findings-Loss tools loss))
