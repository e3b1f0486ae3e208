-- ===== src/Static/SourceDiff/Slots.antt =====
-- diff.rs on a slot that both versions have: its type, its signature and the attributes that fix it.
use solinv.Base.{
  if◌then◌else◌, is_some, ◌>>=◌, ◌==◌, any, all, find, contains, Text, codes, Bool, true, not, ◌&&◌,
  ◌||◌, Option, none, some, List, [], ◌∷◌, ◌++◌, ℕ_eq, list_eq, option_eq, pair_eq,
}
use solinv.Static.Change.{Severity, regression, warning}
use solinv.Static.Source.{
  Handed, Slot, SourceKinds, is_typed, is_unchecked, in_ix, slot_at, beside, constant_name,
}
use solinv.Static.SourceDiff.Checks.{leaf, signs, label}
use solinv.Static.SourceDiff.Keys.{TextTools, KeyEq, token_value, key_eq}
use solinv.Static.SourceDiff.Restated.{restated}
use solinv.Static.SourceDiff.Messages.{
  loosened_message, handed_message, type_message, optional_message, signature_message,
  seeds_replaced_message, seeds_message, address_replaced_message, address_restated_message,
  address_message, address_changed_message, token_restated_message, token_changed_message,
  token_message, owner_replaced_message, owner_message, has_one_moved_message,
  has_one_restated_message, has_one_handed_message, has_one_message, close_message,
  close_changed_message, at_message,
}

-- A slot at one path of an instruction, under that instruction's name in either version.
pub record Compared : Type 0 where
  pub base : SourceKinds
  pub head : SourceKinds
  pub base_ix : Text
  pub ix : Text
  pub path : Text
  pub was : Slot
  pub now : Slot

-- What is pushed for the slot: a severity and a message.
abbrev pub Finding : Type 0
Finding = Severity × Text

abbrev pub regress : Text → Finding
regress message = (regression, message)

abbrev pub warn : Text → Finding
warn message = (warning, message)

abbrev pub when_so : Bool → Finding → List Finding
when_so c f = if c then f ∷ [] else []

unfoldable pub handed_at : Handed → Text
handed_at d = at_message d.call d.file d.line

-- The call may check this account's owner and discriminator.
unfoldable pub checks_type : Text → Handed → Bool
checks_type path d =
    d.owner
    && (d.discriminator && (elim d.owner_on [ none ↦ true | some names ↦ contains names path ]))

unfoldable pub type_change : Compared → List Finding
unfolding checks_type handed_at
type_change d =
    let b = d.was in
    let h = d.now in
    if is_typed b && (is_unchecked h && not (b.ty == codes "Signer"))
    then (elim (find (checks_type d.path) h.attrs.handed) [
      | some call ↦ regress (handed_message b.ty h.ty (handed_at call)) ∷ []
      | none ↦ regress (loosened_message b.ty h.ty) ∷ []
    ])
    else when_so (is_typed b && (is_typed h && not (b.full_ty == h.full_ty)))
        (warn (type_message b.full_ty h.full_ty))

unfoldable pub optional_change : Compared → List Finding
optional_change d = when_so (not d.was.optional && d.now.optional) (warn optional_message)

unfoldable pub signature_change : Compared → List Finding
unfolding signs label
signature_change d =
    when_so (signs d.was && not (signs d.now))
      (regress (signature_message (label d.was) (label d.now)))

-- A name of another slot, or a constant.
unfoldable pub slot_or_const : Compared → List Text → Bool
unfolding slot_at beside
slot_or_const d names =
    any
      (λ n.
        (n == constant_name)
        || (is_some (slot_at d.head d.ix (beside d.path n)) && not (beside d.path n == d.path)))
      names

unfoldable pub fixed_address : Compared → Bool
unfolding slot_or_const
fixed_address d =
    d.now.attrs.address && (not d.was.attrs.address && slot_or_const d d.now.attrs.address_names)

unfoldable pub fixed_seeds : Compared → Bool
unfolding slot_or_const
fixed_seeds d =
    d.now.attrs.seeds
    && (not d.was.attrs.seeds
        && (all (λ n. n == constant_name) d.now.attrs.seed_names
            || slot_or_const d d.now.attrs.seed_names))

unfoldable pub seeds_change : Compared → List Finding
unfolding fixed_address
seeds_change d =
    when_so (d.was.attrs.seeds && not d.now.attrs.seeds)
      (if fixed_address d then warn seeds_replaced_message else regress seeds_message)

unfoldable pub owner_change : Compared → List Finding
unfolding fixed_address
owner_change d =
    when_so (d.was.attrs.owner && not d.now.attrs.owner)
      (if fixed_address d then warn owner_replaced_message else regress owner_message)

unfoldable pub close_change : Compared → List Finding
close_change d = elim d.was.attrs.close [
  | none ↦ []
  | some t ↦ elim d.now.attrs.close [
    | none ↦ regress (close_message t) ∷ []
    | some u ↦ when_so (not (t == u)) (warn (close_changed_message t u))
  ]
]

-- An equality that is gone is `lost`; one still declared in other words is nothing, or a warning.
abbrev pub unless_restated : Option (Option Text) → (Text → Text) → List Finding → List Finding
unless_restated none message lost = lost
unless_restated (some none) message lost = []
unless_restated (some (some r)) message lost = warn (message r) ∷ []

module _ (tools : TextTools) (d : Compared) where
  unfoldable pub restated_here : List KeyEq → Option (Option Text)
  unfolding restated
  restated_here eqs = restated tools d.base d.head d.base_ix d.ix eqs

  -- An equality that the slot declared, with a field of it or its key on one side.
  unfoldable pub own_eq : Text → Text → KeyEq
  unfolding key_eq leaf
  own_eq field other = key_eq tools d.base d.base_ix d.path (leaf d.path ++ field) other

  unfoldable pub address_gone : List Finding
  unfolding fixed_seeds restated_here own_eq
  address_gone =
      if fixed_seeds d
      then warn address_replaced_message ∷ []
      else unless_restated
          (d.was.attrs.address_expr >>= λ e. restated_here (own_eq (codes ".key()") e ∷ []))
          address_restated_message (regress address_message ∷ [])

  unfoldable pub address_changed : List Finding
  unfolding restated_here own_eq
  address_changed = elim d.was.attrs.address_expr [
    | none ↦ []
    | some x ↦ elim d.now.attrs.address_expr [
      | none ↦ []
      | some y ↦
          when_so (not (x == y) && not (is_some (restated_here (own_eq (codes ".key()") x ∷ []))))
            (warn (address_changed_message x y))
    ]
  ]

  -- `token::mint` and `token::authority`: which mint, which owner.
  unfoldable pub token_change : Text → Text → Option Text → Option Text → List Finding
  unfolding restated_here own_eq token_value
  token_change key field none now = []
  token_change key field (some x) now =
      if now == some x
      then []
      else unless_restated (restated_here (own_eq (codes "." ++ field) (token_value tools x) ∷ []))
          (token_restated_message key x)
          (elim now [
            | some y ↦ warn (token_changed_message key x y) ∷ []
            | none ↦ regress (token_message key x field) ∷ []
          ])

  -- The call may compare the target's key with this account's.
  unfoldable pub compares_key : Handed → Text → Bool
  compares_key call target =
      any
        (λ (k : Text × Option Text).
          (k.0 == target) && (elim k.1 [ none ↦ true | some o ↦ o == d.path ]))
        call.keyed

  unfoldable pub has_one_change : Text → List Finding
  unfolding in_ix restated_here own_eq compares_key beside handed_at
  has_one_change target =
      elim (find (λ (s : Text × Slot). contains s.1.attrs.has_one target) (in_ix d.head d.ix)) [
        | some other ↦ warn (has_one_moved_message target other.0) ∷ []
        | none ↦
            unless_restated
              (restated_here (own_eq (codes "." ++ target) (target ++ codes ".key()") ∷ []))
              (has_one_restated_message target)
              (elim (find (λ c. compares_key c (beside d.path target)) d.now.attrs.handed) [
                | some call ↦ regress (has_one_handed_message target (handed_at call)) ∷ []
                | none ↦ regress (has_one_message target) ∷ []
              ])
      ]
