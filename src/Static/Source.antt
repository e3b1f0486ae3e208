-- ===== src/Static/Source.antt =====
-- crates/solinv-static/src/source.rs: the account slots that a program's source declares, once read,
-- and what is asked of them. The reader of the source text is not modelled.
pub mod Clauses
use solinv.Base.{
  ltb, if◌then◌else◌, is_some, ◌>>=◌, ◌==◌, any, all, filter, contains, Text, codes, look_up,
  strip_prefix, rsplit_once, ℕ, Bool, true, false, not, ◌&&◌, ◌||◌, Option, none, some, List, [],
  ◌∷◌, ◌++◌, map, ℕ_eq, list_eq, option_eq,
}
use solinv.Static.Idl.{
  IdlAccount, single, IdlAccountItems, no_items, more_items, IdlInstruction, Idl,
}

-- `SlotKind`.
pub data SlotKind : Type 0 where
  unchecked typed : SlotKind

pub record Handed : Type 0 where
  pub call : Text
  pub file : Text
  pub line : ℕ
  pub passed : List Text
  pub owner : Bool
  pub discriminator : Bool
  pub owner_on : Option (List Text)
  pub keyed : List (Text × Option Text)

pub record Attrs : Type 0 where
  pub mutable : Bool
  pub signer : Bool
  pub seeds : Bool
  pub address : Bool
  pub owner : Bool
  pub has_one : List Text
  pub address_expr : Option Text
  pub token_mint : Option Text
  pub token_owner : Option Text
  pub constraints : List Text
  pub close : Option Text
  pub init : Bool
  pub init_if_needed : Bool
  pub token_authority : Bool
  pub seed_names : List Text
  pub address_names : List Text
  pub authority_names : List Text
  pub keyed_constraints : List (List Text)
  pub refs : List Text
  pub validate : List Text
  pub validate_keys : List (List Text)
  pub body : List Text
  pub body_keys : List (List Text)
  pub handed : List Handed

pub record Slot : Type 0 where
  pub kind : Option SlotKind
  pub ty : Text
  pub full_ty : Text
  pub optional : Bool
  pub deprecated : Bool
  pub attrs : Attrs
  pub file : Text
  pub line : ℕ
  pub order : ℕ

-- The maps as lists of their entries, the slots' in the order of their keys, in which `slots()` gives
-- them. The map of a source has one entry to a key.
pub record SourceKinds : Type 0 where
  pub slots : List ((Text × Text) × Slot)
  pub checks : List (Text × List Text)
  pub handlers : List (Text × (Text × ℕ))

abbrev pub is_typed : Slot → Bool
is_typed s = elim s.kind [ none ↦ false | some k ↦ elim k [ typed ↦ true | unchecked ↦ false ] ]

abbrev pub is_unchecked : Slot → Bool
is_unchecked s = elim s.kind [ none ↦ false | some k ↦ elim k [ typed ↦ false | unchecked ↦ true ] ]

-- The slots of one instruction, with their paths.
unfoldable pub in_ix : SourceKinds → Text → List (Text × Slot)
in_ix k ix = map (λ e. (e.0.1, e.1)) (filter (λ (e : (Text × Text) × Slot). e.0.0 == ix) k.slots)

unfoldable pub slot_at : SourceKinds → Text → Text → Option Slot
unfolding in_ix
slot_at k ix path = look_up (in_ix k ix) path

unfoldable pub kind_at : SourceKinds → Text → Text → Option SlotKind
kind_at k ix path = slot_at k ix path >>= λ s. s.kind

-- `is_empty`: no slot has a kind that the reader recognised.
unfoldable pub has_no_kinds : SourceKinds → Bool
has_no_kinds k = not (any (λ (e : (Text × Text) × Slot). is_some e.1.kind) k.slots)

unfoldable pub ix_checks : SourceKinds → Text → List Text
unfolding look_up
ix_checks k ix = elim (look_up k.checks ix) [ none ↦ [] | some checks ↦ checks ]

unfoldable pub handler_at : SourceKinds → Text → Option (Text × ℕ)
unfolding look_up
handler_at k ix = look_up k.handlers ix

-- A name as an attribute of the slot at `path` has it: a sibling of that slot.
unfoldable pub beside : Text → Text → Text
beside path name = elim (rsplit_once b'.' path) [
  | none ↦ name
  | some (prefix, leaf) ↦ prefix ++ (codes "." ++ name)
]

abbrev pub one_of : List Text → Text → Bool
one_of names ty = contains names ty

-- The types whose owner and type Anchor checks, and that hold a program's state.
abbrev pub state_types : List Text
state_types = codes "Account" ∷ (codes "AccountLoader" ∷ (codes "InterfaceAccount" ∷ []))

abbrev pub address_types : List Text
address_types =
    codes "AccountInfo"
    ∷ (codes "UncheckedAccount"
        ∷ (codes "Signer" ∷ (codes "SystemAccount" ∷ (codes "Program" ∷ (codes "Sysvar" ∷ [])))))

abbrev pub constant_name : Text
constant_name = codes "::"

module _ (k : SourceKinds) (ix path : Text) where
  -- Another slot of the instruction, or a constant, as named from the slot at `p`.
  unfoldable pub ties_other : Text → Text → Bool
  ties_other p n =
      let q = beside p n in (n == constant_name) || (not (q == path) && is_some (slot_at k ix q))

  -- The receiver of a `.key` read without a call, where it is one.
  unfoldable pub reads_address : Text → Text → Bool
  reads_address p n = elim (strip_prefix (codes "@key:") n) [
    | none ↦ true
    | some recv ↦ elim (slot_at k ix (beside p recv)) [
      | none ↦ false
      | some s ↦ one_of address_types s.ty
    ]
  ]

  -- A keyed constraint of the slot at `p` ties this slot to another one or to a constant.
  unfoldable pub ties : Text → List Text → Bool
  unfolding ties_other reads_address
  ties p names =
      all (reads_address p) names
      && (any (λ n. beside p n == path) names && any (ties_other p) names)

  -- A check of the handler, or of `validate`, that names this slot and something else.
  unfoldable pub keyed_elsewhere : Slot → Bool
  keyed_elsewhere t =
      any (λ names. any (λ n. n == path) names && any (λ n. not (n == path)) names)
        (t.attrs.validate_keys ++ t.attrs.body_keys)

  unfoldable pub names_it : Text → Text → Bool
  names_it p n = not (p == path) && (beside p n == path)

  unfoldable pub fixed_by_other : Text × Slot → Bool
  unfolding names_it ties
  fixed_by_other (p, t) =
      any (names_it p) t.attrs.has_one
      || (any (names_it p) t.attrs.refs || any (ties p) t.attrs.keyed_constraints)

  unfoldable pub fixed_by_own : Attrs → Bool
  unfolding ties_other
  fixed_by_own a =
      (a.seeds
        && (all (λ n. n == constant_name) a.seed_names || any (ties_other path) a.seed_names))
      || (any (λ n. not (n == constant_name) && ties_other path n) a.has_one
          || ((a.address && any (ties_other path) a.address_names)
              || (a.token_authority && any (ties_other path) a.authority_names)))

  unfoldable pub unbound : Bool
  unfolding keyed_elsewhere fixed_by_own fixed_by_other
  unbound = elim (slot_at k ix path) [
    | none ↦ false
    | some s ↦
        is_typed s
        && (one_of state_types s.ty
            && (not s.attrs.init
                && (not (any (λ (t : Text × Slot). keyed_elsewhere t.1) (in_ix k ix))
                    && (not (fixed_by_own s.attrs) && not (any fixed_by_other (in_ix k ix))))))
  ]

-- The account that an IDL would list for a slot.
unfoldable pub to_account : Text × Slot → IdlAccount
to_account (path, s) = record {
  name = path;
  writable = s.attrs.mutable;
  signer =
      (s.ty == codes "Signer")
      || (s.attrs.signer || (s.attrs.init && (not s.attrs.seeds && not s.attrs.token_authority)));
  optional = s.optional;
  address =
      if s.attrs.address || one_of (codes "Program" ∷ (codes "Sysvar" ∷ [])) s.ty
      then some (codes "(from source)")
      else none;
  pda =
      if s.attrs.seeds || s.attrs.token_authority
      then some (record { seeds = []; program = none })
      else none;
  relations = s.attrs.has_one;
}

-- `sort_by_key` of the order, which is stable.
unfoldable pub insert_ordered : Text × Slot → List (Text × Slot) → List (Text × Slot)
insert_ordered x [] = x ∷ []
insert_ordered x (y ∷ ys) =
    let rest = insert_ordered x ys in if ltb y.1.order x.1.order then y ∷ rest else x ∷ (y ∷ ys)

unfoldable pub sort_ordered : List (Text × Slot) → List (Text × Slot)
unfolding insert_ordered
sort_ordered [] = []
sort_ordered (x ∷ xs) = insert_ordered x (sort_ordered xs)

unfoldable pub to_items : List (Text × Slot) → IdlAccountItems
unfolding to_account
to_items [] = no_items
to_items (s ∷ slots) = more_items (single (to_account s)) (to_items slots)

-- The instructions that have slots, each once, in order.
unfoldable pub distinct_from : List Text → List Text → List Text
distinct_from seen [] = []
distinct_from seen (n ∷ names) =
    let rest = distinct_from (n ∷ seen) names in
    if contains seen n then distinct_from seen names else n ∷ rest

unfoldable pub ix_names : SourceKinds → List Text
unfolding distinct_from
ix_names k = distinct_from [] (map (λ (e : (Text × Text) × Slot). e.0.0) k.slots)

unfoldable pub to_instruction : SourceKinds → Text → IdlInstruction
unfolding to_items sort_ordered
to_instruction k ix = record {
  name = ix;
  discriminator = [];
  accounts = to_items (sort_ordered (in_ix k ix));
  args = [];
}

unfoldable pub to_idl : SourceKinds → Idl
unfolding ix_names to_instruction
to_idl k = record {
  address = [];
  instructions = map (to_instruction k) (ix_names k);
  accounts = [];
  legacy = false;
}
