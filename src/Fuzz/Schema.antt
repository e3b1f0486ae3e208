-- ===== src/Fuzz/Schema.antt =====
-- crates/solinv-fuzz/src/schema.rs: an account's layout, declared field by field, and the state
-- invariants that name its fields.
pub mod Layout
use solinv.Base.{
  ltb, nat_eq, if◌then◌else◌, ◌==◌, length, find, contains, Result, ok, err, and_then, u64_mod,
  Text, ℕ, ◌+◌, ◌%◌, max, Bool, true, false, not, ◌&&◌, ◌||◌, none, some, List, [], ◌∷◌, ◌++◌, map,
  ℕ_eq, list_eq, option_eq,
}
use solinv.Fuzz.Relation.{
  RelTerm, field, RelOp, eq, le, lt, ge, gt, MonotonicDir, sum_conservation, monotonic, bounded,
  relation, StateInvariant,
}

pub record SchemaField : Type 0 where
  pub name : Text
  pub offset : ℕ
  pub size : ℕ

pub record AccountSchema : Type 0 where
  pub name : Text
  pub fields : List SchemaField
  pub cursor : ℕ

pub data SchemaError : Type 0 where
  -- `UnknownField { schema, field, available }`
  unknown_field : Text → Text → List Text → SchemaError
  -- `UnreadableWidth { schema, field, size }`
  unreadable_width : Text → Text → ℕ → SchemaError
  -- `ShortAccount { schema, declared, actual }`
  short_account : Text → ℕ → ℕ → SchemaError
  empty_relation_side : SchemaError
  tolerance_on_ordering : RelOp → SchemaError
  -- `EmptyBound { min, max }`
  empty_bound : ℕ → ℕ → SchemaError

abbrev pub readable_widths : List ℕ
readable_widths = 8 ∷ 16 ∷ []

abbrev pub anchor_discriminator_len : ℕ
anchor_discriminator_len = 8

unfoldable pub anchor : Text → AccountSchema
anchor name = record { name = name; fields = []; cursor = anchor_discriminator_len }

unfoldable pub raw : Text → AccountSchema
raw name = record { name = name; fields = []; cursor = 0 }

-- The sums of `usize`s wrap, as they do in the release profile.
unfoldable pub declare : Text → ℕ → AccountSchema → AccountSchema
declare name size s = record s {
  fields = s.fields ++ (record { name = name; offset = s.cursor; size = size } ∷ []);
  cursor = (s.cursor + size) % u64_mod;
}

unfoldable pub pad : ℕ → AccountSchema → AccountSchema
pad bytes s = record s { cursor = (s.cursor + bytes) % u64_mod }

unfoldable pub field_at : Text → ℕ → ℕ → AccountSchema → AccountSchema
field_at name offset size s = record s {
  fields = s.fields ++ (record { name = name; offset = offset; size = size } ∷ []);
  cursor = max s.cursor ((offset + size) % u64_mod);
}

abbrev pub len : AccountSchema → ℕ
len s = s.cursor

unfoldable pub is_empty : AccountSchema → Bool
is_empty s = nat_eq (length s.fields) 0

unfoldable pub field_names : AccountSchema → List Text
field_names s = map (λ f. f.name) s.fields

unfoldable pub resolve : AccountSchema → Text → Result SchemaError (ℕ × ℕ)
unfolding field_names
resolve s name = elim (find (λ (f : SchemaField). f.name == name) s.fields) [
  | some f ↦ ok (f.offset, f.size)
  | none ↦ err (unknown_field s.name name (field_names s))
]

-- The width of a resolved field.
unfoldable pub require_readable : AccountSchema → Text → ℕ × ℕ → Result SchemaError (ℕ × ℕ)
require_readable s name (offset, size) =
    if not (contains readable_widths size)
    then err (unreadable_width s.name name size)
    else ok (offset, size)

unfoldable pub resolve_readable : AccountSchema → Text → Result SchemaError (ℕ × ℕ)
unfolding resolve require_readable
resolve_readable s name = and_then (resolve s name) (require_readable s name)

unfoldable pub validate_len : AccountSchema → ℕ → Result {0, 0} SchemaError Unit
validate_len s actual =
    if ltb actual (len s) then err (short_account s.name (len s) actual) else ok tt

unfoldable pub term : AccountSchema → ℕ → Text → Result SchemaError RelTerm
unfolding resolve_readable
term s account name = and_then (resolve_readable s name) λ geom. ok (field account geom.0 geom.1)

unfoldable pub monotonic_over :
    AccountSchema → Text → List ℕ → Text → MonotonicDir → Result SchemaError StateInvariant
unfolding resolve_readable
monotonic_over s name accounts over direction = and_then (resolve_readable s over) λ geom.
    ok (record { name = name; kind = monotonic geom.0 geom.1 direction; accounts = accounts })

unfoldable pub bounded_over :
    AccountSchema → Text → List ℕ → Text → ℕ → ℕ → Result SchemaError StateInvariant
unfolding resolve_readable
bounded_over s name accounts over min_value max_value =
    if ltb max_value min_value
    then err (empty_bound min_value max_value)
    else and_then (resolve_readable s over) λ geom. ok (record {
      name = name;
      kind = bounded geom.0 geom.1 min_value max_value;
      accounts = accounts;
    })

unfoldable pub sum_conservation_over :
    AccountSchema → Text → List ℕ → Text → ℕ → Result SchemaError StateInvariant
unfolding resolve_readable
sum_conservation_over s name accounts over tolerance = and_then (resolve_readable s over) λ geom.
    ok
      (record { name = name; kind = sum_conservation geom.0 geom.1 tolerance; accounts = accounts })

-- `op != RelOp::Eq`.
abbrev pub is_ordering : RelOp → Bool
is_ordering eq = false
is_ordering le = true
is_ordering lt = true
is_ordering ge = true
is_ordering gt = true

unfoldable pub relate :
    Text → List RelTerm → RelOp → List RelTerm → ℕ → Result SchemaError StateInvariant
relate name lhs op rhs tolerance =
    if nat_eq (length lhs) 0 || nat_eq (length rhs) 0
    then err empty_relation_side
    else if not (nat_eq tolerance 0) && is_ordering op
    then err (tolerance_on_ordering op)
    else ok (record { name = name; kind = relation lhs op rhs tolerance; accounts = [] })
