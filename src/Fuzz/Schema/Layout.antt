-- ===== src/Fuzz/Schema/Layout.antt =====
-- schema.rs: what the builder keeps true of a layout, and that a field of a validated account reads.
use solinv.Base.{
  Bool-cases, Option-cases, is_some, ◌==◌, length, find, All, ok, u64_mod, Bytes, Text, ℕ, ◌+◌, ◌%◌,
  ◌≤◌, ◌<◌, ◌≡◌, inl, inr, Bool, true, some, List, [], ◌∷◌, ◌++◌, arith, ℕ_eq, list_eq, option_eq,
}
use solinv.Fuzz.Schema.{
  SchemaField, AccountSchema, declare, pad, field_at, resolve, require_readable, resolve_readable,
  validate_len,
}
use solinv.Core.Harness.{read_field_widened}

-- Every field ends within `cursor`.
abbrev EndWithin : ℕ → List SchemaField → Type 0
EndWithin cursor fields = All (λ (f : SchemaField). f.offset + f.size ≤ cursor) fields

-- Every field ends within the declared length, which is a `usize`.
abbrev pub IsLaidOut : AccountSchema → Type 0
IsLaidOut s = (s.cursor < u64_mod) × EndWithin s.cursor s.fields

EndWithin-append :
    (fields : List SchemaField) (f : SchemaField) (cursor later : ℕ)
    → EndWithin cursor fields
    → cursor ≤ later
    → f.offset + f.size ≤ later
    → EndWithin later (fields ++ (f ∷ []))
EndWithin-append [] f cursor later h grows fits = (fits, tt)
EndWithin-append (g ∷ fields) f cursor later h grows fits =
    (omega (arith, h.0), EndWithin-append fields f cursor later h.1 grows fits)

EndWithin-weaken :
    (fields : List SchemaField) (cursor later : ℕ)
    → EndWithin cursor fields
    → cursor ≤ later
    → EndWithin later fields
EndWithin-weaken [] cursor later h grows = tt
EndWithin-weaken (g ∷ fields) cursor later h grows =
    (omega (arith, h.0), EndWithin-weaken fields cursor later h.1 grows)

-- One call of the fluent builder.
pub data Step : Type 0 where
  declared : Text → ℕ → Step
  padded : ℕ → Step
  placed : Text → ℕ → ℕ → Step

abbrev pub run_step : Step → AccountSchema → AccountSchema
run_step (declared name size) s = declare name size s
run_step (padded bytes) s = pad bytes s
run_step (placed name offset size) s = field_at name offset size s

abbrev pub run_steps : List Step → AccountSchema → AccountSchema
run_steps [] s = s
run_steps (step ∷ steps) s = run_steps steps (run_step step s)

-- The byte that a step would move the cursor to is a `usize`.
abbrev pub FitsStep : Step → AccountSchema → Type 0
FitsStep (declared name size) s = s.cursor + size < u64_mod
FitsStep (padded bytes) s = s.cursor + bytes < u64_mod
FitsStep (placed name offset size) s = offset + size < u64_mod

abbrev pub FitsSteps : List Step → AccountSchema → Type 0
FitsSteps [] s = Unit
FitsSteps (step ∷ steps) s = FitsStep step s × FitsSteps steps (run_step step s)

mod-eq : (n : ℕ) → n < u64_mod → n % u64_mod ≡ n
mod-eq n h = omega arith

run_step-IsLaidOut :
    (step : Step) (s : AccountSchema) → FitsStep step s → IsLaidOut s → IsLaidOut (run_step step s)
unfolding declare pad field_at
run_step-IsLaidOut (declared name size) s fits h =
    let same = mod-eq (s.cursor + size) fits in
    rw same
      (fits, EndWithin-append s.fields _ s.cursor (s.cursor + size) h.1 (omega arith) (omega arith))
run_step-IsLaidOut (padded bytes) s fits h =
    rw (mod-eq (s.cursor + bytes) fits)
      (fits, EndWithin-weaken s.fields s.cursor (s.cursor + bytes) h.1 (omega arith))
run_step-IsLaidOut (placed name offset size) s fits h =
    rw (mod-eq (offset + size) fits)
      (omega (arith, h.0), EndWithin-append s.fields _ s.cursor _ h.1 (omega arith) (omega arith))

-- Every schema that the builder makes from a well-formed one, by any sequence of `field`, `pad` and
-- `field_at` in which no sum leaves `usize`, has each field end within its declared length.
pub run_steps-IsLaidOut :
    (steps : List Step) (s : AccountSchema)
    → FitsSteps steps s
    → IsLaidOut s
    → IsLaidOut (run_steps steps s)
run_steps-IsLaidOut [] s fits h = h
run_steps-IsLaidOut (step ∷ steps) s fits h =
    run_steps-IsLaidOut steps (run_step step s) fits.1 (run_step-IsLaidOut step s fits.0 h)

find-EndWithin :
    (fields : List SchemaField) (cursor : ℕ) (p : SchemaField → Bool) (f : SchemaField)
    → EndWithin cursor fields
    → find p fields ≡ some f
    → f.offset + f.size ≤ cursor
find-EndWithin [] cursor p f h found = absurd (ground arith)
find-EndWithin (g ∷ fields) cursor p f h found = elim (Bool-cases (p g)) [
  | inl passes ↦ ground (arith, h.0)
  | inr fails ↦ find-EndWithin fields cursor p f h.1 (rw fails at found)
]

-- A field that `resolve_readable` accepts on a well-formed schema is one that `read_field_widened`
-- reads, from the contents of every account whose length `validate_len` accepts.
pub resolve_readable-reads :
    (s : AccountSchema) (name : Text) (geom : ℕ × ℕ) (contents : Bytes)
    → IsLaidOut s
    → resolve_readable s name ≡ ok geom
    → validate_len s (length contents) ≡ ok tt
    → is_some (read_field_widened contents geom.0 geom.1) ≡ true
unfolding resolve_readable resolve require_readable validate_len read_field_widened
resolve_readable-reads s name geom contents laid resolved valid =
    elim (Option-cases (find (λ (f : SchemaField). f.name == name) s.fields)) [
      | inl missing ↦ absurd (ground (arith, missing, resolved))
      | inr (f, found) ↦
          let fits : f.offset + f.size ≤ s.cursor =
            find-EndWithin s.fields s.cursor _ f laid.1 found in
          ground (arith, fits, found, resolved, valid, laid.0)
    ]
