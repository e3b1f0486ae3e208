-- ===== src/Static/Source/Clauses.antt =====
-- `clauses` of crates/solinv-static/src/source.rs. A value is read by characters; the brackets and
-- operators that are looked for are ASCII, so the places are those of the source's bytes.
pub mod Enough
use solinv.Base.{
  nat_eq, if◌then◌else◌, ◌==◌, length, take, Text, trim, onto_first, ℕ, zero, suc, ◌+◌, ◌-◌, Bool,
  true, false, ◌&&◌, ◌||◌, Option, none, some, List, [], ◌∷◌, ◌++◌, ℕ_eq, list_eq, option_eq,
}

abbrev pub opens : ℕ → Bool
opens c = nat_eq c b'(' || (nat_eq c b'[' || nat_eq c b'{')

abbrev pub closes : ℕ → Bool
closes c = nat_eq c b')' || (nat_eq c b']' || nat_eq c b'}')

-- The place of the first character after which as many brackets are closed as opened, where `o` and
-- `c` have been before.
unfoldable pub balance_at : ℕ → ℕ → ℕ → Text → Option ℕ
balance_at i o c [] = none
balance_at i o c (x ∷ s) =
    let o' = if opens x then o + 1 else o in
    let c' = if closes x then c + 1 else c in
    let later = balance_at (i + 1) o' c' s in if nat_eq o' c' then some i else later

-- A value inside brackets that close each other, without them.
unfoldable pub unwrap : Text → Option Text
unfolding balance_at
unwrap [] = none
unwrap (x ∷ s) =
    if nat_eq x b'(' && (balance_at 0 0 0 (x ∷ s) == some (length s))
    then some (take (length s - 1) s)
    else none

-- What the scan at the top level finds: the parts between the `&&`, or a `||`.
pub record Split : Type 0 where
  pub parts : List Text
  pub has_or : Bool

abbrev pub starts_part : Split → Split
starts_part r = record { parts = [] ∷ r.parts; has_or = r.has_or }

abbrev pub sees_or : Split → Split
sees_or r = record { parts = r.parts; has_or = true }

abbrev pub keeps : ℕ → Split → Split
keeps x r = record { parts = onto_first x r.parts; has_or = r.has_or }

-- With `o` brackets opened and `c` closed before.
unfoldable pub scan : ℕ → ℕ → Text → Split
scan o c [] = record { parts = [] ∷ []; has_or = false }
scan o c (x ∷ []) = record { parts = (x ∷ []) ∷ []; has_or = false }
scan o c (x ∷ y ∷ s) =
    let beyond = scan o c s in
    let next = scan (if opens x then o + 1 else o) (if closes x then c + 1 else c) (y ∷ s) in
    if nat_eq o c && (nat_eq x b'|' && nat_eq y b'|')
    then sees_or (keeps x (keeps y beyond))
    else if nat_eq o c && (nat_eq x b'&' && nat_eq y b'&')
    then starts_part beyond
    else keeps x next

unfoldable pub clauses_list : (Text → List Text) → List Text → List Text
clauses_list f [] = []
clauses_list f (t ∷ ts) = f t ++ clauses_list f ts

-- One call, with what it calls: the value inside brackets, or the parts.
unfoldable pub clauses_step : (Text → List Text) → Text → List Text
unfolding unwrap scan clauses_list
clauses_step f v =
    let value = trim v in
    let found = scan 0 0 value in
    elim (unwrap value) [
      | some inner ↦ f inner
      | none ↦
          if found.has_or
          then []
          else if nat_eq (length found.parts) 1
          then value ∷ []
          else clauses_list f found.parts
    ]

-- On fuel: every call is on a shorter text.
unfoldable pub clauses_from : ℕ → Text → List Text
unfolding clauses_step
clauses_from zero v = []
clauses_from (suc fuel) v = clauses_step (clauses_from fuel) v

unfoldable pub clauses : Text → List Text
unfolding clauses_from
clauses v = clauses_from (suc (length v)) v
