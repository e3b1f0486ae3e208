-- ===== src/Static/SourceDiff/Instead.antt =====
-- diff.rs: a handler check that is gone and a declaration that a slot has gained.
use solinv.Base.{
  if◌then◌else◌, ◌>>=◌, ◌==◌, any, find, filter, contains, Text, codes, has_substring, words_of,
  words, Bool, true, false, not, ◌&&◌, ◌||◌, Option, none, some, List, [], ◌∷◌, map, ℕ_eq, list_eq,
  option_eq,
}
use solinv.Static.Source.{Slot, SourceKinds, is_typed, is_unchecked, in_ix, slot_at}
use solinv.Static.SourceDiff.Checks.{leaf, signs}
use solinv.Static.SourceDiff.Keys.{TextTools, is_word}

-- `Kind`: what a check of a handler is about.
pub data CheckKind : Type 0 where
  signer_check key_check type_check bump_check : CheckKind

unfoldable pub kind_of : Text → Option CheckKind
unfolding has_substring
kind_of c =
    if has_substring (codes "is_signer") c
    then some signer_check
    else if has_substring (codes ".key") c
    then some key_check
    else if has_substring (codes ".owner") c || has_substring (codes "discrimin") c
    then some type_check
    else if has_substring (codes "bump") c
    then some bump_check
    else none

abbrev pub becomes_typed : Slot → Slot → Bool
becomes_typed b h = is_unchecked b && is_typed h

abbrev pub now_seeded : Slot → Slot → Bool
now_seeded b h = h.attrs.seeds && not b.attrs.seeds

abbrev pub now_addressed : Slot → Slot → Bool
now_addressed b h = h.attrs.address && not b.attrs.address

abbrev pub meet : List Text → List Text → Bool
meet names others = any (contains others) names

module _ (tools : TextTools) where
  -- A declaration of `h` that `b` has not, and that ties it to one of the accounts named.
  unfoldable pub ties_key : Slot → Slot → List Text → Bool
  unfolding has_substring words_of
  ties_key b h others =
      (now_seeded b h && meet h.attrs.seed_names others)
      || ((now_addressed b h && meet h.attrs.address_names others)
          || (any (λ t. not (contains b.attrs.has_one t) && contains others t) h.attrs.has_one
              || any
                  (λ e.
                    not (contains b.attrs.constraints e)
                    && (has_substring (codes ".key") e
                        && meet (words_of (is_word tools) [] e) others))
                  h.attrs.constraints))

  -- `h` declares a check of the kind that `b` did not.
  unfoldable pub gained : CheckKind → Slot → Slot → List Text → Bool
  unfolding signs ties_key
  gained signer_check b h others = signs h && not (signs b)
  gained key_check b h [] =
      (becomes_typed b h && contains (codes "Program" ∷ (codes "Sysvar" ∷ [])) h.ty)
      || (now_seeded b h || now_addressed b h)
  gained key_check b h (o ∷ others) = ties_key b h (o ∷ others)
  gained type_check b h others =
      (becomes_typed b h && not (h.ty == codes "Signer")) || (h.attrs.owner && not b.attrs.owner)
  gained bump_check b h others = now_seeded b h

  abbrev pub is_bump : CheckKind → Bool
  is_bump signer_check = false
  is_bump key_check = false
  is_bump type_check = false
  is_bump bump_check = true

  module _ (base head : SourceKinds) (base_ix ix : Text) where
    -- The slot stands in for a check of the kind, with the words and the leaves of the instruction.
    unfoldable pub stands_in : CheckKind → Option Text → List Text → List Text → Text × Slot → Bool
    unfolding leaf gained slot_at
    stands_in kind slot names leaves (p, h) =
        let own = leaf p in
        let named = (slot == some p) || (contains names own || is_bump kind) in
        let others = filter (λ w. not (w == own) && contains leaves w) names in
        named && (elim (slot_at base base_ix p) [ none ↦ false | some b ↦ gained kind b h others ])

    -- The account that now declares a check of the kind of this one.
    unfoldable pub declared_instead : Text → Option Text → Option Text
    unfolding kind_of words in_ix stands_in
    declared_instead check slot =
        let slots = in_ix head ix in
        let leaves = map (λ (e : Text × Slot). leaf e.0) slots in
        let names = words (is_word tools) check in
        do kind ← kind_of check; e ← find (stands_in kind slot names leaves) slots; some e.0
