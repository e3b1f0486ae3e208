-- ===== src/Static/SourceDiff/Keys.antt =====
-- diff.rs: the key equalities that slots declare. The regex crate is a parameter, and so is Unicode's
-- table of letters and digits.
use solinv.Base.{
  ltb, nat_eq, if◌then◌else◌, is_some, ◌>>=◌, ◌==◌, length, get_elem?, all, filter, contains, Text,
  codes, before, trim, has_substring, replace, split_text, is_empty_text, trim_start_of,
  without_blanks, ℕ, Bool, not, ◌&&◌, ◌||◌, Option, none, some, List, [], ◌∷◌, ◌++◌, map, ℕ_eq,
  list_eq, option_eq,
}
use solinv.Static.Source.{SourceKinds, slot_at, beside}
use solinv.Static.Source.Clauses.{clauses}
use solinv.Static.SourceDiff.Checks.{leaf}

-- The matches of a pattern in a text as their groups, the whole match first.
pub record TextTools : Type 0 where
  pub is_match : Text → Text → Bool
  pub captures : Text → Text → List (List Text)
  pub replace_all : Text → (List Text → Text) → Text → Text
  pub escape : Text → Text
  pub is_alphanumeric : ℕ → Bool

abbrev pub KeyEq : Type 0
KeyEq = Text × Text

unfoldable pub ordered : Text → Text → KeyEq
ordered a b = if before b a then (b, a) else (a, b)

-- A group of a match; a pattern's groups 1 and 2 always take part in these matches.
abbrev pub group : ℕ → List Text → Text
group i groups = elim (get_elem? groups i) [ none ↦ [] | some t ↦ t ]

abbrev pub head_of_path : Text
head_of_path = codes "(^|[^.:\\w@])([A-Za-z_]\\w*)"

abbrev pub head_name : Text
head_name = codes "(^|[^.:\\w])([A-Za-z_]\\w*)"

-- Without spaces, `ctx.accounts.`, loads and a leading `&` or `*`.
unfoldable pub bare : Text → Text
unfolding replace without_blanks trim_start_of
bare e =
    let t = without_blanks e in
    trim_start_of (λ c. nat_eq c b'&' || nat_eq c b'*')
      (replace (codes ".load_mut()?") []
        (replace (codes ".load()?") [] (replace (codes "ctx.accounts.") [] t)))

unfoldable pub join_with : Text → List Text → Text
join_with separator [] = []
join_with separator (t ∷ []) = t
join_with separator (t ∷ u ∷ ts) = t ++ (separator ++ join_with separator (u ∷ ts))

module _ (tools : TextTools) where
  abbrev pub is_word : ℕ → Bool
  is_word c = tools.is_alphanumeric c || nat_eq c b'_'

  -- A plain name is an account, whose key Anchor takes.
  unfoldable pub token_value : Text → Text
  token_value e = if all is_word e then e ++ codes ".key()" else e

  module _ (k : SourceKinds) (ix path : Text) where
    -- A name beside the slot is written `@` and its full path.
    unfoldable pub full_name : List Text → Text
    unfolding slot_at beside
    full_name groups =
        let full = beside path (group 2 groups) in
        if is_some (slot_at k ix full)
        then group 1 groups ++ (codes "@" ++ full)
        else group 0 groups

    unfoldable pub side : Text → Text
    unfolding bare full_name
    side e = tools.replace_all head_of_path full_name (bare e)

    unfoldable pub key_eq : Text → Text → KeyEq
    unfolding side ordered
    key_eq a b = ordered (side a) (side b)

    -- A clause that is one `==` with something on either side.
    unfoldable pub clause_eq : Text → Option KeyEq
    unfolding key_eq split_text trim
    clause_eq p = elim (split_text (codes "==") p) [
      | [] ↦ none
      | l ∷ others ↦ elim others [
        | [] ↦ none
        | r ∷ more ↦
            if is_empty_text (trim l) || (is_empty_text (trim r) || ltb 0 (length more))
            then none
            else some (key_eq l r)
      ]
    ]

    -- All of a constraint's clauses as equalities, where they all are.
    unfoldable pub clause_eqs : List Text → Option (List KeyEq)
    unfolding clause_eq
    clause_eqs [] = some []
    clause_eqs (p ∷ parts) = do eq ← clause_eq p; eqs ← clause_eqs parts; some (eq ∷ eqs)

    unfoldable pub constraint_eqs : Text → Option (List KeyEq)
    unfolding clause_eqs clauses has_substring
    constraint_eqs c =
        if has_substring (codes "||") c || has_substring (codes "!=") c
        then none
        else elim (clauses c) [ [] ↦ none | p ∷ parts ↦ clause_eqs (p ∷ parts) ]

    -- A constraint that reads only this account's state: no other account, and no key.
    unfoldable pub gate_on : Text → Bool
    unfolding leaf slot_at beside has_substring
    gate_on c =
        let named =
          filter (λ n. is_some (slot_at k ix (beside path n)))
            (map (group 2) (tools.captures head_name c)) in
        not (has_substring (codes ".key") c)
        && (contains named (leaf path) && all (λ n. n == leaf path) named)

    -- The other slots that a constraint names, as full paths.
    unfoldable pub others_named : Text → List Text
    unfolding slot_at beside
    others_named c =
        filter (λ p. not (p == path) && is_some (slot_at k ix p))
          (map (λ groups. beside path (group 2 groups)) (tools.captures head_name c))
