-- ===== src/Base/Search.antt =====
-- The searches of Rust's `str` for a whole pattern.
use Prim.Native.Nat.{ℕ, zero, suc, ◌-◌}
use mathlib.Core.Path.{◌≡◌, refl}
use mathlib.Core.Bool.{Bool, true, false, ◌||◌, not}
use mathlib.Core.List.{List, [], ◌∷◌, ◌++◌, reverse}
use mathlib.Core.Option.{Option, none, some}
use native.Mathlib.Omega.{arith}
use solinv.Base.Tests.{if◌then◌else◌, is_some, ◌>>=◌}
use solinv.Base.Lists.{length, filter}
use solinv.Base.Buffers.{Text}
use solinv.Base.Strings.{is_whitespace, starts_with, strip_prefix, strip_prefix-append}

-- `contains`.
unfoldable pub has_substring : Text → Text → Bool
has_substring needle [] = starts_with needle []
has_substring needle (c ∷ s) = starts_with needle (c ∷ s) || has_substring needle s

-- `replace`, with the characters of the last match that are still to be passed over. The pattern is
-- not empty.
unfoldable pub replace_from : Text → Text → ℕ → Text → Text
replace_from pattern with_text skip [] = []
replace_from pattern with_text (suc skip) (c ∷ s) = replace_from pattern with_text skip s
replace_from pattern with_text zero (c ∷ s) =
    let hit = replace_from pattern with_text (length pattern - 1) s in
    let miss = replace_from pattern with_text zero s in
    if starts_with pattern (c ∷ s) then with_text ++ hit else c ∷ miss

unfoldable pub replace : Text → Text → Text → Text
unfolding replace_from
replace pattern with_text s = replace_from pattern with_text zero s

abbrev pub onto_first : ℕ → List Text → List Text
onto_first c [] = (c ∷ []) ∷ []
onto_first c (t ∷ ts) = (c ∷ t) ∷ ts

-- `split` at a pattern that is not empty.
unfoldable pub split_from : Text → ℕ → Text → List Text
split_from pattern skip [] = [] ∷ []
split_from pattern (suc skip) (c ∷ s) = split_from pattern skip s
split_from pattern zero (c ∷ s) =
    let hit = split_from pattern (length pattern - 1) s in
    let miss = split_from pattern zero s in
    if starts_with pattern (c ∷ s) then [] ∷ hit else onto_first c miss

unfoldable pub split_text : Text → Text → List Text
unfolding split_from
split_text pattern s = split_from pattern zero s

-- `split` at the characters that are no part of a word, without the empty parts.
unfoldable pub words_of : (ℕ → Bool) → Text → Text → List Text
words_of is_word word [] = word ∷ []
words_of is_word word (c ∷ s) =
    let inside = words_of is_word (word ++ (c ∷ [])) s in
    let outside = words_of is_word [] s in if is_word c then inside else word ∷ outside

abbrev pub is_empty_text : Text → Bool
is_empty_text [] = true
is_empty_text (c ∷ s) = false

unfoldable pub words : (ℕ → Bool) → Text → List Text
unfolding words_of
words is_word s = filter (λ w. not (is_empty_text w)) (words_of is_word [] s)

-- `trim_start_matches` of a set of characters.
unfoldable pub trim_start_of : (ℕ → Bool) → Text → Text
trim_start_of drops [] = []
trim_start_of drops (c ∷ s) = let rest = trim_start_of drops s in if drops c then rest else c ∷ s

-- `chars().filter(|c| !c.is_whitespace())`.
unfoldable pub without_blanks : Text → Text
unfolding is_whitespace
without_blanks s = filter (λ c. not (is_whitespace c)) s

-- `find` of a pattern.
unfoldable pub find_text : Text → Text → Option ℕ
find_text needle [] = if starts_with needle [] then some 0 else none
find_text needle (c ∷ s) =
    let later = find_text needle s >>= λ i. some (suc i) in
    if starts_with needle (c ∷ s) then some 0 else later

unfoldable pub strip_suffix : Text → Text → Option Text
unfolding strip_prefix
strip_suffix suffix s = elim (strip_prefix (reverse suffix) (reverse s)) [
  | none ↦ none
  | some rest ↦ some (reverse rest)
]

unfoldable pub ends_with : Text → Text → Bool
unfolding strip_suffix
ends_with suffix s = is_some (strip_suffix suffix s)

-- A text contains what it starts with, wherever it stands.
pub has_substring-append :
    (p s t : Text) → has_substring s t ≡ true → has_substring s (p ++ t) ≡ true
unfolding has_substring
has_substring-append [] s t h = h
has_substring-append (c ∷ p) s t h = ground (arith, has_substring-append p s t h)

pub has_substring-prefix : (s t : Text) → has_substring s (s ++ t) ≡ true
unfolding has_substring starts_with
has_substring-prefix [] [] = refl
has_substring-prefix [] (c ∷ t) = refl
has_substring-prefix (c ∷ s) t = ground (arith, strip_prefix-append (c ∷ s) t)
