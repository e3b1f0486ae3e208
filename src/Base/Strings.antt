-- ===== src/Base/Strings.antt =====
-- The operations of Rust's `str` that the source uses, on texts.
use Prim.Native.Nat.{ℕ, ◌+◌, ◌-◌, ◌*◌}
use mathlib.Core.Path.{◌≡◌, refl}
use mathlib.Core.Bool.{Bool, false, ◌&&◌, ◌||◌}
use mathlib.Core.List.{[], ◌∷◌, ◌++◌, reverse}
use mathlib.Core.Option.{Option, none, some}
use native.Mathlib.Omega.{arith}
use solinv.Base.Tests.{ltb, leb, nat_eq, if◌then◌else◌, is_some, ◌>>=◌}
use solinv.Base.Buffers.{Text}

-- `char::is_whitespace`.
unfoldable pub is_whitespace : ℕ → Bool
is_whitespace c =
    (leb 9 c && leb c 13)
    || nat_eq c 32
    || nat_eq c 0x85
    || nat_eq c 0xA0
    || nat_eq c 0x1680
    || (leb 0x2000 c && leb c 0x200A)
    || nat_eq c 0x2028
    || nat_eq c 0x2029
    || nat_eq c 0x202F
    || nat_eq c 0x205F
    || nat_eq c 0x3000

unfoldable pub trim_start : Text → Text
unfolding is_whitespace
trim_start [] = []
trim_start (c ∷ s) = let rest = trim_start s in if is_whitespace c then rest else c ∷ s

unfoldable pub trim : Text → Text
unfolding trim_start
trim s = reverse (trim_start (reverse (trim_start s)))

unfoldable pub strip_prefix : Text → Text → Option Text
strip_prefix [] s = some s
strip_prefix (p ∷ ps) [] = none
strip_prefix (p ∷ ps) (c ∷ s) = let rest = strip_prefix ps s in if nat_eq p c then rest else none

unfoldable pub starts_with : Text → Text → Bool
unfolding strip_prefix
starts_with p s = is_some (strip_prefix p s)

-- `strip_suffix` of one character.
unfoldable pub strip_last : ℕ → Text → Option Text
strip_last q [] = none
strip_last q (c ∷ []) = if nat_eq c q then some [] else none
strip_last q (c ∷ d ∷ s) = strip_last q (d ∷ s) >>= λ rest. some (c ∷ rest)

-- `split_once` at a character.
unfoldable pub split_once : ℕ → Text → Option (Text × Text)
split_once q [] = none
split_once q (c ∷ s) =
    let later = split_once q s >>= λ parts. some (c ∷ parts.0, parts.1) in
    if nat_eq c q then some ([], s) else later

-- `rsplit_once` at a character.
unfoldable pub rsplit_once : ℕ → Text → Option (Text × Text)
rsplit_once q [] = none
rsplit_once q (c ∷ s) = elim (rsplit_once q s) [
  | some (before, after) ↦ some (c ∷ before, after)
  | none ↦ if nat_eq c q then some ([], s) else none
]

unfoldable pub is_digit : ℕ → Bool
is_digit c = leb b'0' c && leb c b'9'

-- Decimal digits below a modulus, from the value `n` read so far.
unfoldable pub parse_digits : ℕ → ℕ → Text → Option ℕ
unfolding is_digit
parse_digits modulus n [] = some n
parse_digits modulus n (c ∷ s) =
    let n' = n * 10 + (c - b'0') in
    let rest = parse_digits modulus n' s in if is_digit c && ltb n' modulus then rest else none

-- `parse::<uN>().ok()`: an optional `+`, then digits.
unfoldable pub parse_unsigned : ℕ → Text → Option ℕ
unfolding parse_digits
parse_unsigned modulus [] = none
parse_unsigned modulus (c ∷ []) = parse_digits modulus 0 (c ∷ [])
parse_unsigned modulus (c ∷ d ∷ s) =
    if nat_eq c b'+' then parse_digits modulus 0 (d ∷ s) else parse_digits modulus 0 (c ∷ d ∷ s)

-- A prefix that is put on comes off.
pub strip_prefix-append : (p s : Text) → strip_prefix p (p ++ s) ≡ some s
unfolding strip_prefix
strip_prefix-append [] s = refl
strip_prefix-append (c ∷ p) s = ground (arith, strip_prefix-append p s)

pub strip_last-append : (q : ℕ) (s : Text) → strip_last q (s ++ (q ∷ [])) ≡ some s
unfolding strip_last
strip_last-append q [] = ground arith
strip_last-append q (c ∷ []) = ground arith
strip_last-append q (c ∷ d ∷ s) = ground (arith, strip_last-append q (d ∷ s))

-- No character of the text is `q`.
abbrev pub Lacks : ℕ → Text → Type 0
Lacks q [] = Unit
Lacks q (c ∷ s) = (nat_eq c q ≡ false) × Lacks q s

pub split_once-append : (q : ℕ) (s t : Text) → Lacks q s → split_once q (s ++ (q ∷ t)) ≡ some (s, t)
unfolding split_once
split_once-append q [] t h = ground arith
split_once-append q (c ∷ s) t h = ground (arith, split_once-append q s t h.1)
