-- ===== src/Static/SourceDiff/Render/Lines.antt =====
-- diff.rs: the lines of a report as GitHub reads them, one command to a line.
use solinv.Base.{
  nat_eq, Bool-cases, length, count, Text, codes, digits, show, is_empty_text, ℕ, zero, suc, ◌+◌,
  ◌/◌, ◌%◌, ◌≡◌, refl, inl, inr, ◌||◌, List, [], ◌∷◌, ◌++◌, arith,
}
use solinv.Static.Change.{Severity, regression, warning, Change}
use solinv.Static.SourceDiff.Render.{
  slot_of, replace_char, escape, escape_property, level, place_of, github_line, render_github,
}

-- The line ends of a text: its line feeds and its carriage returns.
abbrev pub line_ends : Text → ℕ
line_ends s = count (λ c. nat_eq c 10 || nat_eq c 13) s

abbrev returns : Text → ℕ
returns s = count (λ c. nat_eq c 13) s

returns-append : (s t : Text) → returns (s ++ t) ≡ returns s + returns t
returns-append [] t = omega arith
returns-append (c ∷ s) t = omega (arith, returns-append s t)

replace_char-returns : (w s : Text) → returns w ≡ 0 → returns (replace_char 13 w s) ≡ 0
unfolding replace_char
replace_char-returns w [] hw = refl
replace_char-returns w (x ∷ s) hw =
    ground (arith, hw, returns-append w (replace_char 13 w s), replace_char-returns w s hw)

line_ends-append : (s t : Text) → line_ends (s ++ t) ≡ line_ends s + line_ends t
line_ends-append [] t = omega arith
line_ends-append (c ∷ s) t = omega (arith, line_ends-append s t)

replace_char-other :
    (c : ℕ) (w s : Text) → line_ends w ≡ 0 → line_ends s ≡ 0 → line_ends (replace_char c w s) ≡ 0
unfolding replace_char
replace_char-other c w [] hw h = refl
replace_char-other c w (x ∷ s) hw h =
    ground (arith, hw, h, line_ends-append w (replace_char c w s), replace_char-other c w s hw)

replace_char-ends :
    (w s : Text) → line_ends w ≡ 0 → returns s ≡ 0 → line_ends (replace_char 10 w s) ≡ 0
unfolding replace_char
replace_char-ends w [] hw h = refl
replace_char-ends w (x ∷ s) hw h =
    ground (arith, hw, h, line_ends-append w (replace_char 10 w s), replace_char-ends w s hw)

escape-one_line : (s : Text) → line_ends (escape s) ≡ 0
unfolding escape
escape-one_line s =
    replace_char-ends (codes "%0A")
      (replace_char 13 (codes "%0D") (replace_char b'%' (codes "%25") s)) refl
      (replace_char-returns (codes "%0D") (replace_char b'%' (codes "%25") s) refl)

escape_property-one_line : (s : Text) → line_ends (escape_property s) ≡ 0
unfolding escape_property
escape_property-one_line s =
    replace_char-other b',' (codes "%2C") (replace_char b':' (codes "%3A") (escape s)) refl
      (replace_char-other b':' (codes "%3A") (escape s) refl (escape-one_line s))

digits-one_line : (fuel n : ℕ) → line_ends (digits fuel n) ≡ 0
unfolding digits
digits-one_line zero n = refl
digits-one_line (suc fuel) n = ground (
  arith,
  line_ends-append (digits fuel (n / 10)) ((b'0' + n % 10) ∷ []),
  digits-one_line fuel (n / 10),
)

show-one_line : (n : ℕ) → line_ends (show n) ≡ 0
unfolding show
show-one_line n = digits-one_line (n + 1) n

level-one_line : (s : Severity) → line_ends (level s) ≡ 0
level-one_line regression = refl
level-one_line warning = refl

-- Where the change points, in a command.
place-one_line : (c : Change) → line_ends (place_of c) ≡ 0
unfolding place_of
place-one_line c = elim (Bool-cases (is_empty_text c.file)) [
  | inl no_file ↦ rw no_file refl
  | inr has_file ↦
      rw has_file (simp (line_ends-append, escape_property-one_line c.file, show-one_line c.line))
]

github_line-one_line : (c : Change) → line_ends (github_line c) ≡ 1
unfolding github_line
github_line-one_line c = simp (
  line_ends-append,
  level-one_line c.severity,
  place-one_line c,
  escape_property-one_line (codes "solinv: " ++ slot_of c),
  escape-one_line c.message,
)

-- A report has as many line ends, line feeds and carriage returns together, as there are changes: no
-- message, path or file of a change brings one into its command.
pub line_ends-render_github :
    (changes : List Change) → line_ends (render_github changes) ≡ length changes
unfolding render_github
line_ends-render_github [] = refl
line_ends-render_github (c ∷ changes) = omega (
  arith,
  line_ends-append (github_line c) (render_github changes),
  github_line-one_line c,
  line_ends-render_github changes,
)
