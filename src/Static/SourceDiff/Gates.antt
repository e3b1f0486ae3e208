-- ===== src/Static/SourceDiff/Gates.antt =====
-- diff.rs: constraints that answer yes or no from an account's state, and a gate that is another's
-- inverse. The characters looked for are ASCII, so the places are those of the source's bytes.
use solinv.Base.{
  nat_eq, if◌then◌else◌, ◌==◌, length, take, drop, Text, codes, strip_prefix, starts_with, replace,
  trim_start_of, without_blanks, find_text, strip_suffix, ends_with, ℕ, zero, suc, ◌+◌, ◌-◌, ◌%◌,
  Bool, not, ◌&&◌, Option, none, some, List, [], ◌∷◌, ◌++◌, ℕ_eq, list_eq, option_eq,
}
use solinv.Static.SourceDiff.Keys.{TextTools}

abbrev pub comparisons : Text
comparisons =
    codes
      "==|!=|<|>|\\||\\^|\\.\\s*(?:eq|ne|ge|gt|le|lt|cmp|partial_cmp)\\s*\\(|\\bmatches\\s*!|\"|'|\\b\\d|\\btrue\\b|\\bfalse\\b"

unfoldable pub yes_no : TextTools → Text → Bool
yes_no tools e = not (tools.is_match comparisons e)

-- The first `)` after which as many brackets are closed as opened.
unfoldable pub closing_from : ℕ → ℕ → ℕ → Text → Option ℕ
closing_from i o c [] = none
closing_from i o c (x ∷ s) =
    let opened = closing_from (i + 1) (o + 1) c s in
    let closed = closing_from (i + 1) o (c + 1) s in
    let other = closing_from (i + 1) o c s in
    if nat_eq x b'('
    then opened
    else if nat_eq x b')'
    then (if nat_eq o (c + 1) then some i else closed)
    else other

unfoldable pub closing_paren_at : Text → Option ℕ
unfolding closing_from
closing_paren_at t = closing_from 0 0 0 t

-- A text that is read with so many `!` before it.
pub record Read : Type 0 where
  pub bangs : ℕ
  pub core : Text

abbrev pub not_calls : List Text
not_calls = codes "std::ops::Not::not(" ∷ (codes "core::ops::Not::not(" ∷ (codes "Not::not(" ∷ []))

-- `Not::not(x)` is `!x`.
unfoldable pub unwrap_not : List Text → Read → Read
unfolding closing_paren_at starts_with ends_with
unwrap_not [] r = r
unwrap_not (p ∷ ps) r =
    let rest = unwrap_not ps r in
    let t = r.core in
    if starts_with p t
      && (ends_with (codes ")") t
          && (closing_paren_at (drop (length p - 1) t) == some (length t - length p)))
    then record { bangs = r.bangs + 1; core = take (length t - 1 - length p) (drop (length p) t) }
    else rest

abbrev pub truth_suffixes : List (Text × ℕ)
truth_suffixes =
    (codes "==false", 1)
    ∷ ((codes "!=true", 1)
        ∷ ((codes "==true", 0) ∷ ((codes "!=false", 0) ∷ ((codes ".not()", 1) ∷ []))))

-- The first of the suffixes that the text has.
unfoldable pub strip_truth : List (Text × ℕ) → Read → Read
unfolding strip_suffix
strip_truth [] r = r
strip_truth ((suffix, flips) ∷ suffixes) r = elim (strip_suffix suffix r.core) [
  | some rest ↦ record { bangs = r.bangs + flips; core = rest }
  | none ↦ strip_truth suffixes r
]

-- One question asked both ways: `x.is_none()` is `!x.is_some()`.
unfoldable pub ask_yes : Text → Text → Read → Read
unfolding strip_suffix
ask_yes asked inverse r = elim (strip_suffix inverse r.core) [
  | some rest ↦ record { bangs = r.bangs + 1; core = rest ++ asked }
  | none ↦ r
]

-- `(*x).f()` is `x.f()`; each round takes three characters away.
unfoldable pub drop_derefs : ℕ → Text → Text
unfolding find_text closing_paren_at
drop_derefs zero t = t
drop_derefs (suc fuel) t = elim (find_text (codes "(*") t) [
  | none ↦ t
  | some i ↦ elim (closing_paren_at (drop i t)) [
    | none ↦ t
    | some close ↦
        drop_derefs fuel (take i t ++ (take (close - 2) (drop (i + 2) t) ++ drop (i + close + 1) t))
  ]
]

abbrev pub is_enclosed : Text → Bool
is_enclosed t =
    starts_with (codes "(") t
    && (ends_with (codes ")") t && (closing_paren_at t == some (length t - 1)))

-- Without leading `!` and brackets around the whole; each round shortens the text.
unfoldable pub peel : ℕ → Read → Read
unfolding strip_prefix
peel zero r = r
peel (suc fuel) r =
    let t = r.core in
    elim (strip_prefix (codes "!") t) [
      | some rest ↦ peel fuel (record { bangs = r.bangs + 1; core = rest })
      | none ↦
          let inner =
            peel fuel (record { bangs = r.bangs; core = take (length t - 2) (drop 1 t) }) in
          if is_enclosed t then inner else r
    ]

unfoldable pub core_of : Text → Read
unfolding without_blanks replace unwrap_not strip_truth ask_yes drop_derefs trim_start_of peel
core_of e =
    let t =
      replace (codes ".load_init()?") (codes ".load()?")
        (replace (codes ".load_mut()?") (codes ".load()?") (without_blanks e)) in
    let asked =
      strip_truth truth_suffixes (unwrap_not not_calls (record { bangs = 0; core = t })) in
    let read =
      ask_yes (codes ".is_ok()") (codes ".is_err()")
        (ask_yes (codes ".is_some()") (codes ".is_none()") asked) in
    let bared = trim_start_of (λ c. nat_eq c b'*') (drop_derefs (length read.core) read.core) in
    peel (length bared + 1) (record { bangs = read.bangs; core = bared })

unfoldable pub negated : Text → Text → Bool
unfolding core_of
negated a b =
    let x = core_of a in
    let y = core_of b in (x.core == y.core) && not (nat_eq (x.bangs % 2) (y.bangs % 2))
