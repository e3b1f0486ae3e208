-- ===== src/Core/CpiReentrancy/Calls/Logged.antt =====
-- `parse_cpi_events` of cpi_reentrancy.rs on the log of a transaction's calls.
use mathlib.Core.List.{append_assoc}
use mathlib.Core.Path.{subst}
use solinv.Base.{
  Option-cases, All, Text, codes, show, is_whitespace, trim, strip_prefix, starts_with, split_once,
  strip_prefix-append, strip_last-append, Lacks, split_once-append, parse_unsigned-show, trim-tidy,
  trim_keeps, ℕ, ◌<◌, ◌≡◌, refl, ap, ◌∙◌, ◌⊎◌, inl, inr, false, Option, none, some, List, [], ◌∷◌,
  ◌++◌, map,
}
use solinv.Core.CpiReentrancy.Calls.{Calls, events_of_all, first_reentry_all}
use solinv.Core.CpiReentrancy.Calls.Detects.{detect_reentry-calls}
use solinv.Solana.{Pubkey}
use solinv.Core.CpiReentrancy.{
  CpiEvent, invoke, succeeded, failed, u32_mod, parse_depth, parse_verb, parse_line,
  parse_cpi_events, detect_reentry,
}

-- How keys are written and read: each is read back, none has a blank in it, and a text with a colon is
-- no key.
pub record ReadsKeys (show_key : Pubkey → Text) (parse_key : Text → Option Pubkey) : Type 0 where
  pub back : (pid : Pubkey) → parse_key (show_key pid) ≡ some pid
  pub solid : (pid : Pubkey) → Lacks b' ' (show_key pid)
  pub colon : (s t : Text) → parse_key (s ++ (b':' ∷ t)) ≡ none

-- A line of the log: a call that begins, succeeds or fails for a reason, the units that it consumed of
-- a limit, or what a program prints, under `log`, `data` or `return`.
pub data LogLine : Type 0 where
  begins : Pubkey → ℕ → LogLine
  succeeds : Pubkey → LogLine
  fails_for : Pubkey → Text → LogLine
  consumes : Pubkey → ℕ → ℕ → LogLine
  logs data_of returns : Text → LogLine

abbrev of_program : Text → Text → Text
of_program key tail = codes "Program " ++ (key ++ (b' ' ∷ tail))

unfoldable pub text_of : (Pubkey → Text) → LogLine → Text
unfolding show
text_of show_key (begins pid depth) =
    of_program (show_key pid) ((codes "invoke [" ++ show depth) ++ codes "]")
text_of show_key (succeeds pid) = of_program (show_key pid) (codes "succes" ++ codes "s")
text_of show_key (fails_for pid reason) =
    of_program (show_key pid) (codes "failed" ++ (b':' ∷ (b' ' ∷ reason)))
text_of show_key (consumes pid units limit) = of_program (show_key pid) (
    (codes "consumed " ++ (show units ++ (codes " of " ++ (show limit ++ codes " compute unit"))))
    ++ codes "s")
text_of show_key (logs text) = codes "Program log" ++ (b':' ∷ (b' ' ∷ text))
text_of show_key (data_of text) = codes "Program data" ++ (b':' ∷ (b' ' ∷ text))
text_of show_key (returns text) = codes "Program return" ++ (b':' ∷ (b' ' ∷ text))

-- The event that a line tells of.
abbrev pub event_in : LogLine → Option CpiEvent
event_in (begins pid depth) = some (invoke pid depth)
event_in (succeeds pid) = some (succeeded pid)
event_in (fails_for pid reason) = some (failed pid)
event_in (consumes pid units limit) = none
event_in (logs text) = none
event_in (data_of text) = none
event_in (returns text) = none

abbrev pub events_in : List LogLine → List CpiEvent
events_in [] = []
events_in (l ∷ ls) =
    let rest = events_in ls in elim (event_in l) [ none ↦ rest | some e ↦ e ∷ rest ]

-- A depth is a u32.
abbrev pub FitsDepth : LogLine → Type 0
FitsDepth (begins pid depth) = depth < u32_mod
FitsDepth (succeeds pid) = Unit
FitsDepth (fails_for pid reason) = Unit
FitsDepth (consumes pid units limit) = Unit
FitsDepth (logs text) = Unit
FitsDepth (data_of text) = Unit
FitsDepth (returns text) = Unit

trim-line :
    (key tail : Text) (d : ℕ)
    → is_whitespace d ≡ false
    → trim (of_program key (tail ++ (d ∷ []))) ≡ of_program key (tail ++ (d ∷ []))
unfolding is_whitespace
trim-line key tail d h =
    subst (λ (t : Text). trim (codes "Program " ++ t) ≡ codes "Program " ++ t)
      (append_assoc key (b' ' ∷ tail) (d ∷ []))
      (trim-tidy b'P' d (codes "rogram " ++ (key ++ (b' ' ∷ tail))) refl h)

-- The first word of a text that begins with a word and a colon has a colon in it.
first_word :
    (word rest : Text)
    → Lacks b' ' word
    → (split_once b' ' (word ++ (b':' ∷ rest)) ≡ none)
      ⊎ ((u : Text) × (v : Text) × (split_once b' ' (word ++ (b':' ∷ rest))
            ≡ some (word ++ (b':' ∷ u), v)))
unfolding split_once
first_word [] rest h = elim (Option-cases (split_once b' ' rest)) [
  | inl whole ↦ inl (rw whole refl)
  | inr ((u, v), cut) ↦ inr (u, v, rw cut refl)
]
first_word (c ∷ word) rest (apart, h) = elim (first_word word rest h) [
  | inl whole ↦ inl (rw (whole, apart) refl)
  | inr (u, v, cut) ↦ inr (u, v, rw (cut, apart) refl)
]

solid_log : Lacks b' ' (codes "log")
solid_log = (refl, (refl, (refl, tt)))

solid_data : Lacks b' ' (codes "data")
solid_data = (refl, (refl, (refl, (refl, tt))))

solid_return : Lacks b' ' (codes "return")
solid_return = (refl, (refl, (refl, (refl, (refl, (refl, tt))))))

module _ (show_key : Pubkey → Text) (parse_key : Text → Option Pubkey)
    (keys : ReadsKeys show_key parse_key) where
  parse_line-trimmed :
      (line key tail : Text) (pid : Pubkey)
      → trim line ≡ of_program (show_key pid) tail
      → parse_line parse_key line ≡ parse_verb pid tail
  unfolding parse_line
  parse_line-trimmed line key tail pid e =
      rw
        (
          parse_line,
          e,
          strip_prefix-append (codes "Program ") (show_key pid ++ (b' ' ∷ tail)),
          split_once-append b' ' (show_key pid) tail (keys.solid pid),
          keys.back pid,
        )
        refl

  -- What a program prints is no event, whatever it prints.
  parse_line-printed :
      (word text : Text)
      → Lacks b' ' word
      → parse_line parse_key (codes "Program " ++ (word ++ (b':' ∷ text))) ≡ none
  unfolding parse_line is_whitespace
  parse_line-printed word text h =
      let (rest, e) = trim_keeps b'P' b':' (codes "rogram " ++ word) text refl refl in
      elim (first_word word rest h) [
        | inl whole ↦
            rw
              (parse_line, e, strip_prefix-append (codes "Program ") (word ++ (b':' ∷ rest)), whole)
              refl
        | inr (u, v, cut) ↦
            rw
              (
                parse_line,
                e,
                strip_prefix-append (codes "Program ") (word ++ (b':' ∷ rest)),
                cut,
                keys.colon word u,
              )
              refl
      ]

  failed_line :
      (pid : Pubkey) (reason : Text)
      → parse_line parse_key (of_program (show_key pid) (codes "failed" ++ (b':' ∷ reason)))
        ≡ some (failed pid)
  unfolding parse_verb strip_prefix starts_with is_whitespace
  failed_line pid reason =
      let key = show_key pid in
      let (rest, e) =
        trim_keeps b'P' b':' (codes "rogram " ++ (key ++ (b' ' ∷ codes "failed"))) reason refl
          refl in
      parse_line-trimmed (of_program key (codes "failed" ++ (b':' ∷ reason))) key
        (codes "failed" ++ (b':' ∷ rest)) pid
        (rw
          (
            ← append_assoc key (b' ' ∷ codes "failed") (b':' ∷ reason),
            ← append_assoc key (b' ' ∷ codes "failed") (b':' ∷ rest),
          )
          e)

  parse_line-text_of :
      (l : LogLine) → FitsDepth l → parse_line parse_key (text_of show_key l) ≡ event_in l
  unfolding text_of parse_verb parse_depth strip_prefix starts_with is_whitespace
  parse_line-text_of (begins pid depth) fits =
      parse_line-trimmed _ (show_key pid) ((codes "invoke [" ++ show depth) ++ codes "]") pid
        (trim-line (show_key pid) (codes "invoke [" ++ show depth) b']' refl)
      ∙ rw (strip_last-append b']' (show depth), parse_unsigned-show u32_mod depth fits) refl
  parse_line-text_of (succeeds pid) fits =
      parse_line-trimmed _ (show_key pid) (codes "succes" ++ codes "s") pid
        (trim-line (show_key pid) (codes "succes") b's' refl)
  parse_line-text_of (fails_for pid reason) fits = failed_line pid (b' ' ∷ reason)
  parse_line-text_of (consumes pid units limit) fits =
      let spent =
        codes "consumed "
        ++ (show units ++ (codes " of " ++ (show limit ++ codes " compute unit"))) in
      parse_line-trimmed _ (show_key pid) (spent ++ codes "s") pid
        (trim-line (show_key pid) spent b's' refl)
  parse_line-text_of (logs text) fits = parse_line-printed (codes "log") (b' ' ∷ text) solid_log
  parse_line-text_of (data_of text) fits =
      parse_line-printed (codes "data") (b' ' ∷ text) solid_data
  parse_line-text_of (returns text) fits =
      parse_line-printed (codes "return") (b' ' ∷ text) solid_return

  parse_cpi_events-lines :
      (ls : List LogLine)
      → All FitsDepth ls
      → parse_cpi_events parse_key (map (text_of show_key) ls) ≡ events_in ls
  unfolding parse_cpi_events
  parse_cpi_events-lines [] fits = refl
  parse_cpi_events-lines (l ∷ ls) (here, later) =
      let rest = parse_cpi_events-lines ls later in
      elim (Option-cases (event_in l)) [
        | inl silent ↦ rw (parse_cpi_events, parse_line-text_of l here, events_in, silent) rest
        | inr (e, told) ↦
            rw (parse_cpi_events, parse_line-text_of l here, events_in, told) (ap (◌∷◌ e) rest)
      ]

  -- On a log whose lines tell, among what programs print and consume, of the calls of the forest `cs`, with
  -- depths that a u32 holds and keys that are read back and hold neither a blank nor a colon, the parser
  -- and the search together find exactly the first call, in call order, of a program outside the
  -- allowlist that has an open call above it, with the depths of the outermost such call and of its own.
  pub detect_reentry-parse_cpi_events :
      (allowlist : List Pubkey) (cs : Calls) (ls : List LogLine)
      → All FitsDepth ls
      → events_in ls ≡ events_of_all cs
      → detect_reentry (parse_cpi_events parse_key (map (text_of show_key) ls)) allowlist
        ≡ first_reentry_all allowlist [] cs
  detect_reentry-parse_cpi_events allowlist cs ls fits told =
      rw (parse_cpi_events-lines ls fits, told) (detect_reentry-calls allowlist cs)
