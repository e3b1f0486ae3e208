-- ===== src/Core/Trace/Frames.antt =====
-- The arena of trace.rs against the events of cpi_reentrancy.rs, on the same log lines.
use mathlib.Core.List.{append-nil, append_assoc}
use mathlib.Core.Path.{subst}
use solinv.Base.{
  nat_eq, Bool-cases, Option-cases, ◌>>=◌, ◌==◌, length, modify, Text, codes, trim, strip_prefix,
  starts_with, split_once, ℕ, zero, suc, ◌≡◌, refl, sym, ◌∙◌, inl, inr, Option, none, some, List,
  [], ◌∷◌, ◌++◌, map, arith, ℕ_eq, list_eq, option_eq,
}
use solinv.Solana.{Pubkey}
use solinv.Core.CpiReentrancy.{
  CpiEvent, invoke, succeeded, failed, parse_depth, parse_verb, parse_line, parse_cpi_events, push,
}
use solinv.Core.Trace.{
  Raw, Building, last, at_top, named, fail, consume, adopt, new_frame, open_frame, close_frame,
  parse_units, trace_verb, trace_log, trace_call, trace_line, trace_lines, nothing_built,
}

abbrev pub frame_of : Raw → Pubkey × ℕ
frame_of r = (r.program, r.depth)

abbrev pub frames : Building → List (Pubkey × ℕ)
frames b = map frame_of b.arena

-- The calls among the events, in order.
abbrev pub invocations : List CpiEvent → List (Pubkey × ℕ)
invocations [] = []
invocations (invoke pid depth ∷ es) = (pid, depth) ∷ invocations es
invocations (succeeded pid ∷ es) = invocations es
invocations (failed pid ∷ es) = invocations es

-- What an event adds to the frames.
abbrev opened : Option CpiEvent → List (Pubkey × ℕ)
opened none = []
opened (some e) = invocations (e ∷ [])

map-modify :
    (arena : List Raw) (i : ℕ) (f : Raw → Raw)
    → ((r : Raw) → frame_of (f r) ≡ frame_of r)
    → map frame_of (modify arena i f) ≡ map frame_of arena
map-modify [] i f same = refl
map-modify (r ∷ rs) zero f same = rw (same r) refl
map-modify (r ∷ rs) (suc i) f same = rw (map-modify rs i f same) refl

map-push :
    (arena : List Raw) (r : Raw)
    → map frame_of (push arena r) ≡ map frame_of arena ++ (frame_of r ∷ [])
map-push [] r = refl
map-push (s ∷ arena) r = rw (map-push arena r) refl

frames-at_top :
    (f : Raw → Raw) (b : Building)
    → ((r : Raw) → frame_of (f r) ≡ frame_of r)
    → frames (at_top f b) ≡ frames b
unfolding at_top
frames-at_top f b same = elim (Option-cases (last b.stack)) [
  | inl empty ↦ rw (at_top, empty) refl
  | inr (top, e) ↦ rw (at_top, e) (map-modify b.arena top f same)
]

frames-open_frame :
    (pid : Pubkey) (depth : ℕ) (b : Building)
    → frames (open_frame pid depth b) ≡ frames b ++ ((pid, depth) ∷ [])
unfolding open_frame
frames-open_frame pid depth b = elim (Option-cases (last b.stack)) [
  | inl empty ↦ rw (open_frame, empty) (map-push b.arena (new_frame pid depth))
  | inr (parent, e) ↦
      rw (open_frame, e)
        (map-modify (push b.arena (new_frame pid depth)) parent (adopt (length b.arena)) (λ r. refl)
          ∙ map-push b.arena (new_frame pid depth))
]

frame_of-consume :
    (pid : Pubkey) (units : ℕ) (r : Raw) → frame_of (consume pid units r) ≡ frame_of r
frame_of-consume pid units r = elim (Bool-cases (nat_eq r.program pid)) [
  | inl e ↦ rw e refl
  | inr e ↦ rw e refl
]

strip_prefix_sound : (p s t : Text) → strip_prefix p s ≡ some t → s ≡ p ++ t
unfolding strip_prefix
strip_prefix_sound [] s t h = ground (arith, h)
strip_prefix_sound (c ∷ p) [] t h = ground (arith, h)
strip_prefix_sound (c ∷ p) (d ∷ s) t h = elim (Option-cases (strip_prefix p s)) [
  | inl e ↦ ground (arith, h, e)
  | inr (u, e) ↦ ground (arith, h, e, strip_prefix_sound p s u e)
]

-- A tail that starts like an invocation and whose depth cannot be read changes nothing.
frames-invoke :
    (pid : Pubkey) (depth_str : Text) (b : Building)
    → frames (trace_verb pid (codes "invoke [" ++ depth_str) b)
      ≡ frames b ++ opened (parse_verb pid (codes "invoke [" ++ depth_str))
unfolding trace_verb parse_verb strip_prefix starts_with parse_units
frames-invoke pid depth_str b = elim (Option-cases (parse_depth depth_str)) [
  | inl e ↦ rw (trace_verb, e) (sym (append-nil (frames b)))
  | inr (depth, e) ↦ rw (trace_verb, e) (frames-open_frame pid depth b)
]

frames-units :
    (pid : Pubkey) (tail : Text) (b : Building)
    → frames (elim (parse_units tail) [ none ↦ b | some units ↦ at_top (consume pid units) b ])
      ≡ frames b
frames-units pid tail b = elim (Option-cases (parse_units tail)) [
  | inl e ↦ rw e refl
  | inr (units, e) ↦ rw e (frames-at_top (consume pid units) b (frame_of-consume pid units))
]

frames-trace_verb :
    (pid : Pubkey) (tail : Text) (b : Building)
    → frames (trace_verb pid tail b) ≡ frames b ++ opened (parse_verb pid tail)
unfolding trace_verb parse_verb close_frame
frames-trace_verb pid tail b = elim (Option-cases (strip_prefix (codes "invoke [") tail)) [
  | inr (s, e) ↦
      subst (λ t. frames (trace_verb pid t b) ≡ frames b ++ opened (parse_verb pid t))
        (sym (strip_prefix_sound (codes "invoke [") tail s e)) (frames-invoke pid s b)
  | inl e ↦ elim (Bool-cases (tail == codes "success")) [
    | inl is ↦ rw (trace_verb, parse_verb, e, is) (sym (append-nil (frames b)))
    | inr isnt ↦ elim (Bool-cases (starts_with (codes "failed") tail)) [
      | inl is ↦
          rw (trace_verb, parse_verb, e, isnt, is)
            (frames-at_top fail b (λ r. refl) ∙ sym (append-nil (frames b)))
      | inr isnt' ↦
          rw (trace_verb, parse_verb, e, isnt, isnt')
            (frames-units pid tail b ∙ sym (append-nil (frames b)))
    ]
  ]
]

frame_of-named : (name : Text) (r : Raw) → frame_of (named name r) ≡ frame_of r
frame_of-named name r = elim (Option-cases r.instruction) [
  | inl e ↦ rw e refl
  | inr (given, e) ↦ rw e refl
]

frames-trace_log : (msg : Text) (b : Building) → frames (trace_log msg b) ≡ frames b
unfolding trace_log
frames-trace_log msg b = elim (Option-cases (strip_prefix (codes "Instruction: ") msg)) [
  | inl e ↦ rw (trace_log, e) refl
  | inr (name, e) ↦ rw (trace_log, e) (frames-at_top (named name) b (frame_of-named name))
]

opened-append :
    (o : Option CpiEvent) (rest : List CpiEvent)
    → invocations (elim o [ none ↦ rest | some e ↦ e ∷ rest ]) ≡ opened o ++ invocations rest
opened-append none rest = refl
opened-append (some (invoke pid depth)) rest = refl
opened-append (some (succeeded pid)) rest = refl
opened-append (some (failed pid)) rest = refl

module _ (parse_key : Text → Option Pubkey) (no_key : parse_key (codes "log:") ≡ none) where
  -- `parse_line` behind `Program `.
  parse_rest : Text → Option CpiEvent
  parse_rest rest = do parts ← split_once b' ' rest; pid ← parse_key parts.0; parse_verb pid parts.1

  parse_rest-log : (msg : Text) → parse_rest (codes "log: " ++ msg) ≡ none
  unfolding parse_rest split_once
  parse_rest-log msg = rw no_key refl

  frames-trace_call :
      (rest : Text) (b : Building)
      → frames (trace_call parse_key rest b) ≡ frames b ++ opened (parse_rest rest)
  unfolding trace_call parse_rest
  frames-trace_call rest b = elim (Option-cases (split_once b' ' rest)) [
    | inl e ↦ rw (trace_call, e) (sym (append-nil (frames b)))
    | inr ((pid_str, tail), e) ↦ elim (Option-cases (parse_key pid_str)) [
      | inl n ↦ rw (trace_call, e, n) (sym (append-nil (frames b)))
      | inr (pid, k) ↦ rw (trace_call, e, k) (frames-trace_verb pid tail b)
    ]
  ]

  frames-trace_line :
      (line : Text) (b : Building)
      → frames (trace_line parse_key line b) ≡ frames b ++ opened (parse_line parse_key line)
  unfolding trace_line parse_line parse_rest
  frames-trace_line line b = elim (Option-cases (strip_prefix (codes "Program ") (trim line))) [
    | inl e ↦ rw (trace_line, parse_line, e) (sym (append-nil (frames b)))
    | inr (rest, e) ↦ elim (Option-cases (strip_prefix (codes "log: ") rest)) [
      | inl n ↦ rw (trace_line, parse_line, e, n) (frames-trace_call rest b)
      | inr (msg, l) ↦
          let skipped : parse_rest rest ≡ none =
            rw (strip_prefix_sound (codes "log: ") rest msg l) (parse_rest-log msg) in
          rw (trace_line, parse_line, e, l, skipped)
            (frames-trace_log msg b ∙ sym (append-nil (frames b)))
    ]
  ]

  frames-trace_lines_from :
      (logs : List Text) (b : Building)
      → frames (trace_lines parse_key logs b)
        ≡ frames b ++ invocations (parse_cpi_events parse_key logs)
  unfolding trace_lines parse_cpi_events
  frames-trace_lines_from [] b = sym (append-nil (frames b))
  frames-trace_lines_from (line ∷ logs) b =
      let rest = parse_cpi_events parse_key logs in
      frames-trace_lines_from logs (trace_line parse_key line b)
      ∙ rw (frames-trace_line line b, opened-append (parse_line parse_key line) rest)
          (append_assoc (frames b) (opened (parse_line parse_key line)) (invocations rest))

  -- Where no key is written `log:`, the frames that `build_tree` makes of the lines are, in order, the
  -- programs and depths of the invocations that `parse_cpi_events` finds in the same lines.
  pub frames-trace_lines :
      (logs : List Text)
      → frames (trace_lines parse_key logs nothing_built)
        ≡ invocations (parse_cpi_events parse_key logs)
  frames-trace_lines logs = frames-trace_lines_from logs nothing_built
