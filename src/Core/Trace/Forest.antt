-- ===== src/Core/Trace/Forest.antt =====
-- trace.rs: every line keeps the places of the arena in range and the children behind their frame.
use solinv.Base.{
  nat_eq, Bool-cases, Option-cases, ◌>>=◌, ◌==◌, length, get_elem?, modify, length-append, All,
  All-append, All-map, Text, codes, trim, strip_prefix, starts_with, split_once, ℕ, zero, suc, ◌+◌,
  ◌<◌, ◌≡◌, refl, inl, inr, Option, some, List, [], ◌∷◌, arith, ℕ_eq, list_eq, option_eq,
}
use solinv.Solana.{Pubkey}
use solinv.Core.CpiReentrancy.{parse_depth, pop, push}
use solinv.Core.Trace.{
  Raw, Building, last, at_top, named, fail, consume, adopt, new_frame, open_frame, close_frame,
  parse_units, trace_verb, trace_log, trace_call, trace_line, trace_lines,
}

-- Behind place `i`, in an arena of `n` frames.
abbrev pub Behind : ℕ → ℕ → ℕ → Type 0
Behind n i c = (i < c) × (c < n)

-- The children of the frames, the first of which stands at place `i`.
abbrev pub Places : ℕ → ℕ → List Raw → Type 0
Places n i [] = Unit
Places n i (r ∷ rs) = All (Behind n i) r.children × Places n (suc i) rs

abbrev IsForest : Building → Type 0
IsForest b =
    Places (length b.arena) 0 b.arena
    × (All (λ i. i < length b.arena) b.roots × All (λ i. i < length b.arena) b.stack)

Places-widen : (n i : ℕ) (rs : List Raw) → Places n i rs → Places (n + 1) i rs
Places-widen n i [] tt = tt
Places-widen n i (r ∷ rs) (here, later) = (
  All-map (Behind n i) (Behind (n + 1) i) r.children (λ c h. (h.0, omega arith)) here,
  Places-widen n (suc i) rs later,
)

Places-push :
    (n i : ℕ) (rs : List Raw) (pid : Pubkey) (depth : ℕ)
    → Places n i rs
    → Places n i (push rs (new_frame pid depth))
Places-push n i [] pid depth tt = (tt, tt)
Places-push n i (r ∷ rs) pid depth (here, later) = (here, Places-push n (suc i) rs pid depth later)

-- A change to one frame, at place `j`, that leaves its children behind it.
Places-modify :
    (n i k j : ℕ) (f : Raw → Raw) (rs : List Raw)
    → j ≡ i + k
    → ((r : Raw) → All (Behind n j) r.children → All (Behind n j) (f r).children)
    → Places n i rs
    → Places n i (modify rs k f)
Places-modify n i k j f [] e keeps tt = tt
Places-modify n i zero j f (r ∷ rs) e keeps (here, later) = (
  All-map (Behind n j) (Behind n i) (f r).children (λ c h. (omega arith, h.1))
      (keeps r (All-map (Behind n i) (Behind n j) r.children (λ c h. (omega arith, h.1)) here)),
  later,
)
Places-modify n i (suc k) j f (r ∷ rs) e keeps (here, later) =
    (here, Places-modify n (suc i) k j f rs (omega arith) keeps later)

pub Places-get :
    (n i k j : ℕ) (rs : List Raw)
    → j ≡ i + k
    → Places n i rs
    → k < length rs
    → (r : Raw) × (get_elem? rs k ≡ some r) × All (Behind n j) r.children
Places-get n i k j [] e tt h = ground arith
Places-get n i zero j (r ∷ rs) e (here, later) h =
    (r, refl, All-map (Behind n i) (Behind n j) r.children (λ c b. (omega arith, b.1)) here)
Places-get n i (suc k) j (r ∷ rs) e (here, later) h =
    Places-get n (suc i) k j rs (omega arith) later (omega arith)

length-modify : (rs : List Raw) (k : ℕ) (f : Raw → Raw) → length (modify rs k f) ≡ length rs
length-modify [] k f = refl
length-modify (r ∷ rs) zero f = refl
length-modify (r ∷ rs) (suc k) f = rw (length-modify rs k f) refl

last-All : (n : ℕ) (s : List ℕ) (top : ℕ) → All (λ i. i < n) s → last s ≡ some top → top < n
unfolding last
last-All n [] top h e = ground arith
last-All n (x ∷ []) top h e = ground arith
last-All n (x ∷ y ∷ s) top h e = last-All n (y ∷ s) top h.1 e

pop-All {κ} : (P : ℕ → Type κ) (s : List ℕ) → All P s → All P (pop s)
pop-All P [] h = tt
pop-All P (x ∷ []) h = tt
pop-All P (x ∷ y ∷ s) h = (h.0, pop-All P (y ∷ s) h.1)

at_top-IsForest :
    (f : Raw → Raw) (b : Building)
    → ((r : Raw) → (f r).children ≡ r.children)
    → IsForest b
    → IsForest (at_top f b)
unfolding at_top
at_top-IsForest f b same forest = elim (Option-cases (last b.stack)) [
  | inl e ↦ rw (at_top, e) forest
  | inr (top, e) ↦
      let n = length b.arena in
      rw (at_top, e, length-modify b.arena top f)
        (
          Places-modify n 0 top top f b.arena (omega arith) (λ r h. rw (same r) h) forest.0,
          forest.1,
        )
]

-- Places stay in an arena that grows by one, and the new place is in it.
All-grow : (n : ℕ) (s : List ℕ) → All (λ i. i < n) s → All (λ i. i < n + 1) s
All-grow n s h = All-map (λ i. i < n) (λ i. i < n + 1) s (λ i k. omega arith) h

All-push : (n : ℕ) (s : List ℕ) → All (λ i. i < n) s → All (λ i. i < n + 1) (push s n)
All-push n s h = All-append (λ i. i < n + 1) s (n ∷ []) (All-grow n s h) (omega arith, tt)

open_frame-IsForest :
    (pid : Pubkey) (depth : ℕ) (b : Building) → IsForest b → IsForest (open_frame pid depth b)
unfolding open_frame
open_frame-IsForest pid depth b (places, (roots, stack)) =
    let n = length b.arena in
    let frame = new_frame pid depth in
    let grown = Places-push (n + 1) 0 b.arena pid depth (Places-widen n 0 b.arena places) in
    elim (Option-cases (last b.stack)) [
      | inl e ↦
          rw (open_frame, e, length-append b.arena (frame ∷ []))
            (grown, (All-push n b.roots roots, All-push n b.stack stack))
      | inr (top, e) ↦
          let below = last-All n b.stack top stack e in
          let adopts : (r : Raw)
              → All (Behind (n + 1) top) r.children
              → All (Behind (n + 1) top) (adopt n r).children =
            λ r h.
              All-append (Behind (n + 1) top) r.children (n ∷ []) h ((below, omega arith), tt) in
          rw
            (
              open_frame,
              e,
              length-modify (push b.arena frame) top (adopt n),
              length-append b.arena (frame ∷ []),
            )
            (
              Places-modify (n + 1) 0 top top (adopt n) (push b.arena frame) (omega arith) adopts
                  grown,
              (All-grow n b.roots roots, All-push n b.stack stack),
            )
    ]

close_frame-IsForest : (b : Building) → IsForest b → IsForest (close_frame b)
unfolding close_frame
close_frame-IsForest b (places, (roots, stack)) =
    (places, (roots, pop-All (λ i. i < length b.arena) b.stack stack))

named-children : (name : Text) (r : Raw) → (named name r).children ≡ r.children
named-children name r = elim (Option-cases r.instruction) [
  | inl e ↦ rw e refl
  | inr (given, e) ↦ rw e refl
]

consume-children : (pid : Pubkey) (n : ℕ) (r : Raw) → (consume pid n r).children ≡ r.children
consume-children pid n r = elim (Bool-cases (nat_eq r.program pid)) [
  | inl e ↦ rw e refl
  | inr e ↦ rw e refl
]

trace_verb-IsForest :
    (pid : Pubkey) (tail : Text) (b : Building) → IsForest b → IsForest (trace_verb pid tail b)
unfolding trace_verb
trace_verb-IsForest pid tail b h =
    elim (Option-cases (strip_prefix (codes "invoke [") tail >>= parse_depth)) [
      | inr (depth, e) ↦ rw (trace_verb, e) (open_frame-IsForest pid depth b h)
      | inl e ↦ elim (Bool-cases (tail == codes "success")) [
        | inl s ↦ rw (trace_verb, e, s) (close_frame-IsForest b h)
        | inr s ↦ elim (Bool-cases (starts_with (codes "failed") tail)) [
          | inl f ↦
              rw (trace_verb, e, s, f)
                (close_frame-IsForest (at_top fail b) (at_top-IsForest fail b (λ r. refl) h))
          | inr f ↦ elim (Option-cases (parse_units tail)) [
            | inl u ↦ rw (trace_verb, e, s, f, u) h
            | inr (n, u) ↦
                rw (trace_verb, e, s, f, u)
                  (at_top-IsForest (consume pid n) b (consume-children pid n) h)
          ]
        ]
      ]
    ]

trace_log-IsForest : (msg : Text) (b : Building) → IsForest b → IsForest (trace_log msg b)
unfolding trace_log
trace_log-IsForest msg b h = elim (Option-cases (strip_prefix (codes "Instruction: ") msg)) [
  | inl e ↦ rw (trace_log, e) h
  | inr (name, e) ↦ rw (trace_log, e) (at_top-IsForest (named name) b (named-children name) h)
]

trace_call-IsForest :
    (parse_key : Text → Option Pubkey) (rest : Text) (b : Building)
    → IsForest b
    → IsForest (trace_call parse_key rest b)
unfolding trace_call
trace_call-IsForest parse_key rest b h = elim (Option-cases (split_once b' ' rest)) [
  | inl e ↦ rw (trace_call, e) h
  | inr ((pid_str, tail), e) ↦ elim (Option-cases (parse_key pid_str)) [
    | inl k ↦ rw (trace_call, e, k) h
    | inr (pid, k) ↦ rw (trace_call, e, k) (trace_verb-IsForest pid tail b h)
  ]
]

trace_line-IsForest :
    (parse_key : Text → Option Pubkey) (line : Text) (b : Building)
    → IsForest b
    → IsForest (trace_line parse_key line b)
unfolding trace_line
trace_line-IsForest parse_key line b h =
    elim (Option-cases (strip_prefix (codes "Program ") (trim line))) [
      | inl e ↦ rw (trace_line, e) h
      | inr (rest, e) ↦ elim (Option-cases (strip_prefix (codes "log: ") rest)) [
        | inl l ↦ rw (trace_line, e, l) (trace_call-IsForest parse_key rest b h)
        | inr (msg, l) ↦ rw (trace_line, e, l) (trace_log-IsForest msg b h)
      ]
    ]

pub trace_lines-IsForest :
    (parse_key : Text → Option Pubkey) (logs : List Text) (b : Building)
    → IsForest b
    → IsForest (trace_lines parse_key logs b)
unfolding trace_lines
trace_lines-IsForest parse_key [] b h = h
trace_lines-IsForest parse_key (line ∷ logs) b h =
    trace_lines-IsForest parse_key logs (trace_line parse_key line b)
      (trace_line-IsForest parse_key line b h)
