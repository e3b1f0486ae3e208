-- ===== src/Core/CpiReentrancy/Calls/Detects.antt =====
-- `detect_reentry` of cpi_reentrancy.rs on the log of a tree of calls.
use mathlib.Core.List.{append_assoc, append-nil}
use solinv.Base.{
  nat_eq, if◌then◌else◌, Bool-cases, Option-cases, or_else, any, contains, ℕ, ◌≡◌, refl, sym, ap,
  ◌∙◌, inl, inr, Bool, true, false, Option, none, some, List, [], ◌∷◌, ◌++◌, ℕ_eq, list_eq,
  option_eq,
}
use solinv.Solana.{Pubkey}
use solinv.Core.CpiReentrancy.{
  CpiEvent, Stack, pop, push, find_open, reentry_at, detect_from, detect_reentry,
}
use solinv.Core.CpiReentrancy.Calls.{
  Call, call, Calls, done, next, closing, events_of, events_of_all, Above, outermost, reentry_of,
  first_reentry, first_reentry_all,
}

pop-push {ℓ} : {A : Type ℓ} (s : List A) (x : A) → pop (push s x) ≡ s
pop-push [] x = refl
pop-push (y ∷ []) x = refl
pop-push (y ∷ z ∷ s) x = ap (◌∷◌ y) (pop-push (z ∷ s) x)

or_else_assoc {ℓ} :
    {A : Type ℓ} (a b c : Option A) → or_else (or_else a b) c ≡ or_else a (or_else b c)
or_else_assoc none b c = refl
or_else_assoc (some a) b c = refl

detect_from-closing :
    (allowlist : List Pubkey) (stack : Stack) (fails : Bool) (pid : Pubkey) (rest : List CpiEvent)
    → detect_from allowlist stack (closing fails pid ∷ rest)
      ≡ detect_from allowlist (pop stack) rest
unfolding detect_from
detect_from-closing allowlist stack true pid rest = refl
detect_from-closing allowlist stack false pid rest = refl

-- The stack holds the open calls, the outermost first.
abbrev Holds : Stack → Above → Type 0
Holds stack above = (pid : Pubkey) → find_open pid stack ≡ outermost pid above

find_open-push :
    (pid q : Pubkey) (depth : ℕ) (stack : Stack)
    → find_open pid (push stack (q, depth))
      ≡ or_else (find_open pid stack) (if nat_eq q pid then some depth else none)
unfolding find_open
find_open-push pid q depth [] = refl
find_open-push pid q depth ((p, d) ∷ stack) = elim (Bool-cases (nat_eq p pid)) [
  | inl same ↦ rw same refl
  | inr apart ↦ rw apart (find_open-push pid q depth stack)
]

Holds-push :
    (stack : Stack) (above : Above) (pid : Pubkey) (depth : ℕ)
    → Holds stack above
    → Holds (push stack (pid, depth)) ((pid, depth) ∷ above)
unfolding outermost
Holds-push stack above pid depth holds q =
    find_open-push q pid depth stack
    ∙ ap (λ o. or_else o (if nat_eq pid q then some depth else none)) (holds q)

any-contains :
    (allowlist : List Pubkey) (pid : Pubkey)
    → contains allowlist pid ≡ any (λ allowed. nat_eq allowed pid) allowlist
any-contains [] pid = refl
any-contains (p ∷ ps) pid = rw (any-contains ps pid) refl

reentry_at-of :
    (allowlist : List Pubkey) (stack : Stack) (above : Above) (pid : Pubkey) (depth : ℕ)
    → Holds stack above
    → reentry_at allowlist stack pid depth ≡ reentry_of allowlist above pid depth
unfolding reentry_at reentry_of
reentry_at-of allowlist stack above pid depth holds =
    elim (Bool-cases (any (λ allowed. nat_eq allowed pid) allowlist)) [
      | inl allowed ↦ elim (Option-cases (outermost pid above)) [
        | inl closed ↦ rw (reentry_at, reentry_of, any-contains allowlist pid, allowed, closed) refl
        | inr (outer, opened) ↦
            rw (reentry_at, reentry_of, any-contains allowlist pid, opened, allowed) refl
      ]
      | inr barred ↦ elim (Option-cases (outermost pid above)) [
        | inl closed ↦
            rw (reentry_at, reentry_of, any-contains allowlist pid, barred, holds pid, closed) refl
        | inr (outer, opened) ↦
            rw
              (
                reentry_at,
                reentry_of,
                any-contains allowlist pid,
                barred,
                holds pid,
                opened,
                barred,
              )
              refl
      ]
    ]

-- The walker on the events of a call, with more events behind them.
mutual
  unfolding events_of first_reentry detect_from

  detect_from-call :
      (allowlist : List Pubkey) (stack : Stack) (above : Above) (c : Call) (rest : List CpiEvent)
      → Holds stack above
      → detect_from allowlist stack (events_of c ++ rest)
        ≡ or_else (first_reentry allowlist above c) (detect_from allowlist stack rest)
  detect_from-call allowlist stack above (call pid depth fails inner) rest holds =
      let inside = push stack (pid, depth) in
      ap
        (λ r. or_else r (
          detect_from allowlist inside ((events_of_all inner ++ (closing fails pid ∷ [])) ++ rest)))
        (reentry_at-of allowlist stack above pid depth holds)
      ∙ ap (or_else (reentry_of allowlist above pid depth)) (
          ap (detect_from allowlist inside)
            (append_assoc (events_of_all inner) (closing fails pid ∷ []) rest)
          ∙ detect_from-calls allowlist inside ((pid, depth) ∷ above) inner
              (closing fails pid ∷ rest) (Holds-push stack above pid depth holds)
          ∙ ap (or_else (first_reentry_all allowlist ((pid, depth) ∷ above) inner)) (
              detect_from-closing allowlist inside fails pid rest
              ∙ ap (λ s. detect_from allowlist s rest) (pop-push stack (pid, depth))))
      ∙ sym (or_else_assoc (reentry_of allowlist above pid depth) _ _)

  detect_from-calls :
      (allowlist : List Pubkey) (stack : Stack) (above : Above) (cs : Calls) (rest : List CpiEvent)
      → Holds stack above
      → detect_from allowlist stack (events_of_all cs ++ rest)
        ≡ or_else (first_reentry_all allowlist above cs) (detect_from allowlist stack rest)
  detect_from-calls allowlist stack above done rest holds = refl
  detect_from-calls allowlist stack above (next c cs) rest holds =
      rw (append_assoc (events_of c) (events_of_all cs) rest) (
        detect_from-call allowlist stack above c (events_of_all cs ++ rest) holds
        ∙ ap (or_else (first_reentry allowlist above c))
            (detect_from-calls allowlist stack above cs rest holds)
        ∙ sym (or_else_assoc (first_reentry allowlist above c) _ _))

or_else-none {ℓ} : {A : Type ℓ} (a : Option A) → or_else a none ≡ a
or_else-none none = refl
or_else-none (some a) = refl

-- On the events of a transaction whose calls form the forest `cs`, `detect_reentry` returns exactly
-- the first call, in call order, of a program outside the allowlist that has an open call above it,
-- with the depths of the outermost such call and of its own.
pub detect_reentry-calls :
    (allowlist : List Pubkey) (cs : Calls)
    → detect_reentry (events_of_all cs) allowlist ≡ first_reentry_all allowlist [] cs
unfolding detect_reentry detect_from find_open outermost
detect_reentry-calls allowlist cs =
    ap (detect_from allowlist []) (sym (append-nil (events_of_all cs)))
    ∙ detect_from-calls allowlist [] [] cs [] (λ pid. refl)
    ∙ or_else-none _
