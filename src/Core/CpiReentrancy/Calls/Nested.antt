-- ===== src/Core/CpiReentrancy/Calls/Nested.antt =====
-- `detect_reentry` of cpi_reentrancy.rs without an allowlist, against calls that never nest a program.
use solinv.Base.{
  nat_eq, if◌then◌else◌, Option-cases, or_else, contains, ℕ, ◌≡◌, ◌↔◌, inl, inr, false, Option,
  none, some, List, [], ◌∷◌, arith, ℕ_eq, list_eq, option_eq,
}
use solinv.Solana.{Pubkey}
use solinv.Core.CpiReentrancy.{detect_reentry}
use solinv.Core.CpiReentrancy.Calls.{
  Call, call, Calls, done, next, events_of_all, Above, outermost, reentry_of, first_reentry,
  first_reentry_all, NeverNested, NeverNestedAll,
}
use solinv.Core.CpiReentrancy.Calls.Detects.{detect_reentry-calls}

or_else-none_iff {ℓ} :
    {A : Type ℓ} (a b : Option A) → (or_else a b ≡ none) ↔ ((a ≡ none) × (b ≡ none))
or_else-none_iff none b = ground arith
or_else-none_iff (some a) b = ground arith

-- The open calls are those of the programs `above`.
abbrev Covers : Above → List Pubkey → Type 0
Covers calls above = (pid : Pubkey) → (outermost pid calls ≡ none) ↔ (contains above pid ≡ false)

Covers-cons :
    (calls : Above) (above : List Pubkey) (pid : Pubkey) (depth : ℕ)
    → Covers calls above
    → Covers ((pid, depth) ∷ calls) (pid ∷ above)
unfolding outermost
Covers-cons calls above pid depth covers other = ground (
  arith,
  covers other,
  or_else-none_iff (outermost other calls) (if nat_eq pid other then some depth else none),
)

reentry_of-none_iff :
    (calls : Above) (pid : Pubkey) (depth : ℕ)
    → (reentry_of [] calls pid depth ≡ none) ↔ (outermost pid calls ≡ none)
unfolding reentry_of
reentry_of-none_iff calls pid depth = elim (Option-cases (outermost pid calls)) [
  | inl closed ↦ rw (reentry_of, closed) (ground arith)
  | inr (d, opened) ↦ rw (reentry_of, opened) (ground arith)
]

mutual
  unfolding first_reentry

  first_reentry-none_iff :
      (calls : Above) (above : List Pubkey) (c : Call)
      → Covers calls above
      → (first_reentry [] calls c ≡ none) ↔ NeverNested above c
  first_reentry-none_iff calls above (call pid depth fails inner) covers =
      let inner_iff =
        first_reentry_all-none_iff ((pid, depth) ∷ calls) (pid ∷ above) inner
          (Covers-cons calls above pid depth covers) in
      ground (
        arith,
        or_else-none_iff (reentry_of [] calls pid depth)
            (first_reentry_all [] ((pid, depth) ∷ calls) inner),
        reentry_of-none_iff calls pid depth,
        covers pid,
        inner_iff,
      )

  first_reentry_all-none_iff :
      (calls : Above) (above : List Pubkey) (cs : Calls)
      → Covers calls above
      → (first_reentry_all [] calls cs ≡ none) ↔ NeverNestedAll above cs
  first_reentry_all-none_iff calls above done covers = ground arith
  first_reentry_all-none_iff calls above (next c cs) covers = ground (
    arith,
    or_else-none_iff (first_reentry [] calls c) (first_reentry_all [] calls cs),
    first_reentry-none_iff calls above c covers,
    first_reentry_all-none_iff calls above cs covers,
  )

-- Without an allowlist, `detect_reentry` finds nothing in the events of a forest of calls exactly
-- when no call of the forest has a call of the same program above it.
pub detect_reentry-never_nested :
    (cs : Calls) → (detect_reentry (events_of_all cs) [] ≡ none) ↔ NeverNestedAll [] cs
unfolding outermost
detect_reentry-never_nested cs =
    rw (detect_reentry-calls [] cs) (first_reentry_all-none_iff [] [] cs λ pid. ground arith)
