-- ===== src/Core/CpiReentrancy/Calls.antt =====
-- Transactions as trees of calls: the events of one, and what a re-entry is in it, as the
-- specification of `detect_reentry` and `parse_cpi_events` in cpi_reentrancy.rs.
pub mod Detects
pub mod Nested
pub mod Logged
use solinv.Base.{
  nat_eq, if◌then◌else◌, or_else, any, contains, ℕ, ◌≡◌, Bool, true, false, Option, none, some,
  List, [], ◌∷◌, ◌++◌, ℕ_eq, list_eq, option_eq,
}
use solinv.Solana.{Pubkey}
use solinv.Core.CpiReentrancy.{CpiEvent, invoke, succeeded, failed, Reentry}

mutual
  -- A program called at a depth, whether it failed, and the calls that it made.
  pub data Call : Type 0 where
    call : Pubkey → ℕ → Bool → Calls → Call

  pub data Calls : Type 0 where
    done : Calls
    next : Call → Calls → Calls

abbrev pub closing : Bool → Pubkey → CpiEvent
closing true pid = failed pid
closing false pid = succeeded pid

unfoldable mutual
  pub events_of : Call → List CpiEvent
  events_of (call pid depth fails inner) =
      invoke pid depth ∷ (events_of_all inner ++ (closing fails pid ∷ []))

  pub events_of_all : Calls → List CpiEvent
  events_of_all done = []
  events_of_all (next c cs) = events_of c ++ events_of_all cs

-- The open calls above a call, the innermost first.
abbrev pub Above : Type 0
Above = List (Pubkey × ℕ)

-- The depth of the outermost open call of a program.
unfoldable pub outermost : Pubkey → Above → Option ℕ
outermost pid [] = none
outermost pid ((p, depth) ∷ above) =
    or_else (outermost pid above) (if nat_eq p pid then some depth else none)

-- A call is a re-entry if its program is open above it and is none of the allowed ones.
unfoldable pub reentry_of : List Pubkey → Above → Pubkey → ℕ → Option Reentry
reentry_of allowlist above pid depth = elim (outermost pid above) [
  | none ↦ none
  | some outer ↦
      if any (λ allowed. nat_eq allowed pid) allowlist
      then none
      else some (record { pid = pid; outer_depth = outer; inner_depth = depth })
]

-- The first call, in the order of the log, that is a re-entry.
unfoldable mutual
  pub first_reentry : List Pubkey → Above → Call → Option Reentry
  first_reentry allowlist above (call pid depth fails inner) =
      or_else (reentry_of allowlist above pid depth)
        (first_reentry_all allowlist ((pid, depth) ∷ above) inner)

  pub first_reentry_all : List Pubkey → Above → Calls → Option Reentry
  first_reentry_all allowlist above done = none
  first_reentry_all allowlist above (next c cs) =
      or_else (first_reentry allowlist above c) (first_reentry_all allowlist above cs)

-- No program is called below itself: `above` are the programs that are open.
abbrev mutual
  pub NeverNested : List Pubkey → Call → Type 0
  NeverNested above (call pid depth fails inner) =
      (contains above pid ≡ false) × NeverNestedAll (pid ∷ above) inner

  pub NeverNestedAll : List Pubkey → Calls → Type 0
  NeverNestedAll above done = Unit
  NeverNestedAll above (next c cs) = NeverNested above c × NeverNestedAll above cs
