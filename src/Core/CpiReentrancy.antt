-- ===== src/Core/CpiReentrancy.antt =====
-- crates/solinv-core/src/invariants/cpi_reentrancy.rs: runtime log lines as events, and the search for
-- a program that is called while it is still open.
pub mod Calls
use solinv.Base.{
  nat_eq, if◌then◌else◌, or_else, ◌>>=◌, ◌==◌, contains, Text, codes, trim, strip_prefix,
  starts_with, strip_last, split_once, parse_unsigned, ℕ, ◌^◌, false, Option, none, some, List, [],
  ◌∷◌, ◌++◌, ℕ_eq, list_eq, option_eq,
}
use solinv.Solana.{Pubkey, TxOutcome, success, program_error}
use solinv.Fuzz.Capability.{InstructionSpec}
use solinv.Core.Runtime.{Runtime}
use solinv.Core.Harness.{is_success, save_accounts}
use solinv.Core.Process.{
  cpi_reentrancy, Process, fuzz_assert, account_keys, restore, record_ix_reached, send_canonical,
}

pub data CpiEvent : Type 0 where
  invoke : Pubkey → ℕ → CpiEvent
  succeeded failed : Pubkey → CpiEvent

pub record Reentry : Type 0 where
  pub pid : Pubkey
  pub outer_depth : ℕ
  pub inner_depth : ℕ

abbrev pub u32_mod : ℕ
u32_mod = 2 ^ 32

-- The depth of `invoke [<depth>]`, behind its bracket.
unfoldable pub parse_depth : Text → Option ℕ
parse_depth depth_str = strip_last b']' depth_str >>= parse_unsigned u32_mod

unfoldable pub parse_verb : Pubkey → Text → Option CpiEvent
unfolding parse_depth
parse_verb pid tail = elim (strip_prefix (codes "invoke [") tail) [
  | some depth_str ↦ parse_depth depth_str >>= λ depth. some (invoke pid depth)
  | none ↦
      if tail == codes "success"
      then some (succeeded pid)
      else if starts_with (codes "failed") tail
      then some (failed pid)
      else none
]

-- `parse_key` is `parse::<Pubkey>`.
unfoldable pub parse_line : (Text → Option Pubkey) → Text → Option CpiEvent
unfolding parse_verb
parse_line parse_key line = do
  rest ← strip_prefix (codes "Program ") (trim line)
  parts ← split_once b' ' rest
  pid ← parse_key parts.0
  parse_verb pid parts.1

-- A line that is no event is skipped.
unfoldable pub parse_cpi_events : (Text → Option Pubkey) → List Text → List CpiEvent
unfolding parse_line
parse_cpi_events parse_key [] = []
parse_cpi_events parse_key (line ∷ logs) =
    let rest = parse_cpi_events parse_key logs in
    elim (parse_line parse_key line) [ none ↦ rest | some e ↦ e ∷ rest ]

abbrev pub Stack : Type 0
Stack = List (Pubkey × ℕ)

-- `Vec::pop`; nothing happens on an empty stack.
abbrev pub pop {ℓ} : {A : Type ℓ} → List A → List A
pop [] = []
pop (x ∷ []) = []
pop (x ∷ y ∷ s) = x ∷ pop (y ∷ s)

abbrev pub push {ℓ} : {A : Type ℓ} → List A → A → List A
push s x = s ++ (x ∷ [])

-- The depth at which the outermost open frame of a program stands.
unfoldable pub find_open : Pubkey → Stack → Option ℕ
find_open pid [] = none
find_open pid ((p, depth) ∷ s) = if nat_eq p pid then some depth else find_open pid s

-- An invocation against the open frames.
unfoldable pub reentry_at : List Pubkey → Stack → Pubkey → ℕ → Option Reentry
unfolding find_open
reentry_at allowlist stack pid depth =
    if contains allowlist pid
    then none
    else find_open pid stack >>= λ outer.
        some (record { pid = pid; outer_depth = outer; inner_depth = depth })

unfoldable pub detect_from : List Pubkey → Stack → List CpiEvent → Option Reentry
unfolding reentry_at
detect_from allowlist stack [] = none
detect_from allowlist stack (invoke pid depth ∷ events) =
    or_else (reentry_at allowlist stack pid depth)
      (detect_from allowlist (push stack (pid, depth)) events)
detect_from allowlist stack (succeeded pid ∷ events) = detect_from allowlist (pop stack) events
detect_from allowlist stack (failed pid ∷ events) = detect_from allowlist (pop stack) events

unfoldable pub detect_reentry : List CpiEvent → List Pubkey → Option Reentry
unfolding detect_from
detect_reentry events allowlist = detect_from allowlist [] events

abbrev pub logs_of : TxOutcome → List Text
logs_of (success logs units) = logs
logs_of (program_error logs error code) = logs

module _ (rt : Runtime) where
  open rt use {Ctx, parse_key}

  -- The logs of an outcome, accepted or not.
  unfoldable pub judge :
      InstructionSpec → List Pubkey → Option TxOutcome → Process Ctx → Process Ctx
  unfolding detect_reentry parse_cpi_events record_ix_reached fuzz_assert
  judge spec allowlist none p = p
  judge spec allowlist (some outcome) p =
      let marked = if is_success (some outcome) then record_ix_reached rt spec p else p in
      elim (detect_reentry (parse_cpi_events parse_key (logs_of outcome)) allowlist) [
        | none ↦ marked
        | some r ↦
            fuzz_assert false
              (cpi_reentrancy spec.program_id r.pid r.outer_depth r.inner_depth spec.name) marked
      ]

  unfoldable pub run_attempt : Pubkey → InstructionSpec → Process Ctx → Process Ctx
  unfolding judge restore send_canonical
  run_attempt payer spec p =
      let saves = save_accounts rt p.ctx (account_keys spec) in
      let (result, sent) = send_canonical rt payer spec p in
      let allowlist : List Pubkey = elim spec.cpi_reentrancy [
        | none ↦ []
        | some cfg ↦ cfg.allowlist
      ] in
      restore rt saves (judge spec allowlist result sent)

  unfoldable pub check : Pubkey → List InstructionSpec → Process Ctx → Process Ctx
  unfolding run_attempt
  check payer [] p = p
  check payer (spec ∷ ixs) p =
      check payer ixs (elim spec.cpi_reentrancy [ none ↦ p | some cfg ↦ run_attempt payer spec p ])
