-- ===== src/Core/Process.antt =====
-- The state that the detectors share in one process: the fixture's context, the reachability ledger
-- (crates/solinv-core/src/invariants/reachability.rs), the transition fingerprints and declaration
-- warnings (util.rs), and the violations that `fuzz_assert!` has recorded.
pub mod Restored
pub mod Reports
pub mod Change
use solinv.Base.{nat_eq, if◌then◌else◌, Bytes, Text, ℕ, Bool, not, ◌&&◌, Option, List, ◌∷◌, map}
use solinv.Solana.{Pubkey, Account, Instruction, TxOutcome}
use solinv.Fuzz.Capability.{InstructionSpec, to_instruction}
use solinv.Core.Runtime.{Runtime}
use solinv.Fuzz.Guard.{GuardOp}
use solinv.Fuzz.Relation.{RelOp, holds, MonotonicDir}
use solinv.Core.Harness.{signer_refs, is_success, insert_key, restore_accounts, reached_key}

-- What `check_kind` of unchecked_math.rs prints, as its parts.
pub data Breach : Type 0 where
  -- drift, sum before, sum after, tolerance
  drifted : ℕ → ℕ → ℕ → ℕ → Breach
  -- account, direction, value before, value after
  moved : ℕ → MonotonicDir → ℕ → ℕ → Breach
  -- account, min, max, value
  out_of_bounds : ℕ → ℕ → ℕ → ℕ → Breach
  -- terms on the left, operator, terms on the right, tolerance, both sums before and after
  broken : ℕ → RelOp → ℕ → ℕ → ℕ → ℕ → ℕ → ℕ → Breach

-- Why account_swap.rs cannot run a set of swaps, with the index that the message names.
pub data Refusal : Type 0 where
  no_swaps no_instruction : Refusal
  out_of_range swapped_twice same_account : ℕ → Refusal
  missing_alternate : ℕ → Pubkey → Refusal

-- The message of each `fuzz_assert!`, as its parts in the order of the source. The first is the
-- program that the message names.
pub data Violation : Type 0 where
  unchecked_math : Pubkey → Text → Text → Breach → Violation
  cu_dos : Pubkey → Text → ℕ → ℕ → Violation
  cpi_reentrancy : Pubkey → Pubkey → ℕ → ℕ → Text → Violation
  realloc_rejected : Pubkey → Text → Text → Violation
  realloc_shortfall : Pubkey → Pubkey → ℕ → ℕ → ℕ → ℕ → ℕ → Text → Violation
  precondition_skip : Pubkey → Text → Text → ℕ → GuardOp → ℕ → Violation
  signer_skip : Pubkey → Text → ℕ → Pubkey → ℕ → ℕ → Violation
  owner_skip : Pubkey → Text → ℕ → Pubkey → Pubkey → Pubkey → Pubkey → Violation
  discriminator_skip : Pubkey → Text → ℕ → Bytes → Bytes → Pubkey → Pubkey → Violation
  pda_forge : Pubkey → Text → ℕ → Pubkey → Pubkey → ℕ → Violation
  account_swap : Pubkey → Text → List (ℕ × Pubkey) → Violation
  account_swap_config : Text → Refusal → Violation
  bump_seed_canonicalization : Pubkey → ℕ → Pubkey → Pubkey → Text → Violation

pub record Process (Ctx : Type 0) : Type 0 where
  pub ctx : Ctx
  pub reached : List Text
  pub fingerprints : List Text
  pub warnings : List Text
  pub violations : List Violation

module _ {Ctx : Type 0} where
  -- A failing assertion records its message, and the detector goes on.
  unfoldable pub fuzz_assert : Bool → Violation → Process Ctx → Process Ctx
  fuzz_assert holds v p = if holds then p else record p { violations = v ∷ p.violations }

  unfoldable pub with_ctx : Ctx → Process Ctx → Process Ctx
  with_ctx c p = record p { ctx = c }

  unfoldable pub record_reached : Text → Process Ctx → Process Ctx
  unfolding insert_key
  record_reached key p = record p { reached = (insert_key key p.reached).1 }

  unfoldable pub record_transition_fingerprint : Text → Process Ctx → Process Ctx
  unfolding insert_key
  record_transition_fingerprint key p = record p {
    fingerprints = (insert_key key p.fingerprints).1;
  }

  -- The line on stderr is left out; the set of keys that have been warned of is kept.
  unfoldable pub warn_declaration_once : Text → Process Ctx → Process Ctx
  unfolding insert_key
  warn_declaration_once key p = record p { warnings = (insert_key key p.warnings).1 }

abbrev pub account_keys : InstructionSpec → List Pubkey
account_keys spec = map (λ m. m.pubkey) spec.accounts

module _ (rt : Runtime) where
  open rt use {Ctx, send}

  -- What the runtime makes of the canonical instruction.
  abbrev pub canonical_send : Pubkey → InstructionSpec → Ctx → Option TxOutcome × Ctx
  canonical_send payer spec ctx =
      send ctx (to_instruction spec) payer (signer_refs payer spec.signers)

  -- `raw_call(ix).fee_payer(..).signers(..).send()`.
  unfoldable pub send_ix :
      Instruction → Pubkey → List Pubkey → Process Ctx → Option TxOutcome × Process Ctx
  unfolding with_ctx
  send_ix ix payer keys p = let (result, c) = send p.ctx ix payer keys in (result, with_ctx c p)

  unfoldable pub restore : List (Pubkey × Account) → Process Ctx → Process Ctx
  unfolding with_ctx
  restore saves p = with_ctx (restore_accounts rt p.ctx saves) p

  unfoldable pub record_ix_reached : InstructionSpec → Process Ctx → Process Ctx
  unfolding record_reached
  record_ix_reached spec p = record_reached (reached_key rt spec.program_id spec.name) p

  -- The canonical instruction, signed as the source signs it.
  unfoldable pub send_canonical :
      Pubkey → InstructionSpec → Process Ctx → Option TxOutcome × Process Ctx
  unfolding send_ix
  send_canonical payer spec p =
      send_ix (to_instruction spec) payer (signer_refs payer spec.signers) p

-- `fuzz_assert!(!(succeeded && state_changed), ..)`, on the hashes before and after the send.
unfoldable pub judge_change :
    {Ctx : Type 0} → Option TxOutcome → ℕ → ℕ → Violation → Process Ctx → Process Ctx
unfolding fuzz_assert
judge_change result pre_hash post_hash v p =
    fuzz_assert (not (is_success result && not (nat_eq pre_hash post_hash))) v p
