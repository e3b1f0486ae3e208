-- ===== src/Core/UncheckedMath.antt =====
-- crates/solinv-core/src/invariants/unchecked_math.rs: state invariants checked across a send.
pub mod Rules
pub mod Run
use solinv.Base.{
  ltb, if◌then◌else◌, ◌>>=◌, length, get_elem?, u128_mod, checked_add, abs_diff, Text, codes, ℕ,
  ◌+◌, ◌%◌, Bool, false, not, ◌||◌, Option, none, some, List, [], ◌∷◌, ◌++◌, map,
}
use solinv.Solana.{Pubkey}
use solinv.Fuzz.Relation
use solinv.Fuzz.Relation.{
  RelTerm, field, const, RelOp, holds, MonotonicDir, non_decreasing, non_increasing,
  StateInvariantKind, sum_conservation, monotonic, bounded, relation, StateInvariant,
}
use solinv.Fuzz.Capability.{InstructionSpec, to_instruction}
use solinv.Fuzz.Coverage.{fingerprint_key, unobserved}
use solinv.Core.Runtime.{Runtime}
use solinv.Core.Harness.{read_field_widened, signer_refs, is_success, save_accounts}
use solinv.Core.Process.{
  Breach, drifted, moved, out_of_bounds, broken, unchecked_math, Process, fuzz_assert,
  record_transition_fingerprint, warn_declaration_once, send_ix, restore, record_ix_reached,
}

-- `iter().sum::<u128>()`, as the release profile computes it.
unfoldable pub wrapping_sum : List ℕ → ℕ
wrapping_sum [] = 0
wrapping_sum (v ∷ vs) = (v + wrapping_sum vs) % u128_mod

unfoldable pub field_geom : StateInvariantKind → Option (ℕ × ℕ)
field_geom (sum_conservation offset size tolerance) = some (offset, size)
field_geom (monotonic offset size direction) = some (offset, size)
field_geom (bounded offset size min max) = some (offset, size)
field_geom (relation lhs op rhs tolerance) = none

unfoldable pub relation_held_pre : StateInvariantKind → List ℕ → Option Bool
relation_held_pre (relation l op r tolerance) (lhs ∷ rhs ∷ rest) =
    some (Relation.holds op lhs rhs tolerance)
relation_held_pre _ _ = none

-- The first account whose value went the wrong way.
unfoldable pub check_monotonic : MonotonicDir → ℕ → List ℕ → List ℕ → Option Breach
check_monotonic direction i (p ∷ pre) (q ∷ post) =
    let rest = check_monotonic direction (i + 1) pre post in
    if (elim direction [ non_decreasing ↦ ltb q p | non_increasing ↦ ltb p q ])
    then some (moved i direction p q)
    else rest
check_monotonic direction i _ _ = none

unfoldable pub check_bounded : ℕ → ℕ → ℕ → List ℕ → Option Breach
check_bounded min max i [] = none
check_bounded min max i (q ∷ post) =
    let rest = check_bounded min max (i + 1) post in
    if ltb q min || ltb max q then some (out_of_bounds i min max q) else rest

-- `pre` and `post` are the two sums of each side.
unfoldable pub check_relation :
    List RelTerm → RelOp → List RelTerm → ℕ → List ℕ → List ℕ → Option Breach
check_relation lhs op rhs tolerance (lp ∷ rp ∷ _) (lq ∷ rq ∷ _) =
    if not (Relation.holds op lp rp tolerance)
    then none
    else if Relation.holds op lq rq tolerance
    then none
    else some (broken (length lhs) op (length rhs) tolerance lp rp lq rq)
check_relation lhs op rhs tolerance _ _ = none

unfoldable pub check_kind : StateInvariantKind → List ℕ → List ℕ → Option Breach
unfolding wrapping_sum check_monotonic check_bounded check_relation
check_kind (sum_conservation offset size tolerance) pre post =
    let pre_sum = wrapping_sum pre in
    let post_sum = wrapping_sum post in
    let drift = abs_diff pre_sum post_sum in
    if ltb tolerance drift then some (drifted drift pre_sum post_sum tolerance) else none
check_kind (monotonic offset size direction) pre post = check_monotonic direction 0 pre post
check_kind (bounded offset size min max) pre post = check_bounded min max 0 post
check_kind (relation lhs op rhs tolerance) pre post = check_relation lhs op rhs tolerance pre post

module _ (rt : Runtime) where
  open rt use {Ctx, get_account, show_key}

  -- A field of the account at an index of the instruction's list.
  unfoldable pub read_account_field : Ctx → InstructionSpec → ℕ → ℕ → ℕ → Option ℕ
  read_account_field ctx spec account offset size = do
    meta ← get_elem? spec.accounts account
    acct ← get_account ctx meta.pubkey
    read_field_widened acct.contents offset size

  unfoldable pub term_value : Ctx → InstructionSpec → RelTerm → Option ℕ
  unfolding read_account_field
  term_value ctx spec (RelTerm.const c) = some c
  term_value ctx spec (RelTerm.field account offset size) =
      read_account_field ctx spec account offset size

  -- `sum_terms` from the accumulator `acc` on.
  unfoldable pub sum_terms_from : Ctx → InstructionSpec → ℕ → List RelTerm → Option ℕ
  unfolding term_value
  sum_terms_from ctx spec acc [] = some acc
  sum_terms_from ctx spec acc (term ∷ terms) = term_value ctx spec term >>= λ v.
      checked_add u128_mod acc v >>= λ acc'. sum_terms_from ctx spec acc' terms

  unfoldable pub sum_terms : Ctx → InstructionSpec → List RelTerm → Option ℕ
  unfolding sum_terms_from
  sum_terms ctx spec terms = sum_terms_from ctx spec 0 terms

  unfoldable pub read_values : Ctx → InstructionSpec → ℕ → ℕ → List ℕ → Option (List ℕ)
  unfolding read_account_field
  read_values ctx spec offset size [] = some []
  read_values ctx spec offset size (account ∷ accounts) =
      read_account_field ctx spec account offset size >>= λ v.
      read_values ctx spec offset size accounts >>= λ vs. some (v ∷ vs)

  unfoldable pub read_uniform : Ctx → InstructionSpec → StateInvariant → Option (List ℕ)
  unfolding field_geom read_values
  read_uniform ctx spec inv = do
    geom ← field_geom inv.kind
    read_values ctx spec geom.0 geom.1 inv.accounts

  unfoldable pub read_image : Ctx → InstructionSpec → StateInvariant → Option (List ℕ)
  unfolding sum_terms read_uniform
  read_image ctx spec inv = elim inv.kind [
    | relation lhs op rhs tolerance ↦ (do
      l ← sum_terms ctx spec lhs
      r ← sum_terms ctx spec rhs
      some (l ∷ r ∷ []))
    | _ ↦ read_uniform ctx spec inv
  ]

  unfoldable pub unreadable_key : InstructionSpec → StateInvariant → Text → Text
  unreadable_key spec inv phase =
      codes "unreadable:"
      ++ (show_key spec.program_id
          ++ (codes ":" ++ (spec.name ++ (codes ":" ++ (inv.name ++ (codes ":" ++ phase))))))

  unfoldable pub relation_pre_key : InstructionSpec → StateInvariant → Text
  relation_pre_key spec inv =
      codes "relation-pre:"
      ++ (show_key spec.program_id ++ (codes ":" ++ (spec.name ++ (codes ":" ++ inv.name))))

  -- The image after the send, compared with the one before it.
  unfoldable pub judge :
      InstructionSpec → StateInvariant → List ℕ → Option (List ℕ) → Process Ctx → Process Ctx
  unfolding check_kind fuzz_assert warn_declaration_once unreadable_key
  judge spec inv pre none p = warn_declaration_once (unreadable_key spec inv (codes "post-state")) p
  judge spec inv pre (some post) p = elim (check_kind inv.kind pre post) [
    | none ↦ p
    | some detail ↦ fuzz_assert false (unchecked_math spec.program_id spec.name inv.name detail) p
  ]

  unfoldable pub warn_not_held :
      InstructionSpec → StateInvariant → List ℕ → Process Ctx → Process Ctx
  unfolding relation_held_pre warn_declaration_once relation_pre_key
  warn_not_held spec inv pre p = elim (relation_held_pre inv.kind pre) [
    | none ↦ p
    | some held ↦ if held then p else warn_declaration_once (relation_pre_key spec inv) p
  ]

  -- From the image before the send on.
  unfoldable pub send_and_judge :
      Pubkey → InstructionSpec → StateInvariant → List ℕ → Process Ctx → Process Ctx
  unfolding send_ix warn_not_held record_ix_reached record_transition_fingerprint judge
  send_and_judge payer spec inv pre p =
      let (result, sent) =
        send_ix rt (to_instruction spec) payer (signer_refs payer spec.signers) p in
      let warned = warn_not_held spec inv pre sent in
      if is_success result
      then judge spec inv pre (read_image sent.ctx spec inv) (
          record_transition_fingerprint (fingerprint_key show_key spec unobserved)
            (record_ix_reached rt spec warned))
      else warned

  unfoldable pub run_attempt : Pubkey → InstructionSpec → StateInvariant → Process Ctx → Process Ctx
  unfolding send_and_judge restore warn_declaration_once unreadable_key
  run_attempt payer spec inv p =
      let saves = save_accounts rt p.ctx (map (λ m. m.pubkey) spec.accounts) in
      restore rt saves (elim (read_image p.ctx spec inv) [
        | none ↦ warn_declaration_once (unreadable_key spec inv (codes "pre-state")) p
        | some pre ↦ send_and_judge payer spec inv pre p
      ])

  unfoldable pub check_invariants :
      Pubkey → InstructionSpec → List StateInvariant → Process Ctx → Process Ctx
  unfolding run_attempt
  check_invariants payer spec [] p = p
  check_invariants payer spec (inv ∷ invs) p =
      check_invariants payer spec invs (run_attempt payer spec inv p)

  unfoldable pub check : Pubkey → List InstructionSpec → Process Ctx → Process Ctx
  unfolding check_invariants
  check payer [] p = p
  check payer (spec ∷ ixs) p = check payer ixs (check_invariants payer spec spec.state_invariants p)
