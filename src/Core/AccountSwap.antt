-- ===== src/Core/AccountSwap.antt =====
-- crates/solinv-core/src/invariants/account_swap.rs: accounts replaced by real ones of another context.
pub mod Swaps
use solinv.Base.{
  leb, nat_eq, if◌then◌else◌, is_some, ◌>>=◌, ◌==◌, option_equal, length, get_elem?, modify, any,
  find, filter, contains, Text, ℕ, ◌+◌, Bool, false, not, ◌&&◌, Option, none, some, List, [], ◌∷◌,
  ℕ_eq, list_eq, option_eq,
}
use solinv.Solana.{Pubkey, AccountMeta, Instruction}
use solinv.Fuzz.Capability.{InstructionSpec}
use solinv.Core.Runtime.{Runtime}
use solinv.Core.Harness.{save_accounts, hash_accounts, hash_accounts_now}
use solinv.Core.Process.{
  Refusal, no_swaps, no_instruction, out_of_range, swapped_twice, same_account, missing_alternate,
  account_swap, account_swap_config, Process, fuzz_assert, send_ix, restore, judge_change,
}

abbrev pub Swaps : Type 0
Swaps = List (ℕ × Pubkey)

pub record SwapSet : Type 0 where
  pub ix : Text
  pub swaps : Swaps

unfoldable pub find_out_of_range : ℕ → Swaps → Option ℕ
find_out_of_range len [] = none
find_out_of_range len ((idx, alt) ∷ swaps) =
    if leb len idx then some idx else find_out_of_range len swaps

-- `seen` holds the indices of the swaps before.
unfoldable pub find_twice : List ℕ → Swaps → Option ℕ
find_twice seen [] = none
find_twice seen ((idx, alt) ∷ swaps) =
    if contains seen idx then some idx else find_twice (idx ∷ seen) swaps

abbrev pub key_at : List AccountMeta → ℕ → Option Pubkey
key_at accounts idx = get_elem? accounts idx >>= λ m. some m.pubkey

unfoldable pub find_same : List AccountMeta → Swaps → Option ℕ
find_same accounts [] = none
find_same accounts ((idx, alt) ∷ swaps) =
    if option_equal (key_at accounts idx) (some alt) then some idx else find_same accounts swaps

unfoldable pub alt_at : Swaps → ℕ → Option Pubkey
alt_at [] i = none
alt_at ((idx, alt) ∷ swaps) i = if nat_eq idx i then some alt else alt_at swaps i

-- The keys that the attack touches, from index `i` on.
unfoldable pub touched_from : Swaps → ℕ → List AccountMeta → List Pubkey
touched_from swaps i [] = []
touched_from swaps i (m ∷ ms) =
    (elim (alt_at swaps i) [ none ↦ m.pubkey | some alt ↦ alt ]) ∷ touched_from swaps (i + 1) ms

unfoldable pub swap_metas : Swaps → List AccountMeta → List AccountMeta
swap_metas [] metas = metas
swap_metas ((idx, alt) ∷ swaps) metas =
    swap_metas swaps (modify metas idx (λ m. record m { pubkey = alt }))

-- The keys that the changed account list still asks for.
unfoldable pub wanted_keys : Pubkey → List AccountMeta → List Pubkey → List Pubkey
wanted_keys payer metas signers =
    payer
    ∷ filter (λ kp. not (nat_eq kp payer) && any (λ m. m.is_signer && nat_eq m.pubkey kp) metas)
        signers

module _ (rt : Runtime) where
  open rt use {Ctx, get_account}

  abbrev pub exists : Ctx → Pubkey → Bool
  exists ctx pk = is_some (get_account ctx pk)

  unfoldable pub find_missing : Ctx → List AccountMeta → Swaps → Option (ℕ × Pubkey)
  find_missing ctx accounts [] = none
  find_missing ctx accounts ((idx, alt) ∷ swaps) =
      if not (exists ctx alt)
        && (elim (key_at accounts idx) [ none ↦ false | some real ↦ exists ctx real ])
      then some (idx, alt)
      else find_missing ctx accounts swaps

  -- The checks before the attack, in their order.
  unfoldable pub refusal : Ctx → InstructionSpec → Swaps → Option Refusal
  unfolding find_out_of_range find_twice find_same find_missing
  refusal ctx spec [] = some no_swaps
  refusal ctx spec (s ∷ ss) = elim (find_out_of_range (length spec.accounts) (s ∷ ss)) [
    | some idx ↦ some (out_of_range idx)
    | none ↦ elim (find_twice [] (s ∷ ss)) [
      | some idx ↦ some (swapped_twice idx)
      | none ↦ elim (find_same spec.accounts (s ∷ ss)) [
        | some idx ↦ some (same_account idx)
        | none ↦ elim (find_missing ctx spec.accounts (s ∷ ss)) [
          | some (idx, alt) ↦ some (missing_alternate idx alt)
          | none ↦ none
        ]
      ]
    ]
  ]

  unfoldable pub run_swaps : Pubkey → InstructionSpec → Swaps → Process Ctx → Process Ctx
  unfolding touched_from swap_metas wanted_keys alt_at restore send_ix judge_change
  run_swaps payer spec swaps p =
      let touched = touched_from swaps 0 spec.accounts in
      let saves = save_accounts rt p.ctx touched in
      let metas = swap_metas swaps spec.accounts in
      let ix : Instruction = record {
        program_id = spec.program_id;
        accounts = metas;
        payload = spec.data_sample;
      } in
      let (result, sent) = send_ix rt ix payer (wanted_keys payer metas spec.signers) p in
      let post_hash = hash_accounts_now rt sent.ctx touched in
      restore rt saves (
        judge_change result (hash_accounts rt saves) post_hash
          (account_swap spec.program_id spec.name swaps) sent)

  -- `Err` is the refusal; without one the attack runs.
  unfoldable pub run_attempt :
      Pubkey → InstructionSpec → Swaps → Process Ctx → Option Refusal × Process Ctx
  unfolding refusal run_swaps
  run_attempt payer spec swaps p = elim (refusal p.ctx spec swaps) [
    | some why ↦ (some why, p)
    | none ↦ (none, run_swaps payer spec swaps p)
  ]

  unfoldable pub run_alternates :
      Pubkey → InstructionSpec → ℕ → List Pubkey → Process Ctx → Process Ctx
  unfolding run_attempt
  run_alternates payer spec idx [] p = p
  run_alternates payer spec idx (alt ∷ alts) p =
      run_alternates payer spec idx alts (run_attempt payer spec ((idx, alt) ∷ []) p).1

  unfoldable pub run_slots :
      Pubkey → InstructionSpec → ℕ → List (List Pubkey) → Process Ctx → Process Ctx
  unfolding run_alternates
  run_slots payer spec idx [] p = p
  run_slots payer spec idx (alts ∷ rest) p =
      run_slots payer spec (idx + 1) rest (run_alternates payer spec idx alts p)

  unfoldable pub check : Pubkey → List InstructionSpec → Process Ctx → Process Ctx
  unfolding run_slots
  check payer [] p = p
  check payer (spec ∷ ixs) p = check payer ixs (run_slots payer spec 0 spec.swap_alternates p)

  -- `Err` becomes a violation of its own.
  unfoldable pub report_refusal : Text → Option Refusal × Process Ctx → Process Ctx
  unfolding fuzz_assert
  report_refusal ix (none, p) = p
  report_refusal ix (some why, p) = fuzz_assert false (account_swap_config ix why) p

  unfoldable pub check_sets :
      Pubkey → List InstructionSpec → List SwapSet → Process Ctx → Process Ctx
  unfolding report_refusal run_attempt
  check_sets payer ixs [] p = p
  check_sets payer ixs (set ∷ sets) p = check_sets payer ixs sets (
      report_refusal set.ix (elim (find (λ s. s.name == set.ix) ixs) [
        | some spec ↦ run_attempt payer spec set.swaps p
        | none ↦ (some no_instruction, p)
      ]))
