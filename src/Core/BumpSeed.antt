-- ===== src/Core/BumpSeed.antt =====
-- crates/solinv-core/src/invariants/bump_seed_canonicalization.rs: a derived account replaced by the
-- one of another bump. An index outside the accounts panics, which is `none` here.
pub mod Search
use solinv.Base.{
  nat_eq, if◌then◌else◌, ◌>>=◌, get_elem?, modify, contains, Bytes, ℕ, zero, suc, ◌+◌, Bool, false,
  not, Option, none, some, List, [], ◌∷◌, ◌++◌, ℕ_eq, list_eq, option_eq,
}
use solinv.Solana.{Pubkey, Instruction}
use solinv.Fuzz.Capability.{BumpSeedCheckConfig, InstructionSpec, to_instruction}
use solinv.Core.Runtime.{Runtime}
use solinv.Core.Harness.{signer_refs, is_success, cleanup_temp_account}
use solinv.Core.Process.{bump_seed_canonicalization, Process, fuzz_assert, with_ctx, send_ix}

module _ (rt : Runtime) where
  open rt use {Ctx, get_account, write_account, find_program_address, create_program_address}

  -- The loop over the bumps below `b`, the highest first.
  unfoldable pub search_below : List Bytes → Pubkey → Pubkey → ℕ → Option (ℕ × Pubkey)
  search_below seeds program_id canonical_pda zero = none
  search_below seeds program_id canonical_pda (suc b) =
      let rest = search_below seeds program_id canonical_pda b in
      elim (create_program_address (seeds ++ ((b ∷ []) ∷ [])) program_id) [
        | none ↦ rest
        | some alt_pda ↦ if not (nat_eq alt_pda canonical_pda) then some (b, alt_pda) else rest
      ]

  unfoldable pub find_alt_canonical_pda : List Bytes → Pubkey → Option (ℕ × Pubkey)
  unfolding search_below
  find_alt_canonical_pda seeds program_id =
      let (canonical_pda, canonical_bump) = find_program_address seeds program_id in
      search_below seeds program_id canonical_pda canonical_bump

  -- The instruction with the other address, and the other bump where the spec says it stands.
  unfoldable pub patch_ix : InstructionSpec → BumpSeedCheckConfig → ℕ → ℕ → Pubkey → Instruction
  unfolding to_instruction
  patch_ix spec cfg idx alt_bump alt_pda =
      let ix = to_instruction spec in
      record ix {
        accounts = modify ix.accounts idx λ m. record m { pubkey = alt_pda };
        payload = elim cfg.bump_data_offset [
          | none ↦ ix.payload
          | some offset ↦ modify ix.payload offset λ _. alt_bump
        ];
      }

  -- The body of the loop once an address is found, and whether the detector returns.
  unfoldable pub try_alt :
      Pubkey
      → InstructionSpec
      → BumpSeedCheckConfig
      → ℕ
      → ℕ
      → Pubkey
      → Pubkey
      → Process Ctx
      → Bool × Process Ctx
  unfolding patch_ix send_ix fuzz_assert cleanup_temp_account with_ctx
  try_alt payer spec cfg idx alt_bump alt_pda canonical_pk p =
      elim (get_account p.ctx canonical_pk) [
        | none ↦ (false, p)
        | some canonical_acc ↦ elim (write_account p.ctx alt_pda canonical_acc) [
          | none ↦ (false, p)
          | some c ↦
              let (result, sent) =
                send_ix rt (patch_ix spec cfg idx alt_bump alt_pda) payer
                  (signer_refs payer spec.signers) (with_ctx c p) in
              let judged =
                fuzz_assert (not (is_success result))
                  (bump_seed_canonicalization spec.program_id alt_bump alt_pda canonical_pk
                    spec.name)
                  sent in
              (is_success result, with_ctx (cleanup_temp_account rt judged.ctx alt_pda) judged)
        ]
      ]

  unfoldable pub run_slots :
      Pubkey
      → InstructionSpec
      → BumpSeedCheckConfig
      → ℕ
      → List (Option (List Bytes))
      → Process Ctx
      → Option (Process Ctx)
  unfolding find_alt_canonical_pda try_alt
  run_slots payer spec cfg idx [] p = some p
  run_slots payer spec cfg idx (none ∷ rest) p = run_slots payer spec cfg (idx + 1) rest p
  run_slots payer spec cfg idx (some seeds ∷ rest) p =
      let skip = run_slots payer spec cfg (idx + 1) rest p in
      let continue : Process Ctx → Option (Process Ctx) =
        λ q. run_slots payer spec cfg (idx + 1) rest q in
      if contains spec.creates_indices idx
      then skip
      else elim (find_alt_canonical_pda seeds spec.program_id) [
        | none ↦ skip
        | some (alt_bump, alt_pda) ↦ elim (get_elem? spec.accounts idx) [
          | none ↦ none
          | some m ↦
              let (stop, q) = try_alt payer spec cfg idx alt_bump alt_pda m.pubkey p in
              if stop then some q else continue q
        ]
      ]

  unfoldable pub check : Pubkey → List InstructionSpec → Process Ctx → Option (Process Ctx)
  unfolding run_slots
  check payer [] p = some p
  check payer (spec ∷ ixs) p =
      let skip = check payer ixs p in
      elim spec.bump_seed_check [
        | none ↦ skip
        | some cfg ↦ run_slots payer spec cfg 0 spec.expected_pda_seeds p >>= λ q. check payer ixs q
      ]
