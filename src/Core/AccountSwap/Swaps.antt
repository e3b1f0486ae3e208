-- ===== src/Core/AccountSwap/Swaps.antt =====
-- What a set of swaps of account_swap.rs sends and reports, and that the accounts are put back.
use solinv.Base.{
  nat_eq_iff, Option-cases, length, modify, contains, ℕ, zero, suc, ◌+◌, ◌<◌, ◌≡◌, refl, sym, ap,
  ◌∙◌, ◌↔◌, inl, inr, true, none, List, [], ◌∷◌, map, arith, ℕ_eq, list_eq, option_eq,
}
use solinv.Solana.{Pubkey, AccountMeta}
use solinv.Core.AccountSwap.{
  Swaps, find_out_of_range, find_twice, alt_at, touched_from, swap_metas, wanted_keys, refusal,
  run_swaps, run_attempt,
}
use solinv.Fuzz.Capability.{InstructionSpec}
use solinv.Core.Runtime.{Runtime, StoresAccounts}
use solinv.Core.Recorded.{Sent, recorded, HashesKept, judged-record, judged-reports}
use solinv.Core.Harness.{save_accounts, hash_accounts, hash_accounts_now}
use solinv.Core.Process.{account_swap, Process, with_ctx, send_ix, restore}
use solinv.Core.Process.Restored.{Restored, restore-Restored, Restored-refl}

abbrev keys_of : List AccountMeta → List Pubkey
keys_of = map (λ m. m.pubkey)

indices : Swaps → List ℕ
indices [] = []
indices ((idx, alt) ∷ swaps) = idx ∷ indices swaps

touched_from-nil : (i : ℕ) (ms : List AccountMeta) → touched_from [] i ms ≡ keys_of ms
unfolding touched_from alt_at
touched_from-nil i [] = refl
touched_from-nil i (m ∷ ms) = ap (◌∷◌ m.pubkey) (touched_from-nil (i + 1) ms)

touched_from_past :
    (idx i : ℕ) (alt : Pubkey) (swaps : Swaps) (ms : List AccountMeta)
    → idx < i
    → touched_from ((idx, alt) ∷ swaps) i ms ≡ touched_from swaps i ms
unfolding touched_from alt_at
touched_from_past idx i alt swaps [] h = refl
touched_from_past idx i alt swaps (m ∷ ms) h =
    ground (arith, touched_from_past idx (i + 1) alt swaps ms (omega arith))

touched_from-modify :
    (i k idx : ℕ) (alt : Pubkey) (swaps : Swaps) (ms : List AccountMeta)
    → i + k ≡ idx
    → alt_at swaps idx ≡ none
    → touched_from ((idx, alt) ∷ swaps) i ms
      ≡ touched_from swaps i (modify ms k (λ m. record m { pubkey = alt }))
unfolding touched_from alt_at
touched_from-modify i k idx alt swaps [] e h = refl
touched_from-modify i zero idx alt swaps (m ∷ ms) e h =
    ground (arith, touched_from_past idx (i + 1) alt swaps ms (omega arith))
touched_from-modify i (suc k) idx alt swaps (m ∷ ms) e h =
    ground (arith, touched_from-modify (i + 1) k idx alt swaps ms (omega arith) h)

find_twice-alt_at :
    (seen : List ℕ) (swaps : Swaps) (i : ℕ)
    → find_twice seen swaps ≡ none
    → contains seen i ≡ true
    → alt_at swaps i ≡ none
unfolding find_twice alt_at
find_twice-alt_at seen [] i h m = refl
find_twice-alt_at seen ((idx, alt) ∷ swaps) i h m =
    ground (arith, find_twice-alt_at (idx ∷ seen) swaps i)

swap_metas-touched :
    (seen : List ℕ) (swaps : Swaps) (ms : List AccountMeta)
    → find_twice seen swaps ≡ none
    → keys_of (swap_metas swaps ms) ≡ touched_from swaps 0 ms
unfolding swap_metas find_twice
swap_metas-touched seen [] ms h = sym (touched_from-nil 0 ms)
swap_metas-touched seen ((idx, alt) ∷ swaps) ms h =
    let rest : find_twice (idx ∷ seen) swaps ≡ none = ground arith in
    swap_metas-touched (idx ∷ seen) swaps (modify ms idx (λ m. record m { pubkey = alt })) rest
    ∙ sym (
        touched_from-modify 0 idx idx alt swaps ms (omega arith)
          (find_twice-alt_at (idx ∷ seen) swaps idx rest (ground (arith, nat_eq_iff idx idx))))

module _ (rt : Runtime) where
  open rt use {Ctx}

  refusal-find_twice :
      (ctx : Ctx) (spec : InstructionSpec) (swaps : Swaps)
      → refusal rt ctx spec swaps ≡ none
      → find_twice [] swaps ≡ none
  unfolding refusal
  refusal-find_twice ctx spec [] h = cc
  refusal-find_twice ctx spec (s ∷ ss) h =
      elim (Option-cases (find_out_of_range (length spec.accounts) (s ∷ ss))) [
        | inl e ↦ elim (Option-cases (find_twice [] (s ∷ ss))) [
          | inl e' ↦ e'
          | inr (idx, e') ↦ ground (arith, e, e')
        ]
        | inr (idx, e) ↦ ground (arith, e)
      ]

  -- Whether the set of swaps is refused, or sent and accepted or not, each touched account that was there
  -- reads as before: in a context whose accepted writes are stored, and for an account whose writing back
  -- no context refuses.
  pub account_swap-Restored :
      (laws : StoresAccounts rt) (payer : Pubkey) (spec : InstructionSpec) (swaps : Swaps)
      (p : Process Ctx)
      → Restored rt (touched_from swaps 0 spec.accounts) p (run_attempt rt payer spec swaps p).1
  unfolding run_attempt
  account_swap-Restored laws payer spec swaps p =
      let keys = touched_from swaps 0 spec.accounts in
      elim (Option-cases (refusal rt p.ctx spec swaps)) [
        | inl e ↦ rw (e, run_attempt) (unfold run_swaps in restore-Restored rt laws keys p _)
        | inr (why, e) ↦ rw (e, run_attempt) (Restored-refl rt keys p)
      ]

module _ (rt : Runtime) (payer : Pubkey) (spec : InstructionSpec) (swaps : Swaps)
    (p : Process (recorded rt).Ctx) where
  abbrev swapped : Sent
  swapped =
      let metas = swap_metas swaps spec.accounts in
      (
        record { program_id = spec.program_id; accounts = metas; payload = spec.data_sample },
        wanted_keys payer metas spec.signers,
      )

  run_swaps-record :
      p.ctx.1 ≡ [] → (run_swaps (recorded rt) payer spec swaps p).ctx.1 ≡ swapped ∷ []
  unfolding run_swaps restore send_ix with_ctx
  run_swaps-record fresh =
      let touched = touched_from swaps 0 spec.accounts in
      let sent = send_ix (recorded rt) swapped.0 payer swapped.1 p in
      let saves = save_accounts (recorded rt) p.ctx touched in
      let pre = hash_accounts (recorded rt) saves in
      let post = hash_accounts_now (recorded rt) sent.1.ctx touched in
      judged-record rt saves sent.0 pre post (account_swap spec.program_id spec.name swaps) sent.1
      ∙ ap (◌∷◌ swapped) fresh

  run_swaps-reports :
      ((run_swaps (recorded rt) payer spec swaps p).violations ≡ p.violations)
      ↔ HashesKept rt p.ctx.0 payer (touched_from swaps 0 spec.accounts) swapped
  unfolding run_swaps restore with_ctx hash_accounts_now
  run_swaps-reports =
      judged-reports rt payer (touched_from swaps 0 spec.accounts) swapped
        (account_swap spec.program_id spec.name swaps) p

  -- A set of swaps that is not refused sends one transaction, of the program's instruction with its data,
  -- and the accounts that it names are, in order, those that are put back. The attempt is silent exactly
  -- if the runtime refuses the transaction or those accounts hash the same before and after it.
  pub account_swap-reports :
      refusal (recorded rt) p.ctx spec swaps ≡ none
      → p.ctx.1 ≡ []
      → (sent : Sent) × ((run_attempt (recorded rt) payer spec swaps p).1.ctx.1 ≡ sent ∷ [])
        × (sent.0.program_id ≡ spec.program_id)
        × (sent.0.payload ≡ spec.data_sample)
        × (keys_of sent.0.accounts ≡ touched_from swaps 0 spec.accounts)
        × (((run_attempt (recorded rt) payer spec swaps p).1.violations ≡ p.violations)
            ↔ HashesKept rt p.ctx.0 payer (keys_of sent.0.accounts) sent)
  unfolding run_attempt
  account_swap-reports allowed fresh =
      let keys =
        swap_metas-touched [] swaps spec.accounts
          (refusal-find_twice (recorded rt) p.ctx spec swaps allowed) in
      (
        swapped,
        rw (run_attempt, allowed) (run_swaps-record fresh),
        refl,
        refl,
        keys,
        rw (run_attempt, allowed, keys) run_swaps-reports,
      )
