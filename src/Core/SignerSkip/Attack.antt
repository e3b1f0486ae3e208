-- ===== src/Core/SignerSkip/Attack.antt =====
-- The attack of signer_skip.rs: the key of its slot signs nowhere.
use solinv.Base.{
  nat_eq, nat_eq_iff, Bool-cases, Option-cases, get_elem?, modify, filter, All, contains, ℕ, zero,
  suc, ◌+◌, ◌<◌, ◌≡◌, refl, ap, ◌∙◌, ◌≢◌, ◌↔◌, ◌⊎◌, inl, inr, true, false, not, ◌&&◌, ◌||◌, some,
  List, [], ◌∷◌, arith, ℕ_eq, list_eq, option_eq,
}
use solinv.Solana.{Pubkey, AccountMeta}
use solinv.Fuzz.Capability.{InstructionSpec}
use solinv.Core.Runtime.{Runtime}
use solinv.Core.Process.{signer_skip, Process, with_ctx, account_keys, send_ix, restore}
use solinv.Core.Harness.{save_accounts, hash_accounts, hash_accounts_now}
use solinv.Core.Recorded.{Sent, recorded, HashesKept, judged-record, judged-reports}
use solinv.Core.SignerSkip.{
  signed_elsewhere, drop_signer, attack, attack_keys, run_attack, run_attempt,
}

-- An account entry that asks no signature of the key.
abbrev Unsigned : Pubkey → AccountMeta → Type 0
Unsigned target m = m.pubkey ≡ target → m.is_signer ≡ false

Unsigned-after :
    (i sig_idx : ℕ) (target : Pubkey) (ms : List AccountMeta)
    → sig_idx < i
    → signed_elsewhere i sig_idx target ms ≡ false
    → All (Unsigned target) ms
unfolding signed_elsewhere
Unsigned-after i sig_idx target [] lt h = tt
Unsigned-after i sig_idx target (m ∷ ms) lt h =
    ((λ e. ground arith), Unsigned-after (i + 1) sig_idx target ms (omega arith) (ground arith))

Unsigned-from :
    (i k sig_idx : ℕ) (target : Pubkey) (ms : List AccountMeta)
    → i + k ≡ sig_idx
    → signed_elsewhere i sig_idx target ms ≡ false
    → All (Unsigned target) (modify ms k drop_signer)
unfolding signed_elsewhere
Unsigned-from i k sig_idx target [] e h = tt
Unsigned-from i zero sig_idx target (m ∷ ms) e h =
    ((λ s. refl), Unsigned-after (i + 1) sig_idx target ms (omega arith) (ground arith))
Unsigned-from i (suc k) sig_idx target (m ∷ ms) e h =
    ((λ s. ground arith), Unsigned-from (i + 1) k sig_idx target ms (omega arith) (ground arith))

key_filtered :
    (payer dropped : Pubkey) (signers : List Pubkey)
    → contains (filter (λ kp. not (nat_eq kp payer) && not (nat_eq kp dropped)) signers) dropped
      ≡ false
key_filtered payer dropped [] = refl
key_filtered payer dropped (kp ∷ kps) = ground (arith, key_filtered payer dropped kps)

-- Another account entry that asks for the key's signature.
abbrev pub AskedElsewhere : InstructionSpec → ℕ → Pubkey → Type 0
AskedElsewhere spec sig_idx target =
    (j : ℕ) × (m : AccountMeta) × (j ≢ sig_idx)
    × (get_elem? spec.accounts j ≡ some m)
    × (m.pubkey ≡ target)
    × (m.is_signer ≡ true)

signed_elsewhere-found :
    (i sig_idx : ℕ) (target : Pubkey) (ms : List AccountMeta)
    → signed_elsewhere i sig_idx target ms ≡ true
    → (k : ℕ) × (m : AccountMeta) × (i + k ≢ sig_idx)
      × (get_elem? ms k ≡ some m)
      × (m.pubkey ≡ target)
      × (m.is_signer ≡ true)
unfolding signed_elsewhere
signed_elsewhere-found i sig_idx target [] h = absurd (ground (arith, h))
signed_elsewhere-found i sig_idx target (m ∷ ms) h =
    elim (Bool-cases (not (nat_eq i sig_idx) && (nat_eq m.pubkey target && m.is_signer))) [
      | inl here ↦
          (0, m, (λ e. ground (arith, here, e)), refl, ground (arith, here), ground (arith, here))
      | inr apart ↦
          let (k, found, other, e, key, signs) =
            signed_elsewhere-found (i + 1) sig_idx target ms (ground (arith, h, apart)) in
          (suc k, found, (λ same. other (omega (arith, same))), e, key, signs)
    ]

-- The key signs nothing of what is sent: no account entry of the instruction asks for its signature,
-- and it is not among the keys that sign the transaction.
abbrev pub SignsNothing : Pubkey → Sent → Type 0
SignsNothing target (ix, keys) = All (Unsigned target) ix.accounts × (contains keys target ≡ false)

attack-SignsNothing :
    (spec : InstructionSpec) (payer target : Pubkey) (sig_idx : ℕ)
    → (signed_elsewhere 0 sig_idx target spec.accounts || nat_eq target payer) ≡ false
    → SignsNothing target (attack spec sig_idx, attack_keys payer target spec.signers)
unfolding attack attack_keys
attack-SignsNothing spec payer target sig_idx h = (
  Unsigned-from 0 sig_idx sig_idx target spec.accounts (omega arith) (ground arith),
  ground (arith, key_filtered payer target spec.signers),
)

module _ (rt : Runtime) (payer : Pubkey) (spec : InstructionSpec) (sig_idx : ℕ)
    (p : Process (recorded rt).Ctx) where
  run_attack-record :
      (target : Pubkey)
      → p.ctx.1 ≡ []
      → (run_attack (recorded rt) payer spec sig_idx target p).ctx.1
        ≡ (attack spec sig_idx, attack_keys payer target spec.signers) ∷ []
  unfolding run_attack restore send_ix with_ctx
  run_attack-record target fresh =
      let sent =
        send_ix (recorded rt) (attack spec sig_idx) payer (attack_keys payer target spec.signers)
          p in
      let saves = save_accounts (recorded rt) p.ctx (account_keys spec) in
      let pre = hash_accounts (recorded rt) saves in
      let post = hash_accounts_now (recorded rt) sent.1.ctx (account_keys spec) in
      judged-record rt saves sent.0 pre post
        (signer_skip spec.program_id spec.name sig_idx target pre post) sent.1
      ∙ ap (◌∷◌ (attack spec sig_idx, attack_keys payer target spec.signers)) fresh

  -- Of every transaction that the detector sends for a slot, the key in that slot signs nothing: no
  -- account entry of the instruction asks for its signature, and it is not among the keys that sign. And
  -- it sends one, unless the slot's signer is optional, the key pays the fee, or another entry of the
  -- instruction asks for its signature too.
  pub signer_skip-SignsNothing :
      (m : AccountMeta)
      → get_elem? spec.accounts sig_idx ≡ some m
      → p.ctx.1 ≡ []
      → All (SignsNothing m.pubkey) (run_attempt (recorded rt) payer spec sig_idx p).ctx.1
        × ((run_attempt (recorded rt) payer spec sig_idx p).ctx.1 ≡ []
            → (contains spec.optional_signer_indices sig_idx ≡ true)
              ⊎ ((m.pubkey ≡ payer) ⊎ AskedElsewhere spec sig_idx m.pubkey))
  unfolding run_attempt
  signer_skip-SignsNothing m here fresh =
      elim (Bool-cases (contains spec.optional_signer_indices sig_idx)) [
        | inl optional ↦ (rw (run_attempt, optional, fresh) tt, λ none_sent. inl optional)
        | inr required ↦ elim (Bool-cases (signed_elsewhere 0 sig_idx m.pubkey spec.accounts)) [
          | inl asked ↦ (
            rw (run_attempt, required, here, asked, fresh) tt,
            λ none_sent.
                let (k, found, apart, e, key, signs) =
                  signed_elsewhere-found 0 sig_idx m.pubkey spec.accounts asked in
                inr (inr (k, found, (λ same. apart (omega (arith, same))), e, key, signs)),
          )
          | inr alone ↦ elim (Bool-cases (nat_eq m.pubkey payer)) [
            | inl pays ↦ (
              rw (run_attempt, required, here, alone, pays, fresh) tt,
              λ none_sent. inr (inl ((nat_eq_iff m.pubkey payer).0 pays)),
            )
            | inr other ↦
                let sent = run_attack-record m.pubkey fresh in
                let quiet =
                  attack-SignsNothing spec payer m.pubkey sig_idx (ground (arith, alone, other)) in
                (
                  rw (run_attempt, required, here, alone, other, sent) (quiet, tt),
                  λ none_sent. absurd (
                      ground
                        (arith, rw (run_attempt, required, here, alone, other, sent) at none_sent)),
                )
          ]
        ]
      ]

  run_attack-reports :
      (target : Pubkey)
      → ((run_attack (recorded rt) payer spec sig_idx target p).violations ≡ p.violations)
        ↔ HashesKept rt p.ctx.0 payer
            (account_keys spec)
            (attack spec sig_idx, attack_keys payer target spec.signers)
  unfolding run_attack restore with_ctx hash_accounts_now
  run_attack-reports target =
      let sent =
        send_ix (recorded rt) (attack spec sig_idx) payer (attack_keys payer target spec.signers)
          p in
      judged-reports rt payer (account_keys spec)
        (attack spec sig_idx, attack_keys payer target spec.signers)
        (signer_skip spec.program_id spec.name sig_idx target
          (hash_accounts_now (recorded rt) p.ctx (account_keys spec))
          (hash_accounts_now (recorded rt) sent.1.ctx (account_keys spec)))
        p

  -- The detector is silent exactly if of each transaction that it sends for the slot, the runtime refuses
  -- it or the accounts of the instruction hash the same before and after it.
  pub signer_skip-reports :
      p.ctx.1 ≡ []
      → ((run_attempt (recorded rt) payer spec sig_idx p).violations ≡ p.violations)
        ↔ All
            (HashesKept rt p.ctx.0 payer (account_keys spec))
            (run_attempt (recorded rt) payer spec sig_idx p).ctx.1
  unfolding run_attempt
  signer_skip-reports fresh = elim (Bool-cases (contains spec.optional_signer_indices sig_idx)) [
    | inl optional ↦ rw (run_attempt, optional, fresh) ((λ _. tt), (λ _. refl))
    | inr required ↦ elim (Option-cases (get_elem? spec.accounts sig_idx)) [
      | inl none_here ↦ rw (run_attempt, required, none_here, fresh) ((λ _. tt), (λ _. refl))
      | inr (m, here) ↦
          elim (Bool-cases
            (signed_elsewhere 0 sig_idx m.pubkey spec.accounts || nat_eq m.pubkey payer)) [
              | inl left_out ↦
                  rw (run_attempt, required, here, left_out, fresh) ((λ _. tt), (λ _. refl))
              | inr attacked ↦
                  let (told, kept) = run_attack-reports m.pubkey in
                  rw (run_attempt, required, here, attacked, run_attack-record m.pubkey fresh)
                    ((λ s. (told s, tt)), (λ h. kept h.0))
            ]
    ]
  ]
