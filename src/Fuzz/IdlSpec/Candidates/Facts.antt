-- ===== src/Fuzz/IdlSpec/Candidates/Facts.antt =====
-- idl.rs: a lead never takes the place of a fact.
use solinv.Base.{
  ltb, Bool-cases, Option-cases, is_some, get_elem?, Result-cases, Bytes, Text, ℕ, zero, suc, ◌≡◌,
  refl, ◌∙◌, inl, inr, true, ◌&&◌, Option, none, some, List, [], ◌∷◌, arith,
}
use solinv.Solana.{Pubkey, Keypair, Account, AccountMeta}
use solinv.Fuzz.IdlSpec.Slots.{Keys}
use solinv.Fuzz.IdlSpec.Build.{CandidateKind, owner_lead, discriminator_lead, IdlSpec}
use solinv.Fuzz.IdlSpec.Infer.{put, value_at, note, leave_open, has_disc_width, expect_type}
use solinv.Fuzz.IdlSpec.Candidates.{
  propose_type, make_signer, is_no_authority, unsigned_note, signer_step, unread_note, set_seeds,
  is_settled, rederive, propose_seeds, candidate_step, infer_candidates,
}
use solinv.Fuzz.IdlSpec.Candidates.Keeps.{branch-keeps, infer_candidates-keeps}

value_at-put {ℓ} :
    {A : Type ℓ} (xs : List (Option A)) (i j : ℕ) (a : Option A)
    → ¬ (i ≡ j)
    → value_at (put xs i a) j ≡ value_at xs j
value_at-put [] i j a h = refl
value_at-put (x ∷ xs) zero zero a h = absurd (h refl)
value_at-put (x ∷ xs) zero (suc j) a h = refl
value_at-put (x ∷ xs) (suc i) zero a h = refl
value_at-put (x ∷ xs) (suc i) (suc j) a h = value_at-put xs i j a (λ e. h (omega (arith, e)))

-- What is expected of a slot.
abbrev pub Expects : ℕ → Option Pubkey → Option Bytes → Option (List Bytes) → IdlSpec → Type 0
Expects j owner disc seeds s =
    (value_at s.spec.expected_owners j ≡ owner)
    × (value_at s.spec.expected_discriminators j ≡ disc)
    × (value_at s.spec.expected_pda_seeds j ≡ seeds)

module _ (j : ℕ) (owner : Option Pubkey) (disc : Option Bytes) (seeds : Option (List Bytes))
    (s : IdlSpec) (i : ℕ) where
  expect_type-Expects :
      (d : Bytes)
      → ¬ (i ≡ j)
      → Expects j owner disc seeds s
      → Expects j owner disc seeds (expect_type s i d)
  unfolding expect_type leave_open
  expect_type-Expects d apart h =
      let owners = value_at-put s.spec.expected_owners i j (some s.spec.program_id) apart in
      let discs = value_at-put s.spec.expected_discriminators i j (some d) apart in
      elim (Bool-cases (has_disc_width d)) [
        | inl wide ↦ rw (expect_type, wide) (owners ∙ h.0, discs ∙ h.1, h.2)
        | inr narrow ↦ rw (expect_type, narrow) (owners ∙ h.0, h.1, h.2)
      ]

  note-Expects :
      (what : CandidateKind)
      → Expects j owner disc seeds s
      → Expects j owner disc seeds (note s i what)
  unfolding note
  note-Expects what h = h

  set_seeds-Expects :
      (found : List Bytes)
      → ¬ (i ≡ j)
      → Expects j owner disc seeds s
      → Expects j owner disc seeds (set_seeds found i s)
  unfolding set_seeds note
  set_seeds-Expects found apart h =
      (h.0, h.1, value_at-put s.spec.expected_pda_seeds i j (some found) apart ∙ h.2)

  leave_open-Expects :
      (what : Text)
      → Expects j owner disc seeds s
      → Expects j owner disc seeds (leave_open s i what)
  unfolding leave_open
  leave_open-Expects what h = h

  make_signer-Expects :
      (keypair : Keypair)
      → Expects j owner disc seeds s
      → Expects j owner disc seeds (make_signer i keypair s)
  unfolding make_signer note
  make_signer-Expects keypair h = h

module _ (j : ℕ) (owner : Pubkey) (disc : Option Bytes) (seeds : Option (List Bytes)) (i : ℕ)
    (s : IdlSpec) where
  propose_type-Expects :
      (typed : Option Bytes)
      → ¬ (i ≡ j)
      → Expects j (some owner) disc seeds s
      → Expects j (some owner) disc seeds (propose_type typed i s)
  unfolding propose_type
  propose_type-Expects none apart h = h
  propose_type-Expects (some d) apart h =
      let expected =
        expect_type-Expects j (some owner) disc seeds (note s i owner_lead) i d apart
          (note-Expects j (some owner) disc seeds s i owner_lead h) in
      branch-keeps (Expects j (some owner) disc seeds) (has_disc_width d)
        (note (expect_type (note s i owner_lead) i d) i discriminator_lead)
        (expect_type (note s i owner_lead) i d)
        (note-Expects j (some owner) disc seeds (expect_type (note s i owner_lead) i d) i
          discriminator_lead expected)
        expected

  module _ (keys : Keys) where
    propose_seeds-Expects :
        (typed : Option Bytes) (target : Pubkey)
        → ¬ (i ≡ j)
        → Expects j (some owner) disc seeds s
        → Expects j (some owner) disc seeds (propose_seeds keys typed target i s)
    unfolding propose_seeds
    propose_seeds-Expects typed target apart h =
        elim (Result-cases (rederive keys s target 0 s.pda_patterns)) [
          | inl (found, re) ↦
              rw (propose_seeds, re) (set_seeds-Expects j (some owner) disc seeds s i found apart h)
          | inr (skipped, re) ↦ elim (Bool-cases (ltb 0 skipped && is_some typed)) [
            | inl unread ↦
                rw (propose_seeds, re, unread)
                  (leave_open-Expects j (some owner) disc seeds s i (unread_note skipped) h)
            | inr quiet ↦ rw (propose_seeds, re, quiet) h
          ]
        ]

  -- A slot with an expected owner is settled.
  settled-here :
      (state : List (Option Account)) (slot : AccountMeta)
      → value_at s.spec.expected_owners j ≡ some owner
      → is_settled state j slot s ≡ true
  unfolding is_settled
  settled-here state slot h = rw h (ground arith)

module _ (keys : Keys) (j : ℕ) (owner : Pubkey) (disc : Option Bytes)
    (seeds : Option (List Bytes)) where
  candidate_step-Expects :
      (state : List (Option Account)) (typed : List (Option Bytes)) (i : ℕ) (s : IdlSpec)
      → Expects j (some owner) disc seeds s
      → Expects j (some owner) disc seeds (candidate_step keys state typed i s)
  unfolding candidate_step
  candidate_step-Expects state typed i s h = elim (Option-cases (get_elem? s.spec.accounts i)) [
    | inl gone ↦ rw (candidate_step, gone) h
    | inr (slot, here) ↦ elim (Bool-cases (is_settled state i slot s)) [
      | inl settled ↦ rw (candidate_step, here, settled) h
      | inr unsettled ↦
          let typed_here = value_at typed i in
          let apart : ¬ (i ≡ j) = λ same. absurd (
            ground
              (arith, unsettled, settled-here i owner disc seeds j s state slot (rw same h.0))) in
          rw (candidate_step, here, unsettled)
            (propose_seeds-Expects j owner disc seeds i (propose_type typed_here i s) keys
              typed_here slot.pubkey apart
              (propose_type-Expects j owner disc seeds i s typed_here apart h))
    ]
  ]

  signer_step-Expects :
      (written : List Account) (i : ℕ) (s : IdlSpec)
      → Expects j (some owner) disc seeds s
      → Expects j (some owner) disc seeds (signer_step written i s)
  unfolding signer_step
  signer_step-Expects written i s h = elim (Option-cases (get_elem? s.spec.accounts i)) [
    | inl gone ↦ rw (signer_step, gone) h
    | inr (slot, here) ↦ elim (Bool-cases (is_no_authority written i slot s)) [
      | inl other_key ↦ rw (signer_step, here, other_key) h
      | inr stored ↦ elim (Option-cases (value_at s.keypairs i)) [
        | inl unbound ↦
            rw (signer_step, here, stored, unbound)
              (leave_open-Expects j (some owner) disc seeds s i unsigned_note h)
        | inr (keypair, signs) ↦
            rw (signer_step, here, stored, signs)
              (make_signer-Expects j (some owner) disc seeds s i keypair h)
      ]
    ]
  ]

-- What a slot with an expected owner is expected to hold, its owner, its discriminator and its seeds, no
-- lead changes.
pub infer_candidates-Expects :
    (keys : Keys) (get : Pubkey → Option Account) (s : IdlSpec) (j : ℕ) (owner : Pubkey)
    → value_at s.spec.expected_owners j ≡ some owner
    → Expects j
        (some owner)
        (value_at s.spec.expected_discriminators j)
        (value_at s.spec.expected_pda_seeds j)
        (infer_candidates keys get s)
infer_candidates-Expects keys get s j owner e =
    let disc = value_at s.spec.expected_discriminators j in
    let seeds = value_at s.spec.expected_pda_seeds j in
    infer_candidates-keeps keys (Expects j (some owner) disc seeds)
      (candidate_step-Expects keys j owner disc seeds) (signer_step-Expects keys j owner disc seeds)
      get s (e, refl, refl)
