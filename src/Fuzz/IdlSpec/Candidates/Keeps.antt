-- ===== src/Fuzz/IdlSpec/Candidates/Keeps.antt =====
-- idl.rs: what is inferred keeps the shape of a specification.
use solinv.Base.{
  ltb, if◌then◌else◌, Bool-cases, Option-cases, is_some, length, get_elem?, modify, length-append,
  All-append, All-map, ok, Result-cases, Bytes, Text, ℕ, zero, suc, ◌+◌, ◌≡◌, refl, inl, inr, Bool,
  true, false, not, ◌&&◌, ◌||◌, Option, none, some, List, [], ◌∷◌, map, arith,
}
use solinv.Solana.{Pubkey, Keypair, Account, AccountMeta}
use solinv.Fuzz.IdlSpec.Build.{CandidateKind, owner_lead, discriminator_lead, IdlSpec, build}
use solinv.Fuzz.IdlSpec.Build.Shape.{Marks, Shaped, build-Shaped}
use solinv.Static.Idl.{flat_accounts}
use solinv.Fuzz.IdlSpec.Infer.{
  Held, absent, other, typed_as, held, flag_at, value_at, note, leave_open, expect_type, each_slot,
  take_fact, state_step, infer_from_state,
}
use solinv.Fuzz.IdlSpec.Candidates.{
  propose_type, written_of, make_signer, is_no_authority, unsigned_note, signer_step, unread_note,
  set_seeds, disc_held, is_settled, rederive, propose_seeds, candidate_step, infer_candidates,
}
use solinv.Fuzz.IdlSpec.Slots.{Keys, SpecBuilder}

length-modify {ℓ} :
    {A : Type ℓ} (xs : List A) (i : ℕ) (f : A → A) → length (modify xs i f) ≡ length xs
length-modify [] i f = refl
length-modify (x ∷ xs) zero f = refl
length-modify (x ∷ xs) (suc i) f = omega (arith, length-modify xs i f)

abbrev set_signer : AccountMeta → AccountMeta
set_signer m = record m { is_signer = true }

-- A slot that is marked stays so, and the slot that is set is marked.
Marks-modify :
    (slots : List AccountMeta) (i j : ℕ) → Marks slots j → Marks (modify slots i set_signer) j
Marks-modify [] i j h = h
Marks-modify (x ∷ slots) zero zero (slot, (e, marked)) = (set_signer x, (refl, refl))
Marks-modify (x ∷ slots) zero (suc j) h = h
Marks-modify (x ∷ slots) (suc i) zero h = h
Marks-modify (x ∷ slots) (suc i) (suc j) h = Marks-modify slots i j h

Marks-set :
    (slots : List AccountMeta) (i : ℕ) (slot : AccountMeta)
    → get_elem? slots i ≡ some slot
    → Marks (modify slots i set_signer) i
Marks-set [] i slot h = absurd (ground (arith, h))
Marks-set (x ∷ slots) zero slot h = (set_signer x, (refl, refl))
Marks-set (x ∷ slots) (suc i) slot h = Marks-set slots i slot h

pub branch-keeps :
    (P : IdlSpec → Type 0) (c : Bool) (a b : IdlSpec) → P a → P b → P (if c then a else b)
branch-keeps P true a b ha hb = ha
branch-keeps P false a b ha hb = hb

-- What every round keeps, the loop keeps.
pub each_slot-keeps :
    (P : IdlSpec → Type 0) (step : ℕ → IdlSpec → IdlSpec)
    → ((i : ℕ) (s : IdlSpec) → P s → P (step i s))
    → (left i : ℕ) (s : IdlSpec) → P s
    → P (each_slot step left i s)
unfolding each_slot
each_slot-keeps P step keeps zero i s h = h
each_slot-keeps P step keeps (suc left) i s h =
    each_slot-keeps P step keeps left (i + 1) (step i s) (keeps i s h)

-- So do its two loops keep what their rounds keep.
pub infer_candidates-keeps :
    (keys : Keys) (P : IdlSpec → Type 0)
    → ((state : List (Option Account)) (typed : List (Option Bytes)) (i : ℕ) (s : IdlSpec)
        → P s
        → P (candidate_step keys state typed i s))
    → ((written : List Account) (i : ℕ) (s : IdlSpec) → P s → P (signer_step written i s))
    → (get : Pubkey → Option Account) (s : IdlSpec) → P s
    → P (infer_candidates keys get s)
unfolding infer_candidates
infer_candidates-keeps keys P leads signs get s h =
    let n = length s.spec.accounts in
    let state = map (λ (m : AccountMeta). get m.pubkey) s.spec.accounts in
    let typed = map (λ a. disc_held (held s a)) state in
    let proposed = each_slot (candidate_step keys state typed) n 0 s in
    let written = written_of proposed.spec.accounts typed state in
    let kept = each_slot-keeps P (candidate_step keys state typed) (leads state typed) n 0 s h in
    branch-keeps P (ltb 0 (length proposed.spec.signer_indices)) proposed
      (each_slot (signer_step written) n 0 proposed) kept
      (each_slot-keeps P (signer_step written) (signs written) n 0 proposed kept)

module _ (n : ℕ) where
  note-Shaped : (s : IdlSpec) (i : ℕ) (what : CandidateKind) → Shaped n s → Shaped n (note s i what)
  unfolding note
  note-Shaped s i what h = h

  leave_open-Shaped :
      (s : IdlSpec) (i : ℕ) (what : Text) → Shaped n s → Shaped n (leave_open s i what)
  unfolding leave_open
  leave_open-Shaped s i what h = h

  expect_type-Shaped :
      (s : IdlSpec) (i : ℕ) (disc : Bytes) → Shaped n s → Shaped n (expect_type s i disc)
  unfolding expect_type leave_open
  expect_type-Shaped s i disc h =
      let owners = length-modify s.spec.expected_owners i (λ old. some s.spec.program_id) in
      let discs = length-modify s.spec.expected_discriminators i (λ old. some disc) in
      ground (arith, h, owners, discs)

  make_signer-Shaped :
      (s : IdlSpec) (i : ℕ) (keypair : Keypair) (slot : AccountMeta)
      → get_elem? s.spec.accounts i ≡ some slot
      → Shaped n s
      → Shaped n (make_signer i keypair s)
  unfolding make_signer note
  make_signer-Shaped s i keypair slot here h =
      let marked =
        All-append _ s.spec.signer_indices (i ∷ [])
          (All-map _ _ s.spec.signer_indices (λ j m. Marks-modify s.spec.accounts i j m) h.1.0)
          (Marks-set s.spec.accounts i slot here, tt) in
      (
        rw (length-modify s.spec.accounts i set_signer) h.0,
        (
          marked,
          omega (
            arith,
            length-append s.spec.signers (keypair ∷ []),
            length-append s.spec.signer_indices (i ∷ []),
            h.1.1,
          ),
        ),
      )

  fact-Shaped : (what : Held) (i : ℕ) (s : IdlSpec) → Shaped n s → Shaped n (take_fact what i s)
  unfolding take_fact
  fact-Shaped absent i s h = h
  fact-Shaped (typed_as d) i s h = expect_type-Shaped s i d h
  fact-Shaped other i s h = h

  state_step-Shaped :
      (get : Pubkey → Option Account) (i : ℕ) (s : IdlSpec)
      → Shaped n s
      → Shaped n (state_step get i s)
  unfolding state_step
  state_step-Shaped get i s h = elim (Option-cases (get_elem? s.spec.accounts i)) [
    | inl gone ↦ rw (state_step, gone) h
    | inr (slot, here) ↦ elim (Bool-cases (not (flag_at s.idl_seeded i) || flag_at s.omitted i)) [
      | inl skipped ↦ rw (state_step, here, skipped) h
      | inr taken ↦ rw (state_step, here, taken) (fact-Shaped (held s (get slot.pubkey)) i s h)
    ]
  ]

  -- What the fixture's state says of the seeded slots keeps the shape.
  pub infer_from_state-Shaped :
      (get : Pubkey → Option Account) (s : IdlSpec) → Shaped n s → Shaped n (infer_from_state get s)
  unfolding infer_from_state
  infer_from_state-Shaped get s h =
      each_slot-keeps (Shaped n) (state_step get) (state_step-Shaped get) (length s.spec.accounts) 0
        s h

  propose_type-Shaped :
      (typed : Option Bytes) (i : ℕ) (s : IdlSpec) → Shaped n s → Shaped n (propose_type typed i s)
  unfolding propose_type
  propose_type-Shaped none i s h = h
  propose_type-Shaped (some disc) i s h =
      let expected =
        expect_type-Shaped (note s i owner_lead) i disc (note-Shaped s i owner_lead h) in
      ground (
        arith,
        expected,
        note-Shaped (expect_type (note s i owner_lead) i disc) i discriminator_lead expected,
      )

  module _ (keys : Keys) where
    set_seeds-Shaped :
        (seeds : List Bytes) (i : ℕ) (s : IdlSpec) → Shaped n s → Shaped n (set_seeds seeds i s)
    unfolding set_seeds note
    set_seeds-Shaped seeds i s h =
        let same = length-modify s.spec.expected_pda_seeds i (λ old. some seeds) in
        ground (arith, h, same)

    propose_seeds-Shaped :
        (typed : Option Bytes) (target : Pubkey) (i : ℕ) (s : IdlSpec)
        → Shaped n s
        → Shaped n (propose_seeds keys typed target i s)
    unfolding propose_seeds
    propose_seeds-Shaped typed target i s h =
        elim (Result-cases (rederive keys s target 0 s.pda_patterns)) [
          | inl (seeds, found) ↦ rw (propose_seeds, found) (set_seeds-Shaped seeds i s h)
          | inr (skipped, none_found) ↦ elim (Bool-cases (ltb 0 skipped && is_some typed)) [
            | inl unread ↦
                rw (propose_seeds, none_found, unread)
                  (leave_open-Shaped s i (unread_note skipped) h)
            | inr quiet ↦ rw (propose_seeds, none_found, quiet) h
          ]
        ]

    candidate_step-Shaped :
        (state : List (Option Account)) (typed : List (Option Bytes)) (i : ℕ) (s : IdlSpec)
        → Shaped n s
        → Shaped n (candidate_step keys state typed i s)
    unfolding candidate_step
    candidate_step-Shaped state typed i s h = elim (Option-cases (get_elem? s.spec.accounts i)) [
      | inl gone ↦ rw (candidate_step, gone) h
      | inr (slot, here) ↦ elim (Bool-cases (is_settled state i slot s)) [
        | inl settled ↦ rw (candidate_step, here, settled) h
        | inr unsettled ↦
            let typed_here = value_at typed i in
            rw (candidate_step, here, unsettled)
              (propose_seeds-Shaped typed_here slot.pubkey i (propose_type typed_here i s)
                (propose_type-Shaped typed_here i s h))
      ]
    ]

    signer_step-Shaped :
        (written : List Account) (i : ℕ) (s : IdlSpec)
        → Shaped n s
        → Shaped n (signer_step written i s)
    unfolding signer_step
    signer_step-Shaped written i s h = elim (Option-cases (get_elem? s.spec.accounts i)) [
      | inl gone ↦ rw (signer_step, gone) h
      | inr (slot, here) ↦ elim (Bool-cases (is_no_authority written i slot s)) [
        | inl other_key ↦ rw (signer_step, here, other_key) h
        | inr stored ↦ elim (Option-cases (value_at s.keypairs i)) [
          | inl unbound ↦
              rw (signer_step, here, stored, unbound) (leave_open-Shaped s i unsigned_note h)
          | inr (keypair, signs) ↦
              rw (signer_step, here, stored, signs) (make_signer-Shaped s i keypair slot here h)
        ]
      ]
    ]

    -- The leads keep the shape, the signers among them.
    pub infer_candidates-Shaped :
        (get : Pubkey → Option Account) (s : IdlSpec)
        → Shaped n s
        → Shaped n (infer_candidates keys get s)
    infer_candidates-Shaped get s h =
        infer_candidates-keeps keys (Shaped n) candidate_step-Shaped signer_step-Shaped get s h

module _ (keys : Keys) (get : Pubkey → Option Account) where
  -- A built specification, filled in from the fixture's state and then with leads, has in every list by
  -- slot an entry to each slot of the instruction, and each of its signers is one of the slots, is
  -- marked there as a signer, and has a keypair.
  pub inferred-Shaped :
      (b : SpecBuilder) (s : IdlSpec)
      → build keys b ≡ ok s
      → Shaped (length (flat_accounts b.ix)) (infer_candidates keys get (infer_from_state get s))
  inferred-Shaped b s e =
      let n = length (flat_accounts b.ix) in
      infer_candidates-Shaped n keys get (infer_from_state get s)
        (infer_from_state-Shaped n get s (build-Shaped keys b s e))
