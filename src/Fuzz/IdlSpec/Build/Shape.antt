-- ===== src/Fuzz/IdlSpec/Build/Shape.antt =====
-- idl.rs: the lists of a built specification, which the detectors index by slot.
use mathlib.Core.Path.{subst}
use solinv.Base.{
  ltb, if◌then◌else◌, Bool-cases, length, get_elem?, All, All-map, Result, ok, err, Result-cases,
  Text, ℕ, suc, ◌+◌, ◌≡◌, refl, ◌∙◌, inl, inr, Bool, true, false, some, List, [], ◌∷◌, map, arith,
}
use solinv.Solana.{Pubkey, AccountMeta}
use solinv.Static.Idl.{FlatAccount, flat_accounts, path_of}
use solinv.Fuzz.IdlSpec.Slots.{
  IdlError, Keys, SpecBuilder, SlotKey, own_key, default_key, no_key, bad_key, slot_key,
}
use solinv.Fuzz.IdlSpec.Build.{
  IdlSpec, Resolved, resolve_step, resolve_all, signs_slot, missing_signers_of, meta_of, metas,
  signer_places, signer_keys, spec_of, built, finish, build,
}

-- Every list that has an entry to a slot has `n` entries, and every signer of the specification is one
-- of its slots, marked as a signer, with a keypair beside it.
abbrev pub Marks : List AccountMeta → ℕ → Type 0
Marks slots i = (slot : AccountMeta) × ((get_elem? slots i ≡ some slot) × (slot.is_signer ≡ true))

abbrev pub Sized : ℕ → IdlSpec → Type 0
Sized n s =
    (length s.spec.accounts ≡ n)
    × (length s.spec.expected_owners ≡ n)
    × (length s.spec.expected_discriminators ≡ n)
    × (length s.spec.expected_pda_seeds ≡ n)
    × (length s.spec.swap_alternates ≡ n)
    × (length s.names ≡ n)
    × (length s.idl_seeded ≡ n)
    × (length s.omitted ≡ n)
    × (length s.keypairs ≡ n)

abbrev pub Shaped : ℕ → IdlSpec → Type 0
Shaped n s =
    Sized n s
    × (All (Marks s.spec.accounts) s.spec.signer_indices
        × (length s.spec.signers ≡ length s.spec.signer_indices))

length-map {ℓ κ} :
    {A : Type ℓ} {B : Type κ} (f : A → B) (xs : List A) → length (map f xs) ≡ length xs
length-map f [] = refl
length-map f (x ∷ xs) = omega (arith, length-map f xs)

All-kept {ℓ} :
    {A : Type ℓ} (P : A → Type 0) (c : Bool) (x : A) (xs : List A)
    → (c ≡ true → P x)
    → All P xs
    → All P (if c then x ∷ xs else xs)
All-kept P true x xs h hs = (h refl, hs)
All-kept P false x xs h hs = hs

module _ (keys : Keys) (b : SpecBuilder) where
  resolve_step-length :
      (path : Text) (key : SlotKey) (later : Result IdlError Resolved) (n : ℕ)
      → ((r : Resolved) → later ≡ ok r → length r.pubkeys ≡ n)
      → (r : Resolved) → resolve_step keys b path key later ≡ ok r
      → length r.pubkeys ≡ suc n
  unfolding resolve_step
  resolve_step-length path (bad_key addr) later n h r e = absurd (ground (arith, e))
  resolve_step-length path (own_key pk) (ok l) n h r e = ground (arith, h l refl, e)
  resolve_step-length path (own_key pk) (err x) n h r e = absurd (ground (arith, e))
  resolve_step-length path (default_key pk) (ok l) n h r e = ground (arith, h l refl, e)
  resolve_step-length path (default_key pk) (err x) n h r e = absurd (ground (arith, e))
  resolve_step-length path no_key (ok l) n h r e = ground (arith, h l refl, e)
  resolve_step-length path no_key (err x) n h r e = absurd (ground (arith, e))

  resolve_all-length :
      (flat : List FlatAccount) (r : Resolved)
      → resolve_all keys b flat ≡ ok r
      → length r.pubkeys ≡ length flat
  unfolding resolve_all
  resolve_all-length [] r h = ground (arith, h)
  resolve_all-length (f ∷ flat) r h =
      resolve_step-length (path_of f) (slot_key keys b f) (resolve_all keys b flat) (length flat)
        (resolve_all-length flat) r h

  metas-length :
      (flat : List FlatAccount) (pubkeys : List Pubkey)
      → length pubkeys ≡ length flat
      → length (metas keys b flat pubkeys) ≡ length flat
  unfolding metas
  metas-length [] pubkeys h = refl
  metas-length (f ∷ flat) [] h = absurd (omega (arith, h))
  metas-length (f ∷ flat) (pk ∷ pubkeys) h =
      omega (arith, metas-length flat pubkeys (omega (arith, h)))

  signer_keys-length :
      (i : ℕ) (flat : List FlatAccount)
      → missing_signers_of keys b flat ≡ []
      → length (signer_keys keys b flat) ≡ length (signer_places keys b i flat)
  unfolding signer_keys signer_places missing_signers_of
  signer_keys-length i [] h = refl
  signer_keys-length i (f ∷ flat) h = ground (arith, h, signer_keys-length (i + 1) flat)

  -- A place from `i` on is marked in the slots that stand there.
  abbrev MarkedFrom : ℕ → List AccountMeta → ℕ → Type 0
  MarkedFrom i slots j = (k : ℕ) × ((j ≡ i + k) × Marks slots k)

  meta_of-signs :
      (f : FlatAccount) (pk : Pubkey) → (meta_of keys b f pk).is_signer ≡ signs_slot keys b f
  unfolding meta_of
  meta_of-signs f pk = refl

  signer_places-MarkedFrom :
      (i : ℕ) (flat : List FlatAccount) (pubkeys : List Pubkey)
      → length pubkeys ≡ length flat
      → All (MarkedFrom i (metas keys b flat pubkeys)) (signer_places keys b i flat)
  unfolding signer_places metas
  signer_places-MarkedFrom i [] pubkeys h = tt
  signer_places-MarkedFrom i (f ∷ flat) [] h = absurd (omega (arith, h))
  signer_places-MarkedFrom i (f ∷ flat) (pk ∷ pubkeys) h =
      let slots = meta_of keys b f pk ∷ metas keys b flat pubkeys in
      let later : All (MarkedFrom i slots) (signer_places keys b (i + 1) flat) =
        All-map _ _ (signer_places keys b (i + 1) flat)
          (λ j (k, (e, marks)). (suc k, (omega (arith, e), marks)))
          (signer_places-MarkedFrom (i + 1) flat pubkeys (omega (arith, h))) in
      All-kept (MarkedFrom i slots) (signs_slot keys b f) i (signer_places keys b (i + 1) flat)
        (λ signs_here.
          (0, (omega arith, (meta_of keys b f pk, (refl, meta_of-signs f pk ∙ signs_here)))))
        later

  built-Shaped :
      (flat : List FlatAccount) (r : Resolved)
      → resolve_all keys b flat ≡ ok r
      → missing_signers_of keys b flat ≡ []
      → Shaped (length flat) (built keys b flat r)
  unfolding built spec_of
  built-Shaped flat r h signed =
      let keyed = resolve_all-length flat r h in
      let marked =
        All-map _ _ (signer_places keys b 0 flat)
          (λ j (k, (e, marks)).
            subst (Marks (metas keys b flat r.pubkeys)) (omega (arith, e)) marks)
          (signer_places-MarkedFrom 0 flat r.pubkeys keyed) in
      (
        (
          metas-length flat r.pubkeys keyed,
          length-map _ flat,
          length-map _ flat,
          length-map _ flat,
          length-map _ flat,
          length-map _ flat,
          length-map _ flat,
          length-map _ flat,
          length-map _ flat,
        ),
        (marked, signer_keys-length 0 flat signed),
      )

  empty-of-length : (ts : List Text) → ltb 0 (length ts) ≡ false → ts ≡ []
  empty-of-length [] h = refl
  empty-of-length (t ∷ ts) h = absurd (ground (arith, h))

  finish-built :
      (flat : List FlatAccount) (r : Resolved) (s : IdlSpec)
      → finish keys b flat r ≡ ok s
      → (missing_signers_of keys b flat ≡ []) × (built keys b flat r ≡ s)
  unfolding finish
  finish-built flat r s h = elim (Bool-cases (ltb 0 (length r.missing))) [
    | inl some_missing ↦ absurd (ground (arith, some_missing, h))
    | inr bound_all ↦ elim (Bool-cases (ltb 0 (length (missing_signers_of keys b flat)))) [
      | inl unsigned ↦ absurd (ground (arith, bound_all, unsigned, h))
      | inr signed ↦ (
        empty-of-length (missing_signers_of keys b flat) signed,
        ground (arith, bound_all, signed, h),
      )
    ]
  ]

  -- A specification that is built has an entry to every slot in each of its lists, its signers are
  -- marked slots, and a keypair stands beside each.
  pub build-Shaped : (s : IdlSpec) → build keys b ≡ ok s → Shaped (length (flat_accounts b.ix)) s
  unfolding build
  build-Shaped s h =
      let flat = flat_accounts b.ix in
      elim (Result-cases (resolve_all keys b flat)) [
        | inr (e, failed) ↦ absurd (ground (arith, failed, h))
        | inl (r, resolved) ↦
            let done = finish-built flat r s (rw resolved at h) in
            subst (Shaped (length flat)) done.1 (built-Shaped flat r resolved done.0)
      ]
