-- ===== src/Fuzz/IdlSpec/Candidates.antt =====
-- idl.rs: `infer_candidates`, for the slots that the IDL leaves open.
pub mod Facts
pub mod Keeps
use solinv.Base.{
  ltb, nat_eq, if◌then◌else◌, is_some, ◌>>=◌, length, get_elem?, modify, any, Result, ok, err,
  Bytes, Text, codes, look_up, show, has_substring, ℕ, ◌+◌, Bool, true, not, ◌&&◌, ◌||◌, Option,
  none, some, List, [], ◌∷◌, ◌++◌, map,
}
use solinv.Solana.{Pubkey, Keypair, Account, AccountMeta}
use solinv.Static.Idl.{IdlSeed, const_seed, account_seed, arg_seed}
use solinv.Fuzz.IdlSpec.Slots.{Keys, seed_slot}
use solinv.Fuzz.IdlSpec.Build.{
  owner_lead, discriminator_lead, pda_seeds_lead, signer_lead, IdlSpec, key_bytes, key_at, patterns,
}
use solinv.Fuzz.IdlSpec.Infer.{
  Held, absent, other, typed_as, held, put, flag_at, value_at, note, leave_open, has_disc_width,
  expect_type, each_slot,
}

unfoldable pub propose_type : Option Bytes → ℕ → IdlSpec → IdlSpec
unfolding note expect_type
propose_type none i s = s
propose_type (some disc) i s =
    let expected = expect_type (note s i owner_lead) i disc in
    if has_disc_width disc then note expected i discriminator_lead else expected

-- The accounts of the program that the instruction writes.
unfoldable pub written_of :
    List AccountMeta → List (Option Bytes) → List (Option Account) → List Account
written_of (slot ∷ slots) (some disc ∷ typed) (some acct ∷ state) =
    let rest = written_of slots typed state in if slot.is_writable then acct ∷ rest else rest
written_of (slot ∷ slots) (none ∷ typed) (a ∷ state) = written_of slots typed state
written_of (slot ∷ slots) (some disc ∷ typed) (none ∷ state) = written_of slots typed state
written_of [] typed state = []
written_of (slot ∷ slots) [] state = []
written_of (slot ∷ slots) (t ∷ typed) [] = []

unfoldable pub make_signer : ℕ → Keypair → IdlSpec → IdlSpec
unfolding note
make_signer i keypair s =
    note
      (record s {
        spec = record s.spec {
          accounts = modify s.spec.accounts i (λ (m : AccountMeta). record m { is_signer = true });
          signer_indices = s.spec.signer_indices ++ (i ∷ []);
          signers = s.spec.signers ++ (keypair ∷ []);
        };
      })
      i signer_lead

-- A slot that is left out, or whose key no written state stores.
unfoldable pub is_no_authority : List Account → ℕ → AccountMeta → IdlSpec → Bool
unfolding has_substring
is_no_authority written i slot s =
    flag_at s.omitted i
    || not (any (λ (a : Account). has_substring (key_bytes slot.pubkey) a.contents) written)

abbrev pub unsigned_note : Text
unsigned_note =
    codes
      "no signer on this ix, and written state stores this key: bind its keypair with .signer() to test it as the authority"

-- A slot whose key the written state stores may be its authority.
unfoldable pub signer_step : List Account → ℕ → IdlSpec → IdlSpec
unfolding make_signer leave_open is_no_authority
signer_step written i s = elim (get_elem? s.spec.accounts i) [
  | none ↦ s
  | some slot ↦ if is_no_authority written i slot s then s else (elim (value_at s.keypairs i) [
    | none ↦ leave_open s i unsigned_note
    | some keypair ↦ make_signer i keypair s
  ])
]

unfoldable pub unread_note : ℕ → Text
unfolding show
unread_note skipped =
    codes "no seed pattern re-derives this address; "
    ++ (show skipped
        ++ codes " pattern(s) could not be evaluated (unbound arg or account-data seeds)")

unfoldable pub set_seeds : List Bytes → ℕ → IdlSpec → IdlSpec
unfolding note
set_seeds seeds i s =
    note
      (record s {
        spec = record s.spec { expected_pda_seeds = put s.spec.expected_pda_seeds i (some seeds) };
      })
      i pda_seeds_lead

abbrev pub disc_held : Held → Option Bytes
disc_held absent = none
disc_held other = none
disc_held (typed_as d) = some d

-- A slot that is seeded, left out, empty, a signer or expected to be some program's already.
unfoldable pub is_settled : List (Option Account) → ℕ → AccountMeta → IdlSpec → Bool
is_settled state i slot s =
    (flag_at s.idl_seeded i || (flag_at s.omitted i || not (is_some (value_at state i))))
    || (slot.is_signer || is_some (value_at s.spec.expected_owners i))

module _ (keys : Keys) where
  unfoldable pub pattern_seed : IdlSpec → Text → IdlSeed → Option Bytes
  unfolding seed_slot look_up
  pattern_seed s prefix (const_seed value) = some value
  pattern_seed s prefix (account_seed path account) = elim (seed_slot s.names prefix path) [
    | err why ↦ none
    | ok j ↦ some (key_bytes (key_at (map (λ (m : AccountMeta). m.pubkey) s.spec.accounts) j))
  ]
  pattern_seed s prefix (arg_seed path) = look_up s.arg_seeds path

  unfoldable pub pattern_seeds : IdlSpec → Text → List IdlSeed → Option (List Bytes)
  unfolding pattern_seed
  pattern_seeds s prefix [] = some []
  pattern_seeds s prefix (seed ∷ seeds) = do
    bytes ← pattern_seed s prefix seed
    more ← pattern_seeds s prefix seeds
    some (bytes ∷ more)

  -- The first pattern that derives the target, or how many could not be evaluated.
  unfoldable pub rederive :
      IdlSpec → Pubkey → ℕ → List (Text × List IdlSeed) → Result ℕ (List Bytes)
  unfolding pattern_seeds
  rederive s target skipped [] = err skipped
  rederive s target skipped ((prefix, pattern) ∷ patterns) = elim (pattern_seeds s prefix pattern) [
    | none ↦ rederive s target (skipped + 1) patterns
    | some seeds ↦
        let later = rederive s target skipped patterns in
        if nat_eq (keys.find_program_address seeds s.spec.program_id) target
        then ok seeds
        else later
  ]

  unfoldable pub propose_seeds : Option Bytes → Pubkey → ℕ → IdlSpec → IdlSpec
  unfolding rederive set_seeds leave_open unread_note
  propose_seeds typed target i s = elim (rederive s target 0 s.pda_patterns) [
    | ok seeds ↦ set_seeds seeds i s
    | err skipped ↦
        if ltb 0 skipped && is_some typed then leave_open s i (unread_note skipped) else s
  ]

  unfoldable pub candidate_step :
      List (Option Account) → List (Option Bytes) → ℕ → IdlSpec → IdlSpec
  unfolding propose_type propose_seeds is_settled
  candidate_step state typed i s = elim (get_elem? s.spec.accounts i) [
    | none ↦ s
    | some slot ↦
        if is_settled state i slot s
        then s
        else propose_seeds (value_at typed i) slot.pubkey i (propose_type (value_at typed i) i s)
  ]

  -- Leads, for the slots that the IDL leaves open.
  unfoldable pub infer_candidates : (Pubkey → Option Account) → IdlSpec → IdlSpec
  unfolding each_slot candidate_step signer_step written_of held
  infer_candidates get s =
      let n = length s.spec.accounts in
      let state = map (λ (m : AccountMeta). get m.pubkey) s.spec.accounts in
      let typed = map (λ a. disc_held (held s a)) state in
      let proposed = each_slot (candidate_step state typed) n 0 s in
      let written = written_of proposed.spec.accounts typed state in
      if ltb 0 (length proposed.spec.signer_indices)
      then proposed
      else each_slot (signer_step written) n 0 proposed
