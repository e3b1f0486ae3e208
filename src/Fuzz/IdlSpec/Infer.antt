-- ===== src/Fuzz/IdlSpec/Infer.antt =====
-- idl.rs: what the fixture's state says of the slots. `get` reads an account.
use solinv.Base.{
  ltb, nat_eq, if◌then◌else◌, length, get_elem?, modify, filter, Bytes, Text, codes, show,
  starts_with, ℕ, zero, suc, ◌+◌, Bool, false, not, ◌&&◌, ◌||◌, Option, none, some, List, [], ◌∷◌,
  ◌++◌,
}
use solinv.Solana.{Pubkey, Account}
use solinv.Fuzz.IdlSpec.Build.{CandidateKind, IdlSpec}

-- What a slot holds: `Held`.
pub data Held : Type 0 where
  absent other : Held
  typed_as : Bytes → Held

-- The longest of the discriminators, the last one where several are.
unfoldable pub longest : Option Bytes → List Bytes → Option Bytes
longest best [] = best
longest none (d ∷ ds) = longest (some d) ds
longest (some b) (d ∷ ds) = longest (some (if ltb (length d) (length b) then b else d)) ds

unfoldable pub held : IdlSpec → Option Account → Held
unfolding longest starts_with
held s none = absent
held s (some acct) =
    if nat_eq acct.owner s.spec.program_id
    then (elim (longest none
        (filter (λ d. ltb 0 (length d) && starts_with d acct.contents) s.account_discs)) [
          | none ↦ other
          | some d ↦ typed_as d
        ])
    else other

abbrev pub put {ℓ} : {A : Type ℓ} → List A → ℕ → A → List A
put xs i a = modify xs i (λ old. a)

abbrev pub flag_at : List Bool → ℕ → Bool
flag_at flags i = elim (get_elem? flags i) [ none ↦ false | some flag ↦ flag ]

abbrev pub value_at {ℓ} : {A : Type ℓ} → List (Option A) → ℕ → Option A
value_at values i = elim (get_elem? values i) [ none ↦ none | some value ↦ value ]

abbrev pub name_at : IdlSpec → ℕ → Text
name_at s i = elim (get_elem? s.names i) [ none ↦ [] | some name ↦ name ]

unfoldable pub note : IdlSpec → ℕ → CandidateKind → IdlSpec
note s i what = record s {
  candidates = s.candidates ++ (record { account = name_at s i; what = what } ∷ []);
}

unfoldable pub leave_open : IdlSpec → ℕ → Text → IdlSpec
leave_open s i what = record s {
  unresolved = s.unresolved ++ (record { account = some (name_at s i); what = what } ∷ []);
}

abbrev pub has_disc_width : Bytes → Bool
has_disc_width disc = nat_eq (length disc) 8

-- The slot is expected to be the program's, and to begin with the discriminator if it has 8 bytes.
unfoldable pub expect_type : IdlSpec → ℕ → Bytes → IdlSpec
unfolding leave_open show
expect_type s i disc =
    let owned = record s {
      spec = record s.spec {
        expected_owners = put s.spec.expected_owners i (some s.spec.program_id);
      };
    } in
    if has_disc_width disc
    then record owned {
      spec = record owned.spec {
        expected_discriminators = put owned.spec.expected_discriminators i (some disc);
      };
    }
    else leave_open owned i (
        codes "discriminator is "
        ++ (show (length disc) ++ codes " bytes; discriminator-skip compares 8"))

-- A loop over the slots from `i` on.
unfoldable pub each_slot : (ℕ → IdlSpec → IdlSpec) → ℕ → ℕ → IdlSpec → IdlSpec
each_slot step zero i s = s
each_slot step (suc left) i s = each_slot step left (i + 1) (step i s)

unfoldable pub take_fact : Held → ℕ → IdlSpec → IdlSpec
unfolding expect_type
take_fact absent i s = record s {
  spec = record s.spec { creates_indices = s.spec.creates_indices ++ (i ∷ []) };
}
take_fact (typed_as d) i s = expect_type s i d
take_fact other i s = s

module _ (get : Pubkey → Option Account) where
  unfoldable pub state_step : ℕ → IdlSpec → IdlSpec
  unfolding held take_fact
  state_step i s = elim (get_elem? s.spec.accounts i) [
    | none ↦ s
    | some slot ↦
        if not (flag_at s.idl_seeded i) || flag_at s.omitted i
        then s
        else take_fact (held s (get slot.pubkey)) i s
  ]

  -- Facts, for the slots that the IDL seeds.
  unfoldable pub infer_from_state : IdlSpec → IdlSpec
  unfolding each_slot state_step
  infer_from_state s = each_slot state_step (length s.spec.accounts) 0 s
