-- ===== src/Core/BumpSeed/Search.antt =====
-- bump_seed_canonicalization.rs: which address `find_alt_canonical_pda` returns.
use solinv.Base.{
  ltb, nat_eq, Bool-cases, Option-cases, Bytes, ℕ, zero, suc, ◌<◌, ◌≡◌, refl, sym, ◌∙◌, ◌≢◌, inl,
  inr, Bool, true, false, not, ◌&&◌, Option, none, some, List, [], ◌∷◌, ◌++◌, arith,
}
use solinv.Solana.{Pubkey}
use solinv.Core.Runtime.{Runtime}
use solinv.Core.BumpSeed.{search_below, find_alt_canonical_pda}

module _ (rt : Runtime) where
  open rt use {find_program_address, create_program_address}

  -- A bump derives an address that is not the canonical one.
  abbrev pub is_alternative : List Bytes → Pubkey → Pubkey → ℕ → Bool
  is_alternative seeds program_id canonical_pda b =
      elim (create_program_address (seeds ++ ((b ∷ []) ∷ [])) program_id) [
        | none ↦ false
        | some alt_pda ↦ not (nat_eq alt_pda canonical_pda)
      ]

  search_below-skips :
      (seeds : List Bytes) (program_id canonical_pda : Pubkey) (top : ℕ)
      → is_alternative seeds program_id canonical_pda top ≡ false
      → search_below rt seeds program_id canonical_pda (suc top)
        ≡ search_below rt seeds program_id canonical_pda top
  unfolding search_below
  search_below-skips seeds program_id canonical_pda top h =
      elim (Option-cases (create_program_address (seeds ++ ((top ∷ []) ∷ [])) program_id)) [
        | inl off ↦ rw (off, search_below) refl
        | inr (a, derived) ↦
            rw (derived, search_below) (ground (arith, rw (derived, is_alternative) at h))
      ]

  search_below-stops :
      (seeds : List Bytes) (program_id canonical_pda : Pubkey) (top : ℕ)
      → is_alternative seeds program_id canonical_pda top ≡ true
      → (alt : Pubkey) × (create_program_address (seeds ++ ((top ∷ []) ∷ [])) program_id ≡ some alt)
        × (alt ≢ canonical_pda)
        × (search_below rt seeds program_id canonical_pda (suc top) ≡ some (top, alt))
  unfolding search_below
  search_below-stops seeds program_id canonical_pda top h =
      elim (Option-cases (create_program_address (seeds ++ ((top ∷ []) ∷ [])) program_id)) [
        | inl off ↦ absurd (ground (arith, rw (off, is_alternative) at h))
        | inr (a, derived) ↦
            let differs : not (nat_eq a canonical_pda) ≡ true = rw (derived, is_alternative) at h in
            (
              a,
              derived,
              ground (arith, differs),
              rw (derived, search_below) (ground (arith, differs)),
            )
      ]

  search_below-derives :
      (seeds : List Bytes) (program_id canonical_pda : Pubkey) (top b : ℕ) (alt : Pubkey)
      → search_below rt seeds program_id canonical_pda top ≡ some (b, alt)
      → (b < top)
        × (create_program_address (seeds ++ ((b ∷ []) ∷ [])) program_id ≡ some alt)
        × (alt ≢ canonical_pda)
  unfolding search_below
  search_below-derives seeds program_id canonical_pda zero b alt found =
      absurd (ground (arith, found))
  search_below-derives seeds program_id canonical_pda (suc top) b alt found =
      elim (Bool-cases (is_alternative seeds program_id canonical_pda top)) [
        | inl here ↦
            let (a, derived, differs, result) =
              search_below-stops seeds program_id canonical_pda top here in
            let same : ◌≡◌ {A = Option (ℕ × Pubkey)} (some (b, alt)) (some (top, a)) =
              sym found ∙ result in
            let bump : b ≡ top = ground (arith, same) in
            let address : alt ≡ a = ground (arith, same) in
            rw (bump, address) (omega arith, derived, differs)
        | inr later ↦
            let (inside, derived, differs) =
              search_below-derives seeds program_id canonical_pda top b alt
                (sym (search_below-skips seeds program_id canonical_pda top later) ∙ found) in
            (omega (arith, inside), derived, differs)
      ]

  search_below-highest :
      (seeds : List Bytes) (program_id canonical_pda : Pubkey) (top b c : ℕ) (alt : Pubkey)
      → search_below rt seeds program_id canonical_pda top ≡ some (b, alt)
      → c < top
      → (ltb b c && is_alternative seeds program_id canonical_pda c) ≡ false
  unfolding search_below
  search_below-highest seeds program_id canonical_pda zero b c alt found below =
      absurd (omega arith)
  search_below-highest seeds program_id canonical_pda (suc top) b c alt found below =
      elim (Bool-cases (is_alternative seeds program_id canonical_pda top)) [
        | inl here ↦
            let (a, derived, differs, result) =
              search_below-stops seeds program_id canonical_pda top here in
            let same : ◌≡◌ {A = Option (ℕ × Pubkey)} (some (b, alt)) (some (top, a)) =
              sym found ∙ result in
            let bump : b ≡ top = ground (arith, same) in ground (arith, bump, below)
        | inr later ↦
            let rest : search_below rt seeds program_id canonical_pda top ≡ some (b, alt) =
              sym (search_below-skips seeds program_id canonical_pda top later) ∙ found in
            elim (Bool-cases (ltb c top)) [
              | inl lower ↦
                  search_below-highest seeds program_id canonical_pda top b c alt rest
                    (ground (arith, lower))
              | inr not_lower ↦
                  let last : c ≡ top = ground (arith, not_lower, below) in
                  rw last (ground (arith, later))
            ]
      ]

  -- The bump that `find_alt_canonical_pda` returns is below the canonical bump, its address is the one
  -- the program derives from it, that address is not the canonical one, and no bump between it and
  -- the canonical one derives an address that is not the canonical one.
  pub find_alt_canonical_pda_lem :
      (seeds : List Bytes) (program_id : Pubkey) (b c : ℕ) (alt : Pubkey)
      → find_alt_canonical_pda rt seeds program_id ≡ some (b, alt)
      → c < (find_program_address seeds program_id).1
      → (b < (find_program_address seeds program_id).1)
        × (create_program_address (seeds ++ ((b ∷ []) ∷ [])) program_id ≡ some alt)
        × (alt ≢ (find_program_address seeds program_id).0)
        × ((ltb b c && is_alternative seeds program_id (find_program_address seeds program_id).0 c)
            ≡ false)
  unfolding find_alt_canonical_pda
  find_alt_canonical_pda_lem seeds program_id b c alt found below =
      let canonical = find_program_address seeds program_id in
      let (inside, derived, differs) =
        search_below-derives seeds program_id canonical.0 canonical.1 b alt found in
      (
        inside,
        derived,
        differs,
        search_below-highest seeds program_id canonical.0 canonical.1 b c alt found below,
      )
