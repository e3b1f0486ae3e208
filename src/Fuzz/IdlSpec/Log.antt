-- ===== src/Fuzz/IdlSpec/Log.antt =====
-- idl.rs: `candidate_log`.
use solinv.Base.{
  ◌==◌, Text, codes, show, ℕ, ◌-◌, ◌^◌, none, some, List, ◌++◌, map, ℕ_eq, list_eq, option_eq,
}
use solinv.Fuzz.IdlSpec.Slots.{places, first_of}
use solinv.Fuzz.IdlSpec.Build.{
  CandidateKind, owner_lead, discriminator_lead, pda_seeds_lead, signer_lead, Candidate, IdlSpec,
}

abbrev pub kind_name : CandidateKind → Text
kind_name owner_lead = codes "Owner"
kind_name discriminator_lead = codes "Discriminator"
kind_name pda_seeds_lead = codes "PdaSeeds"
kind_name signer_lead = codes "Signer"

-- `usize::MAX` where no slot has the name.
unfoldable pub index_of : IdlSpec → Text → ℕ
unfolding places
index_of s name = elim (first_of (places (λ n. n == name) 0 s.names)) [
  | none ↦ 2 ^ 64 - 1
  | some i ↦ i
]

unfoldable pub log_line : IdlSpec → Candidate → Text
unfolding index_of show
log_line s c =
    codes "[SOLINV_CANDIDATES] ix="
    ++ (s.spec.name
        ++ (codes " account="
            ++ (show (index_of s c.account)
                ++ (codes " path="
                    ++ (c.account
                        ++ (codes " kind="
                            ++ (kind_name c.what
                                ++ codes " (lead: confirm against the program's intent)")))))))

unfoldable pub candidate_log : IdlSpec → List Text
unfolding log_line
candidate_log s = map (log_line s) s.candidates
