-- ===== src/Fuzz/Coverage.antt =====
-- crates/solinv-fuzz/src/state_coverage.rs: the fingerprint of one state transition.
use solinv.Base.{
  leb, nat_eq, if◌then◌else◌, is_some, Text, codes, show, length, count, ℕ, Bool, true, false, not,
  ◌&&◌, List, [], ◌∷◌, ◌++◌,
}
use solinv.Solana.{Pubkey}
use solinv.Fuzz.Capability.{InstructionSpec}

pub data TokenFlowShape : Type 0 where
  unknown inbound_only outbound_only bidirectional no_movement : TokenFlowShape

pub record TransitionObservation : Type 0 where
  pub cpi_depth : ℕ
  pub token_flow : TokenFlowShape

-- `TransitionObservation::default()`.
abbrev pub unobserved : TransitionObservation
unobserved = record { cpi_depth = 0; token_flow = unknown }

unfoldable pub bucket_cpi_depth : ℕ → ℕ
bucket_cpi_depth depth =
    if nat_eq depth 0
    then 0
    else if nat_eq depth 1
    then 1
    else if leb 2 depth && leb depth 3
    then 2
    else if leb 4 depth && leb depth 7
    then 3
    else 4

unfoldable pub token_flow_code : TokenFlowShape → Text
token_flow_code unknown = codes "unk"
token_flow_code inbound_only = codes "in"
token_flow_code outbound_only = codes "out"
token_flow_code bidirectional = codes "bi"
token_flow_code no_movement = codes "none"

is_empty {ℓ} : {A : Type ℓ} → List A → Bool
is_empty [] = true
is_empty (x ∷ xs) = false

-- `show_key` prints a `Pubkey`.
unfoldable pub fingerprint_key : (Pubkey → Text) → InstructionSpec → TransitionObservation → Text
unfolding is_empty show bucket_cpi_depth token_flow_code
fingerprint_key show_key spec obs =
    codes "pid:"
    ++ (show_key spec.program_id
        ++ (codes "|acct:"
            ++ (show (length spec.accounts)
                ++ (codes "|wr:"
                    ++ (show (count (λ m. m.is_writable) spec.accounts)
                        ++ (codes "|sig:"
                            ++ (show (length spec.signer_indices)
                                ++ (codes "+"
                                    ++ (show (length spec.optional_signer_indices)
                                        ++ (codes "|own:"
                                            ++ (show (count is_some spec.expected_owners)
                                                ++ (codes "|disc:"
                                                    ++ (show (
                                                          count is_some
                                                            spec.expected_discriminators)
                                                        ++ (codes "|pda:"
                                                            ++ (show
                                                            (count is_some spec.expected_pda_seeds)
                                                            ++ (codes "|swap:"
                                                            ++ (show (
                                                            count (λ alts. not (is_empty alts))
                                                            spec.swap_alternates)
                                                            ++ (codes "|cpi:"
                                                            ++ (show
                                                            (bucket_cpi_depth obs.cpi_depth)
                                                            ++ (codes "|flow:"
                                                            ++ token_flow_code
                                                            obs.token_flow))))))))))))))))))))
