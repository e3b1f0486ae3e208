-- ===== src/Tests/Differential.antt =====
-- An Anchor program against its rewrite.
use solinv.Base.{
  nat_eq, if◌then◌else◌, is_some, ok, err, Bytes, Text, codes, show, ℕ, ◌-◌, ◌^◌, ◌≡◌, refl, ◌↔◌,
  false, not, ◌||◌, Option, none, some, List, [], ◌∷◌, ◌++◌, arith,
}
use solinv.Solana.{
  Pubkey, Account, TransactionError, insufficient_funds_for_rent, other_error, TxOutcome, success,
  program_error,
}
use solinv.Disclose.Divergence.{is_fault}
use solinv.Fuzz.Differential.{
  DiffAccountPair, from_outcome, bool_eq, check_outcomes, from_outcomes, regression, of_cu,
  first_difference, slice_panic, body_of, both_bodies, compare_bodies, read_pair_bodies,
  check_pair_equivalent, check_all_pairs,
}
use solinv.Fuzz.Differential.Bodies.{Promises, check_all_pairs-Promises}
use solinv.Fuzz.Differential.Faults.{SameOutcome, check_outcomes-none_iff, is_fault-of_cu}

abbrev with_contents : Bytes → Account
with_contents contents = record {
  lamports = 1;
  contents = contents;
  owner = 50;
  executable = false;
  rent_epoch = 0;
}

-- Key 1 has the discriminator that key 2 has not, and their bodies part at the second byte.
abbrev account_at : Pubkey → Option Account
account_at pk =
    if nat_eq pk 1
    then some (with_contents (11 ∷ 11 ∷ 11 ∷ 11 ∷ 11 ∷ 11 ∷ 11 ∷ 11 ∷ 5 ∷ 6 ∷ []))
    else if nat_eq pk 2
    then some (with_contents (5 ∷ 7 ∷ []))
    else none

abbrev pool_pairs : List DiffAccountPair
pool_pairs =
    record {
      label = codes "pool";
      anchor = 1;
      anchor_offset = 8;
      pino = 2;
      pino_offset = 0;
      body_size = 2;
    }
    ∷ []

check_all_pairs-Promises_example :
    Promises account_at pool_pairs (check_all_pairs account_at pool_pairs)
check_all_pairs-Promises_example = check_all_pairs-Promises account_at pool_pairs

pool_parts :
    check_all_pairs account_at pool_pairs
    ≡ ok (
        some (record {
          label = codes "pool";
          first_byte = 1;
          anchor_byte = 6;
          pino_byte = 7;
          body_size = 2;
        }))
unfolding check_all_pairs check_pair_equivalent read_pair_bodies body_of both_bodies compare_bodies
    first_difference
pool_parts = refl

-- An offset and a size that wrap to 2 pass the length test of both accounts.
abbrev wrapped_pair : DiffAccountPair
wrapped_pair = record {
  label = codes "pool";
  anchor = 1;
  anchor_offset = 2 ^ 64 - 6;
  pino = 2;
  pino_offset = 2 ^ 64 - 6;
  body_size = 8;
}

wrapped_panics : check_all_pairs account_at (wrapped_pair ∷ []) ≡ err slice_panic
unfolding check_all_pairs check_pair_equivalent read_pair_bodies body_of both_bodies
wrapped_panics = refl

abbrev debug_error : TransactionError → Text
debug_error (insufficient_funds_for_rent i) = codes "InsufficientFundsForRent"
debug_error (other_error e) = codes "Error" ++ show e

abbrev rejected : Option ℕ → TxOutcome
rejected code = program_error [] (other_error 3) code

check_outcomes-none_iff_example :
    (check_outcomes debug_error (codes "swap") (rejected (some 6001)) (rejected (some 6002)) ≡ none)
    ↔ SameOutcome debug_error (rejected (some 6001)) (rejected (some 6002))
check_outcomes-none_iff_example =
    check_outcomes-none_iff debug_error (codes "swap") (rejected (some 6001)) (rejected (some 6002))

abbrev success_units : TxOutcome → Option ℕ
success_units (success logs units) = some units
success_units (program_error logs error code) = none

is_fault-of_cu_example :
    is_fault
      (of_cu (from_outcomes success_units (codes "swap") (success [] 3900) (success [] 12400)))
    ≡ (is_some (regression success_units (codes "swap") (success [] 3900) (success [] 12400))
        || not (
            bool_eq
              (from_outcome debug_error (success [] 3900)).accepts
              (from_outcome debug_error (success [] 12400)).accepts))
is_fault-of_cu_example =
    is_fault-of_cu success_units debug_error (codes "swap") (success [] 3900) (success [] 12400)
      (3900, (refl, omega arith)) (12400, (refl, omega arith))
