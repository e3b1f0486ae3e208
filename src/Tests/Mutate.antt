-- ===== src/Tests/Mutate.antt =====
-- The theorems on scores, reports and mutants.
use solinv.Base.{
  ltb, leb, if◌then◌else◌, Bool-cases, length, count, All, contains, ok, Bytes, Text, codes, ℕ, ◌+◌,
  ◌*◌, ◌≡◌, refl, inl, inr, true, none, some, List, [], ◌∷◌, arith, ℕ_eq, list_eq, option_eq,
}
use solinv.Mutate.Score.{
  MutantOutcome, killed_by, survived, not_reached, MutantResult, Floats, tally,
}
use solinv.Mutate.Campaign.{excluded_ids, Campaign, per_invariant, build}
use solinv.Mutate.Campaign.Breakdown.{score_of, per_invariant_lem}
use solinv.Mutate.Campaign.Exclusions.{build-exclusions}
use solinv.Mutate.Mutant.{
  high, MutationOperator, Mutant, Regexes, new_mutant, cut, cut_all, generate_file,
}
use solinv.Mutate.Mutant.Applies.{Plants, IsSpan, generate_file-Plants}

-- Fractions, as a numerator and a denominator, in place of `f64`.
abbrev fractions : Floats
fractions = record {
  Float = ℕ × ℕ;
  of_usize = λ n. (n, 1);
  divide = λ a b. (a.0 * b.1, a.1 * b.0);
  at_least = λ a b. leb (b.0 * a.1) (a.0 * b.1);
  zero_float = (0, 1);
}

abbrev result : ℕ → MutantOutcome → MutantResult
result n outcome = record {
  mutant_id = n ∷ [];
  expected_killer = codes "cu-dos";
  outcome = outcome;
}

abbrev results : List MutantResult
results =
    result 1 (killed_by (codes "cu-dos"))
    ∷ result 2 survived
    ∷ result 3 (killed_by (codes "pda-forge"))
    ∷ result 4 not_reached
    ∷ result 5 survived
    ∷ []

per_invariant_lem_example :
    score_of fractions (codes "cu-dos") (per_invariant fractions results)
    ≡ some (tally fractions results)
per_invariant_lem_example = per_invariant_lem fractions results (codes "cu-dos")

abbrev campaign : Campaign fractions
campaign = record {
  target = codes "amm";
  criterion = record { statement = []; min_score = (1, 2); min_reached = 2 };
  mutants = [];
  equivalent =
      record { mutant_id = 2 ∷ []; reason = codes "unreachable" }
      ∷ record { mutant_id = 1 ∷ []; reason = codes "killed" }
      ∷ [];
}

build-exclusions_example :
    ((build fractions campaign results).score.killed
      ≡ (build fractions campaign results).raw_score.killed)
    × ((build fractions campaign results).score.killed_by_expected
        ≡ (build fractions campaign results).raw_score.killed_by_expected)
    × ((build fractions campaign results).raw_score.denominator
        ≡ (build fractions campaign results).score.denominator
          + count
              (λ r.
                contains
                  (excluded_ids (build fractions campaign results).excluded_as_equivalent)
                  r.mutant_id)
              results)
build-exclusions_example = build-exclusions fractions campaign results refl

-- One pattern, which matches the second byte of a text.
abbrev second_byte : Regexes
second_byte = record {
  compiles = λ pattern. true;
  find_iter = λ pattern contents. if ltb 1 (length contents) then (1, 2) ∷ [] else [];
  replace = λ pattern replacement original. replacement;
  last_fn = λ contents. none;
  last_struct = λ contents. none;
  handler_taking_context = λ contents name. none;
}

second_byte-IsSpan :
    (pattern : Text) (text : Bytes) → All (IsSpan text) (second_byte.find_iter pattern text)
second_byte-IsSpan pattern text = elim (Bool-cases (ltb 1 (length text))) [
  | inl long ↦ rw (long, All) ((omega arith, ground (arith, long)), tt)
  | inr short ↦ rw (short, All) tt
]

abbrev operator : MutationOperator
operator = record {
  id = codes "drop";
  description = [];
  expected_killer = codes "cu-dos";
  tier = high;
  pattern = [];
  replacement = 9 ∷ [];
  rationale = [];
}

abbrev source : Bytes
source = 1 ∷ 2 ∷ 3 ∷ []

abbrev planted : Mutant
planted = new_mutant second_byte (codes "lib.rs") source operator 0 (1, 2)

generated : generate_file second_byte (codes "lib.rs") source (operator ∷ []) ≡ ok (planted ∷ [])
unfolding generate_file cut_all cut
generated = refl

generate_file-Plants_example : All (Plants source) (planted ∷ [])
generate_file-Plants_example =
    generate_file-Plants second_byte second_byte-IsSpan (codes "lib.rs") source (operator ∷ [])
      (planted ∷ []) generated
