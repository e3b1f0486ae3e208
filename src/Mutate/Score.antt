-- ===== src/Mutate/Score.antt =====
-- crates/solinv-mutate/src/score.rs: the outcomes of mutants, their tally and the pre-committed gate.
-- `f64` is a parameter: the theorems hold of any arithmetic.
pub mod Counts
use solinv.Base.{
  ltb, nat_eq, if◌then◌else◌, ◌==◌, Text, codes, ℕ, ◌+◌, Bool, true, false, Option, none, some,
  List, [], ◌∷◌, ℕ_eq, list_eq, option_eq,
}

pub data MutantOutcome : Type 0 where
  -- `Killed { by }`
  killed_by : Text → MutantOutcome
  survived : MutantOutcome
  not_reached : MutantOutcome
  -- `BuildFailed { reason }`
  build_failed : Text → MutantOutcome
  -- `HarnessError { reason }`
  harness_error : Text → MutantOutcome

pub record MutantResult : Type 0 where
  pub mutant_id : Text
  pub expected_killer : Text
  pub outcome : MutantOutcome

unfoldable pub is_reached : MutantResult → Bool
is_reached r = elim r.outcome [
  | killed_by by ↦ true
  | survived ↦ true
  | not_reached ↦ false
  | build_failed reason ↦ false
  | harness_error reason ↦ false
]

unfoldable pub killed_as_expected : MutantResult → Bool
killed_as_expected r = elim r.outcome [
  | killed_by by ↦ by == r.expected_killer
  | survived ↦ false
  | not_reached ↦ false
  | build_failed reason ↦ false
  | harness_error reason ↦ false
]

-- `matches!(r.outcome, MutantOutcome::Survived)`.
unfoldable pub is_survivor : MutantResult → Bool
is_survivor r = elim r.outcome [
  | killed_by by ↦ false
  | survived ↦ true
  | not_reached ↦ false
  | build_failed reason ↦ false
  | harness_error reason ↦ false
]

-- The operations of `f64` that the source uses.
pub record Floats : Type 1 where
  pub Float : Type 0
  pub of_usize : ℕ → Float
  pub divide : Float → Float → Float
  pub at_least : Float → Float → Bool
  pub zero_float : Float

module _ (fl : Floats) where
  open fl use {Float, of_usize, divide, at_least, zero_float}

  pub record Score : Type 0 where
    pub killed : ℕ
    pub killed_by_expected : ℕ
    pub killed_by_other : ℕ
    pub survived_count : ℕ
    pub not_reached_count : ℕ
    pub build_failed_count : ℕ
    pub harness_error_count : ℕ
    pub denominator : ℕ
    pub score : Option Float

  abbrev pub empty_score : Score
  empty_score = record {
    killed = 0;
    killed_by_expected = 0;
    killed_by_other = 0;
    survived_count = 0;
    not_reached_count = 0;
    build_failed_count = 0;
    harness_error_count = 0;
    denominator = 0;
    score = none;
  }

  -- The body of the loop of `tally`.
  unfoldable pub tally_one : Score → MutantResult → Score
  unfolding killed_as_expected
  tally_one s r = elim r.outcome [
    | killed_by by ↦
        if killed_as_expected r
        then record s { killed = s.killed + 1; killed_by_expected = s.killed_by_expected + 1 }
        else record s { killed = s.killed + 1; killed_by_other = s.killed_by_other + 1 }
    | survived ↦ record s { survived_count = s.survived_count + 1 }
    | not_reached ↦ record s { not_reached_count = s.not_reached_count + 1 }
    | build_failed reason ↦ record s { build_failed_count = s.build_failed_count + 1 }
    | harness_error reason ↦ record s { harness_error_count = s.harness_error_count + 1 }
  ]

  unfoldable pub tally_all : Score → List MutantResult → Score
  unfolding tally_one
  tally_all s [] = s
  tally_all s (r ∷ results) = tally_all (tally_one s r) results

  -- The denominator and the score, once everything is counted.
  unfoldable pub finish_tally : Score → Score
  finish_tally s =
      let denominator = s.killed + s.survived_count in
      record s {
        denominator = denominator;
        score =
            if ltb 0 denominator
            then some (divide (of_usize s.killed) (of_usize denominator))
            else none;
      }

  unfoldable pub tally : List MutantResult → Score
  unfolding tally_all finish_tally
  tally results = finish_tally (tally_all empty_score results)

  unfoldable pub total : Score → ℕ
  total s = s.denominator + s.not_reached_count + s.build_failed_count + s.harness_error_count

  unfoldable pub excluded_fraction : Score → Float
  unfolding total
  excluded_fraction s =
      if nat_eq (total s) 0
      then zero_float
      else divide (of_usize (s.not_reached_count + s.build_failed_count + s.harness_error_count))
          (of_usize (total s))

  pub record KillCriterion : Type 0 where
    pub statement : Text
    pub min_score : Float
    pub min_reached : ℕ

  pub data GateOutcome : Type 0 where
    -- `Pass { score, reached }`
    pass : Float → ℕ → GateOutcome
    -- `Fail { score, reached }`
    fail : Float → ℕ → GateOutcome
    -- `Inconclusive { reached, required }`
    inconclusive : ℕ → ℕ → GateOutcome

  unfoldable pub evaluate : KillCriterion → Score → GateOutcome
  evaluate criterion s =
      if ltb s.denominator criterion.min_reached
      then inconclusive s.denominator criterion.min_reached
      else let value : Float = elim s.score [ some v ↦ v | none ↦ zero_float ] in
        if at_least value criterion.min_score
        then pass value s.denominator
        else fail value s.denominator

  unfoldable pub label : GateOutcome → Text
  label (pass value reached) = codes "PASS"
  label (fail value reached) = codes "FAIL"
  label (inconclusive reached required) = codes "INCONCLUSIVE"
