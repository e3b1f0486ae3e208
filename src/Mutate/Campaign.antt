-- ===== src/Mutate/Campaign.antt =====
-- crates/solinv-mutate/src/score.rs: a campaign's report, with the mutants that triage excludes and
-- the breakdown by invariant.
pub mod Exclusions
pub mod Breakdown
use solinv.Base.{
  filter, contains, Text, Groups, push_entry, not, List, [], ◌∷◌, map, ℕ_eq, list_eq, option_eq,
}
use solinv.Mutate.Mutant.{Mutant, uncovered_invariants}
use solinv.Mutate.Score.{
  MutantResult, is_survivor, Floats, Score, tally, KillCriterion, GateOutcome, evaluate,
}

pub record EquivalentMutant : Type 0 where
  pub mutant_id : Text
  pub reason : Text

unfoldable pub push_result : Groups MutantResult → MutantResult → Groups MutantResult
push_result m r = push_entry r.expected_killer r m

-- The loop of `per_invariant`.
unfoldable pub group_results : Groups MutantResult → List MutantResult → Groups MutantResult
unfolding push_result
group_results m [] = m
group_results m (r ∷ results) = group_results (push_result m r) results

unfoldable pub survived_ids : List MutantResult → List Text
unfolding is_survivor
survived_ids results = map (λ r. r.mutant_id) (filter is_survivor results)

-- The exclusions that name a survivor.
unfoldable pub honoured : List EquivalentMutant → List MutantResult → List EquivalentMutant
unfolding survived_ids
honoured equivalent results =
    filter (λ (e : EquivalentMutant). contains (survived_ids results) e.mutant_id) equivalent

abbrev pub excluded_ids : List EquivalentMutant → List Text
excluded_ids excluded = map (λ e. e.mutant_id) excluded

-- The results that are left to score.
unfoldable pub scored_results : List EquivalentMutant → List MutantResult → List MutantResult
unfolding honoured
scored_results equivalent results =
    filter
      (λ (r : MutantResult).
        not (contains (excluded_ids (honoured equivalent results)) r.mutant_id))
      results

module _ (fl : Floats) where
  pub record Campaign : Type 0 where
    pub target : Text
    pub criterion : KillCriterion fl
    pub mutants : List Mutant
    pub equivalent : List EquivalentMutant

  pub record CampaignReport : Type 0 where
    pub target : Text
    pub criterion : KillCriterion fl
    pub score : Score fl
    pub breakdown : List (Text × Score fl)
    pub gate : GateOutcome fl
    pub uncovered : List Text
    pub survivors : List Text
    pub raw_score : Score fl
    pub excluded_as_equivalent : List EquivalentMutant

  unfoldable pub per_invariant : List MutantResult → List (Text × Score fl)
  unfolding group_results
  per_invariant results = map (λ g. (g.0, tally fl g.1)) (group_results [] results)

  unfoldable pub build : Campaign → List MutantResult → CampaignReport
  unfolding scored_results per_invariant survived_ids
  build campaign results =
      let scored = scored_results campaign.equivalent results in
      record {
        target = campaign.target;
        criterion = campaign.criterion;
        score = tally fl scored;
        breakdown = per_invariant scored;
        gate = evaluate fl campaign.criterion (tally fl scored);
        uncovered = uncovered_invariants;
        survivors = survived_ids scored;
        raw_score = tally fl results;
        excluded_as_equivalent = honoured campaign.equivalent results;
      }
