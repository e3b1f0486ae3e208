-- ===== src/Mutate/Score/Counts.antt =====
-- score.rs: what each figure of a tally counts.
use solinv.Base.{
  Bool-cases, ◌==◌, length, count, ◌+◌, ◌≡◌, refl, ◌↔◌, inl, inr, none, List, [], ◌∷◌, arith, ℕ_eq,
  list_eq, option_eq,
}
use solinv.Mutate.Score.{
  MutantOutcome, killed_by, survived, not_reached, build_failed, harness_error, MutantResult,
  is_reached, killed_as_expected, is_survivor, Floats, Score, empty_score, tally_one, tally_all,
  finish_tally, tally, total,
}

module _ (fl : Floats) where
  -- What the loop has added to the counters that the denominator, the attribution and the total use.
  abbrev Grown : Score fl → List MutantResult → Score fl → Type 0
  Grown s results t =
      (t.killed + t.survived_count ≡ s.killed + s.survived_count + count is_reached results)
      × (t.killed_by_expected ≡ s.killed_by_expected + count killed_as_expected results)
      × (t.survived_count ≡ s.survived_count + count is_survivor results)
      × (t.killed + s.killed_by_expected + s.killed_by_other
          ≡ s.killed + t.killed_by_expected + t.killed_by_other)
      × (t.killed + t.survived_count + t.not_reached_count + t.build_failed_count
            + t.harness_error_count
          ≡ s.killed
            + s.survived_count
            + s.not_reached_count
            + s.build_failed_count
            + s.harness_error_count
            + length results)

  tally_one-Grown_at :
      (s : Score fl) (r : MutantResult) (o : MutantOutcome)
      → r.outcome ≡ o
      → Grown s (r ∷ []) (tally_one fl s r)
  unfolding tally_one killed_as_expected is_reached is_survivor
  tally_one-Grown_at s r (killed_by by) same = elim (Bool-cases (by == r.expected_killer)) [
    | inl predicted ↦ rw same (rw predicted (ground arith))
    | inr incidental ↦ rw same (rw incidental (ground arith))
  ]
  tally_one-Grown_at s r survived same = rw same (ground arith)
  tally_one-Grown_at s r not_reached same = rw same (ground arith)
  tally_one-Grown_at s r (build_failed reason) same = rw same (ground arith)
  tally_one-Grown_at s r (harness_error reason) same = rw same (ground arith)

  tally_one-Grown : (s : Score fl) (r : MutantResult) → Grown s (r ∷ []) (tally_one fl s r)
  tally_one-Grown s r = tally_one-Grown_at s r r.outcome refl

  tally_all-Grown :
      (s : Score fl) (results : List MutantResult) → Grown s results (tally_all fl s results)
  unfolding tally_all
  tally_all-Grown s [] = ground arith
  tally_all-Grown s (r ∷ results) =
      ground (arith, tally_one-Grown s r, tally_all-Grown (tally_one fl s r) results)

  -- Of every list of results, `tally` counts as denominator the results that are reached, as
  -- survivors those that survived, splits the kills into those by the predicted invariant and the
  -- others, has a score exactly when something was reached, and totals to the number of results.
  pub tally_lem :
      (results : List MutantResult)
      → ((tally fl results).denominator ≡ count is_reached results)
        × ((tally fl results).survived_count ≡ count is_survivor results)
        × ((tally fl results).killed_by_expected ≡ count killed_as_expected results)
        × ((tally fl results).killed
            ≡ (tally fl results).killed_by_expected + (tally fl results).killed_by_other)
        × (((tally fl results).score ≡ none) ↔ (count is_reached results ≡ 0))
        × (total fl (tally fl results) ≡ length results)
  unfolding tally finish_tally total
  tally_lem results = ground (arith, tally_all-Grown (empty_score fl) results)

  pub tally-denominator :
      (results : List MutantResult)
      → (tally fl results).denominator
        ≡ (tally fl results).killed + (tally fl results).survived_count
  unfolding tally finish_tally
  tally-denominator results = refl
