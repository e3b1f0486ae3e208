-- ===== src/Mutate/Campaign/Breakdown.antt =====
-- score.rs: `per_invariant` as one tally for each invariant.
use solinv.Base.{
  nat_eq, if◌then◌else◌, Bool-cases, ◌==◌, length, filter, Text, Groups, push_entry, group_of,
  Ordered, push_entry-Ordered, group_of-push_entry, Full, push_entry-Full, ◌≡◌, refl, sym, ap, ◌∙◌,
  inl, inr, Bool, Option, none, some, List, [], ◌∷◌, ◌++◌, map, arith, ℕ_eq, list_eq, option_eq,
}
use mathlib.Core.List.{append-nil, append_assoc}
use solinv.Mutate.Score.{MutantResult, Floats, Score, tally}
use solinv.Mutate.Campaign.{push_result, group_results, per_invariant}

abbrev pub expects : Text → MutantResult → Bool
expects k r = r.expected_killer == k

group_results-Ordered :
    (m : Groups MutantResult) (results : List MutantResult)
    → Ordered m
    → Ordered (group_results m results)
unfolding group_results push_result
group_results-Ordered m [] h = h
group_results-Ordered m (r ∷ results) h =
    group_results-Ordered (push_entry r.expected_killer r m) results
      (push_entry-Ordered r.expected_killer r m h)

filter-step :
    (k : Text) (r : MutantResult) (results : List MutantResult)
    → (if r.expected_killer == k then r ∷ [] else []) ++ filter (expects k) results
      ≡ filter (expects k) (r ∷ results)
filter-step k r results = elim (Bool-cases (r.expected_killer == k)) [
  | inl mine ↦ rw mine refl
  | inr other ↦ rw other refl
]

group_of-group_results :
    (k : Text) (m : Groups MutantResult) (results : List MutantResult)
    → Ordered m
    → group_of k (group_results m results) ≡ group_of k m ++ filter (expects k) results
unfolding group_results push_result
group_of-group_results k m [] h = sym (append-nil (group_of k m))
group_of-group_results k m (r ∷ results) h =
    let pushed = push_entry r.expected_killer r m in
    let after =
      group_of-group_results k pushed results (push_entry-Ordered r.expected_killer r m h) in
    let here = group_of-push_entry r.expected_killer k r m h in
    after
    ∙ ap (◌++ filter (expects k) results) here
    ∙ append_assoc (group_of k m) _ (filter (expects k) results)
    ∙ ap (◌++◌ (group_of k m)) (filter-step k r results)

group_results-Full :
    (m : Groups MutantResult) (results : List MutantResult)
    → Full m
    → Full (group_results m results)
unfolding group_results push_result
group_results-Full m [] h = h
group_results-Full m (r ∷ results) h =
    group_results-Full (push_entry r.expected_killer r m) results
      (push_entry-Full r.expected_killer r m h)

module _ (fl : Floats) where
  -- `by[k]`, where there is an entry.
  abbrev pub score_of : Text → List (Text × Score fl) → Option (Score fl)
  score_of k [] = none
  score_of k ((k', s) ∷ scores) = if k' == k then some s else score_of k scores

  -- A tally, of anything.
  abbrev tally_if_any : List MutantResult → Option (Score fl)
  tally_if_any results = if nat_eq (length results) 0 then none else some (tally fl results)

  score_of-groups :
      (k : Text) (m : Groups MutantResult)
      → Full m
      → score_of k (map (λ g. (g.0, tally fl g.1)) m) ≡ tally_if_any (group_of k m)
  score_of-groups k [] h = ground arith
  score_of-groups k ((k', vs) ∷ m) h = elim (Bool-cases (k' == k)) [
    | inl mine ↦ rw mine (rw h.0 refl)
    | inr other ↦ rw other (score_of-groups k m h.1)
  ]

  -- For every invariant, `per_invariant` has the tally of exactly the results that expected it to
  -- kill, in their order, and no entry where there is no such result.
  pub per_invariant_lem :
      (results : List MutantResult) (k : Text)
      → score_of k (per_invariant fl results) ≡ (
          if nat_eq (length (filter (expects k) results)) 0
          then none
          else some (tally fl (filter (expects k) results)))
  unfolding per_invariant
  per_invariant_lem results k =
      score_of-groups k (group_results [] results) (group_results-Full [] results tt)
      ∙ ap tally_if_any (group_of-group_results k [] results tt)
