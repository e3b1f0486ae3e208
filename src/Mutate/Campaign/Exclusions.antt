-- ===== src/Mutate/Campaign/Exclusions.antt =====
-- score.rs: what excluding equivalent mutants can change in a report.
use solinv.Base.{
  if◌then◌else◌, Bool-cases, ◌==◌, eq_iff, filter, count, All, All-map, contains, Text, ◌+◌, ◌≡◌,
  refl, sym, ◌∙◌, inl, inr, Bool, true, false, not, ◌&&◌, List, [], ◌∷◌, map, arith, ℕ_eq, list_eq,
  option_eq,
}
use mathlib.Core.Path.{subst}
use solinv.Mutate.Score.{
  MutantOutcome, killed_by, survived, not_reached, build_failed, harness_error, MutantResult,
  is_reached, killed_as_expected, is_survivor, Floats,
}
use solinv.Mutate.Campaign.{
  EquivalentMutant, survived_ids, honoured, excluded_ids, scored_results, Campaign, build,
}
use solinv.Mutate.Score.Counts.{tally_lem, tally-denominator}

-- No two results share a mutant id.
abbrev pub distinct_ids : List MutantResult → Bool
distinct_ids [] = true
distinct_ids (r ∷ results) =
    not (contains (map (λ (s : MutantResult). s.mutant_id) results) r.mutant_id)
    && distinct_ids results

survived_ids-among :
    (i : Text) (results : List MutantResult)
    → contains (survived_ids results) i ≡ true
    → contains (map (λ (r : MutantResult). r.mutant_id) results) i ≡ true
unfolding survived_ids
survived_ids-among i [] h = h
survived_ids-among i (r ∷ results) h = elim (Bool-cases (contains (survived_ids results) i)) [
  | inl later ↦ ground (arith, survived_ids-among i results later)
  | inr never ↦ ground (arith, never, h)
]

-- Where the id of a result is that of a survivor, the result is the survivor.
abbrev Decides : List Text → List MutantResult → Type 0
Decides ids results =
    All (λ (r : MutantResult). (contains ids r.mutant_id ≡ true) → is_survivor r ≡ true) results

absent-All :
    (i : Text) (ids : List Text) (results : List MutantResult)
    → contains (map (λ (r : MutantResult). r.mutant_id) results) i ≡ false
    → Decides ids results
    → Decides (i ∷ ids) results
absent-All i ids [] h decides = tt
absent-All i ids (r ∷ results) h decides = (
  λ found. ground (arith, h, found, decides.0, eq_iff i r.mutant_id, eq_iff r.mutant_id i),
  absent-All i ids results (ground (arith, h)) decides.1,
)

survived_ids-step :
    (r : MutantResult) (results : List MutantResult)
    → survived_ids (r ∷ results)
      ≡ (if is_survivor r then r.mutant_id ∷ survived_ids results else survived_ids results)
unfolding survived_ids
survived_ids-step r results = elim (Bool-cases (is_survivor r)) [
  | inl survives ↦ rw survives refl
  | inr dies ↦ rw dies refl
]

survived_ids-Decides :
    (results : List MutantResult)
    → distinct_ids results ≡ true
    → Decides (survived_ids results) results
survived_ids-Decides [] h = tt
survived_ids-Decides (r ∷ results) h =
    let later = survived_ids-Decides results (ground (arith, h)) in
    let among = survived_ids-among r.mutant_id results in
    elim (Bool-cases (is_survivor r)) [
      | inl survives ↦
          let ids : survived_ids (r ∷ results) ≡ r.mutant_id ∷ survived_ids results =
            survived_ids-step r results ∙ rw survives refl in
          subst (λ is. Decides is (r ∷ results)) (sym ids)
            (
              (λ found. survives),
              absent-All r.mutant_id (survived_ids results) results (ground (arith, h)) later,
            )
      | inr dies ↦
          let ids : survived_ids (r ∷ results) ≡ survived_ids results =
            survived_ids-step r results ∙ rw dies refl in
          subst (λ is. Decides is (r ∷ results)) (sym ids)
            ((λ found. absurd (ground (arith, h, among found))), later)
    ]

honoured-survive :
    (equivalent : List EquivalentMutant) (results : List MutantResult) (i : Text)
    → contains (excluded_ids (honoured equivalent results)) i ≡ true
    → contains (survived_ids results) i ≡ true
unfolding honoured
honoured-survive [] results i h = absurd (ground (arith, h))
honoured-survive (e ∷ equivalent) results i h =
    let rest = honoured-survive equivalent results i in
    elim (Bool-cases (contains (survived_ids results) e.mutant_id)) [
      | inl named ↦ elim (Bool-cases (e.mutant_id == i)) [
        | inl here ↦ rw ((eq_iff e.mutant_id i).0 here) at named
        | inr there ↦ rest (ground (arith, named, there, h))
      ]
      | inr stale ↦ rest (ground (arith, stale, h))
    ]

-- A filter that drops only elements of one kind changes the counts by what it drops.
module _ {ℓ} {A : Type ℓ} (drops : A → Bool) where
  count-kept-All :
      (p : A → Bool) (xs : List A)
      → All (λ x. (drops x ≡ true) → p x ≡ true) xs
      → count p xs ≡ count p (filter (λ x. not (drops x)) xs) + count drops xs
  count-kept-All p [] h = omega arith
  count-kept-All p (x ∷ xs) h = ground (arith, h.0, count-kept-All p xs h.1)

  count-kept_none :
      (p : A → Bool) (xs : List A)
      → All (λ x. (drops x ≡ true) → p x ≡ false) xs
      → count p xs ≡ count p (filter (λ x. not (drops x)) xs)
  count-kept_none p [] h = omega arith
  count-kept_none p (x ∷ xs) h = ground (arith, h.0, count-kept_none p xs h.1)

is_survivor-kinds_at :
    (r : MutantResult) (o : MutantOutcome)
    → r.outcome ≡ o
    → is_survivor r ≡ true
    → (is_reached r ≡ true) × (killed_as_expected r ≡ false)
unfolding is_survivor is_reached killed_as_expected
is_survivor-kinds_at r survived same h = rw same (ground arith)
is_survivor-kinds_at r (killed_by by) same h = absurd (ground (arith, rw same at h))
is_survivor-kinds_at r not_reached same h = absurd (ground (arith, rw same at h))
is_survivor-kinds_at r (build_failed reason) same h = absurd (ground (arith, rw same at h))
is_survivor-kinds_at r (harness_error reason) same h = absurd (ground (arith, rw same at h))

is_survivor-kinds :
    (r : MutantResult)
    → is_survivor r ≡ true
    → (is_reached r ≡ true) × (killed_as_expected r ≡ false)
is_survivor-kinds r = is_survivor-kinds_at r r.outcome refl

-- The test by which `scored_results` drops a result.
abbrev is_excluded : List EquivalentMutant → List MutantResult → MutantResult → Bool
is_excluded equivalent results r = contains (excluded_ids (honoured equivalent results)) r.mutant_id

excluded-survive :
    (equivalent : List EquivalentMutant) (results rest : List MutantResult)
    → Decides (survived_ids results) rest
    → All
        (λ (r : MutantResult). (is_excluded equivalent results r ≡ true) → is_survivor r ≡ true)
        rest
excluded-survive equivalent results [] h = tt
excluded-survive equivalent results (r ∷ rest) h = (
  λ excluded. h.0 (honoured-survive equivalent results r.mutant_id excluded),
  excluded-survive equivalent results rest h.1,
)

module _ (fl : Floats) where
  -- Where no two results share an id, a report counts as many kills, and as many by the predicted
  -- invariant, as its raw score; its denominator is the raw one less the results that the exclusions
  -- name, which all survived.
  pub build-exclusions :
      (campaign : Campaign fl) (results : List MutantResult)
      → distinct_ids results ≡ true
      → ((build fl campaign results).score.killed ≡ (build fl campaign results).raw_score.killed)
        × ((build fl campaign results).score.killed_by_expected
            ≡ (build fl campaign results).raw_score.killed_by_expected)
        × ((build fl campaign results).raw_score.denominator
            ≡ (build fl campaign results).score.denominator
              + count
                  (λ r.
                    contains
                      (excluded_ids (build fl campaign results).excluded_as_equivalent)
                      r.mutant_id)
                  results)
  unfolding build scored_results
  build-exclusions campaign results distinct =
      let scored = scored_results campaign.equivalent results in
      let drops = is_excluded campaign.equivalent results in
      let survive =
        excluded-survive campaign.equivalent results results
          (survived_ids-Decides results distinct) in
      ground (
        arith,
        tally_lem fl results,
        tally_lem fl scored,
        tally-denominator fl results,
        tally-denominator fl scored,
        count-kept-All drops is_survivor results survive,
        count-kept-All drops is_reached results
            (All-map _ _ results (λ r h d. (is_survivor-kinds r (h d)).0) survive),
        count-kept_none drops killed_as_expected results
            (All-map _ _ results (λ r h d. (is_survivor-kinds r (h d)).1) survive),
      )
