-- ===== src/Core/UncheckedMath/Rules.antt =====
-- What a state invariant of crates/solinv-core/src/invariants/unchecked_math.rs means, independently
-- of how `check_kind` finds a breach.
use solinv.Base.{
  All, u128_mod, ℕ, ◌+◌, ◌-◌, ◌≤◌, ◌<◌, max, ◌≡◌, refl, ◌↔◌, true, none, List, [], ◌∷◌, arith,
}
use solinv.Fuzz.Relation
use solinv.Fuzz.Relation.{
  RelTerm, RelOp, eq, le, lt, ge, gt, holds, MonotonicDir, non_decreasing, non_increasing,
  StateInvariantKind, sum_conservation, monotonic, bounded, relation,
}
use solinv.Core.UncheckedMath.{
  wrapping_sum, check_monotonic, check_bounded, check_relation, check_kind,
}

unfoldable pub sum : List ℕ → ℕ
sum [] = 0
sum (v ∷ vs) = v + sum vs

wrapping_sum_lem : (vs : List ℕ) → sum vs < u128_mod → wrapping_sum vs ≡ sum vs
unfolding wrapping_sum sum
wrapping_sum_lem [] h = refl
wrapping_sum_lem (v ∷ vs) h = omega (arith, wrapping_sum_lem vs (omega arith))

-- The order that a relation's operator asserts of two sums.
abbrev pub Holds : RelOp → ℕ → ℕ → ℕ → Type 0
Holds eq lhs rhs tolerance = (lhs ≤ rhs + tolerance) × (rhs ≤ lhs + tolerance)
Holds le lhs rhs tolerance = lhs ≤ rhs
Holds lt lhs rhs tolerance = lhs < rhs
Holds ge lhs rhs tolerance = rhs ≤ lhs
Holds gt lhs rhs tolerance = rhs < lhs

pub holds_iff :
    (op : RelOp) (lhs rhs tolerance : ℕ)
    → (Relation.holds op lhs rhs tolerance ≡ true) ↔ Holds op lhs rhs tolerance
unfolding Relation.holds
holds_iff eq lhs rhs tolerance = ground arith
holds_iff le lhs rhs tolerance = ground arith
holds_iff lt lhs rhs tolerance = ground arith
holds_iff ge lhs rhs tolerance = ground arith
holds_iff gt lhs rhs tolerance = ground arith

abbrev Moves : MonotonicDir → ℕ → ℕ → Type 0
Moves non_decreasing p q = p ≤ q
Moves non_increasing p q = q ≤ p

abbrev AllMove : MonotonicDir → List ℕ → List ℕ → Type 0
AllMove direction (p ∷ pre) (q ∷ post) = Moves direction p q × AllMove direction pre post
AllMove direction _ _ = Unit

-- The images agree with the declaration: the sum is kept, each value moves the right way or stays in
-- its range, or a relation that held still holds.
abbrev pub Respects : StateInvariantKind → List ℕ → List ℕ → Type 0
Respects (sum_conservation offset size tolerance) pre post =
    (sum pre ≤ sum post + tolerance) × (sum post ≤ sum pre + tolerance)
Respects (monotonic offset size direction) pre post = AllMove direction pre post
Respects (bounded offset size min max) pre post = All (λ q. (min ≤ q) × (q ≤ max)) post
Respects (relation lhs op rhs tolerance) (lp ∷ rp ∷ _) (lq ∷ rq ∷ _) =
    Holds op lp rp tolerance → Holds op lq rq tolerance
Respects (relation lhs op rhs tolerance) _ _ = Unit

check_monotonic_iff :
    (direction : MonotonicDir) (i : ℕ) (pre post : List ℕ)
    → (check_monotonic direction i pre post ≡ none) ↔ AllMove direction pre post
unfolding check_monotonic
check_monotonic_iff non_decreasing i (p ∷ pre) (q ∷ post) =
    ground (arith, check_monotonic_iff non_decreasing (i + 1) pre post)
check_monotonic_iff non_increasing i (p ∷ pre) (q ∷ post) =
    ground (arith, check_monotonic_iff non_increasing (i + 1) pre post)
check_monotonic_iff direction i (p ∷ pre) [] = ground arith
check_monotonic_iff direction i [] post = ground arith

check_bounded_iff :
    (min max i : ℕ) (post : List ℕ)
    → (check_bounded min max i post ≡ none) ↔ All (λ q. (min ≤ q) × (q ≤ max)) post
unfolding check_bounded
check_bounded_iff min max i [] = ground arith
check_bounded_iff min max i (q ∷ post) = ground (arith, check_bounded_iff min max (i + 1) post)

check_relation_iff :
    (lhs rhs : List RelTerm) (op : RelOp) (tolerance : ℕ) (pre post : List ℕ)
    → (check_relation lhs op rhs tolerance pre post ≡ none)
      ↔ Respects (relation lhs op rhs tolerance) pre post
unfolding check_relation
check_relation_iff lhs rhs op tolerance (lp ∷ rp ∷ pre) (lq ∷ rq ∷ post) =
    ground (arith, holds_iff op lp rp tolerance, holds_iff op lq rq tolerance)
check_relation_iff lhs rhs op tolerance (lp ∷ rp ∷ pre) (lq ∷ []) = ground arith
check_relation_iff lhs rhs op tolerance (lp ∷ rp ∷ pre) [] = ground arith
check_relation_iff lhs rhs op tolerance (lp ∷ []) post = ground arith
check_relation_iff lhs rhs op tolerance [] post = ground arith

-- Where neither sum of the values overflows a u128, `check_kind` finds no breach exactly when the
-- images before and after agree with the declared invariant, whatever its kind.
pub check_kind_iff :
    (kind : StateInvariantKind) (pre post : List ℕ)
    → sum pre < u128_mod
    → sum post < u128_mod
    → (check_kind kind pre post ≡ none) ↔ Respects kind pre post
unfolding check_kind
check_kind_iff (sum_conservation offset size tolerance) pre post hp hq =
    rw (wrapping_sum_lem pre hp, wrapping_sum_lem post hq) (ground arith)
check_kind_iff (monotonic offset size direction) pre post hp hq =
    check_monotonic_iff direction 0 pre post
check_kind_iff (bounded offset size min max) pre post hp hq = check_bounded_iff min max 0 post
check_kind_iff (relation lhs op rhs tolerance) pre post hp hq =
    check_relation_iff lhs rhs op tolerance pre post

-- A conservation check, whatever its tolerance, passes two fields that go from zero to two
-- values of u128 whose true sum is 2 ^ 128, since its sum wraps.
pub sum_conservation_wraps :
    (offset size tolerance v w : ℕ)
    → 0 < v
    → v < u128_mod
    → w ≡ u128_mod - v
    → check_kind (sum_conservation offset size tolerance) (0 ∷ 0 ∷ []) (v ∷ w ∷ []) ≡ none
unfolding check_kind
sum_conservation_wraps offset size tolerance v w z h e = ground arith
