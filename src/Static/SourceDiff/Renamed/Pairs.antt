-- ===== src/Static/SourceDiff/Renamed/Pairs.antt =====
-- diff.rs: which instruction of the head version one of the base version is compared with.
use solinv.Base.{
  Option-cases, ◌==◌, eq_iff, concat_map, All, All-map, contains, All-concat_map, All-filter, Text,
  look_up, sort_by, All-sort_by, ◌≡◌, sym, ◌∙◌, ◌≢◌, ◌⊎◌, inl, inr, true, false, not, some, List,
  [], ◌∷◌, arith, ℕ_eq, list_eq, option_eq,
}
use solinv.Static.Source.{SourceKinds, ix_names}
use solinv.Static.SourceDiff.Renamed.{
  Scored, score, scores_before, settle, only_of, scored_pairs, renamed, name_in_head,
}

abbrev pub Pairs : Type 0
Pairs = List (Text × Text)

-- Neither side of a pair stands in another one.
abbrev pub Matching : Pairs → Type 0
Matching [] = Unit
Matching ((o, n) ∷ rs) =
    All (λ (r : Text × Text). ((o == r.0) ≡ false) × ((n == r.1) ≡ false)) rs × Matching rs

abbrev Unsettled : List Text → List Text → Text × Text → Type 0
Unsettled settled taken r = (contains settled r.0 ≡ false) × (contains taken r.1 ≡ false)

settle-Unsettled :
    (scored : List Scored) (settled taken : List Text) (xs : List Scored)
    → All (Unsettled settled taken) (settle scored settled taken xs)
unfolding settle
settle-Unsettled scored settled taken [] = tt
settle-Unsettled scored settled taken (x ∷ xs) =
    let skipped = settle-Unsettled scored settled taken xs in
    let later : All (Unsettled settled taken) (settle scored (x.old ∷ settled) (x.new ∷ taken) xs) =
      All-map _ _ _ (λ r h. ground (arith, h.0, h.1))
        (settle-Unsettled scored (x.old ∷ settled) (x.new ∷ taken) xs) in
    ground (arith, skipped, later)

settle-Matching :
    (scored : List Scored) (settled taken : List Text) (xs : List Scored)
    → Matching (settle scored settled taken xs)
unfolding settle
settle-Matching scored settled taken [] = tt
settle-Matching scored settled taken (x ∷ xs) =
    let skipped = settle-Matching scored settled taken xs in
    let rest = settle-Matching scored (x.old ∷ settled) (x.new ∷ taken) xs in
    let apart : All (λ (r : Text × Text). ((x.old == r.0) ≡ false) × ((x.new == r.1) ≡ false))
        (settle scored (x.old ∷ settled) (x.new ∷ taken) xs) =
      All-map _ _ _ (λ r h. ground (arith, h.0, h.1))
        (settle-Unsettled scored (x.old ∷ settled) (x.new ∷ taken) xs) in
    ground (arith, skipped, rest, apart)

settle-All :
    (P : Text → Text → Type 0) (scored : List Scored) (settled taken : List Text) (xs : List Scored)
    → All (λ (x : Scored). P x.old x.new) xs
    → All (λ (r : Text × Text). P r.0 r.1) (settle scored settled taken xs)
unfolding settle
settle-All P scored settled taken [] h = tt
settle-All P scored settled taken (x ∷ xs) h = ground (
  arith,
  h.0,
  settle-All P scored settled taken xs h.1,
  settle-All P scored (x.old ∷ settled) (x.new ∷ taken) xs h.1,
)

look_up-value :
    (Q : Text → Type 0) (rs : Pairs) (key n : Text)
    → All (λ (r : Text × Text). Q r.1) rs
    → look_up rs key ≡ some n
    → Q n
unfolding look_up
look_up-value Q [] key n h found = absurd (ground arith)
look_up-value Q ((k, v) ∷ rs) key n h found =
    ground (arith, h.0, look_up-value Q rs key n h.1, found)

look_up-apart :
    (rs : Pairs) (o v n key : Text) → Matching ((o, v) ∷ rs) → look_up rs key ≡ some n → v ≢ n
look_up-apart rs o v n key m found same =
    let apart =
      look_up-value (λ w. (v == w) ≡ false) rs key n (All-map _ _ rs (λ r h. h.1) m.0) found in
    let equals = (eq_iff v n).1 same in ground (arith, apart, equals)

-- Two keys of a matching that find one value are one key.
look_up-injective :
    (rs : Pairs) (a b n : Text)
    → Matching rs
    → look_up rs a ≡ some n
    → look_up rs b ≡ some n
    → a ≡ b
unfolding look_up
look_up-injective [] a b n m ha hb = absurd (ground arith)
look_up-injective ((k, v) ∷ rs) a b n m ha hb = ground (
  arith,
  eq_iff k a,
  eq_iff k b,
  look_up-apart rs k v n a m,
  look_up-apart rs k v n b m,
  look_up-injective rs a b n m.1,
  ha,
  hb,
)

module _ (base head : SourceKinds) where
  abbrev GoneToNew : Text → Text → Type 0
  GoneToNew o n = (contains (ix_names head) o ≡ false) × (contains (ix_names base) n ≡ false)

  renamed-Matching : Matching (renamed base head)
  unfolding renamed
  renamed-Matching =
      let scored = sort_by scores_before (scored_pairs base head) in
      settle-Matching scored [] [] scored

  not_contained : (xs ys : List Text) → All (λ n. contains xs n ≡ false) (only_of xs ys)
  not_contained xs ys =
      All-map _ _ _ (λ n h. ground (arith, h)) (All-filter (λ n. not (contains xs n)) ys)

  score-GoneToNew :
      (o n : Text)
      → GoneToNew o n
      → All (λ (x : Scored). GoneToNew x.old x.new) (score base head o n)
  unfolding score
  score-GoneToNew o n h = ground (arith, h)

  scored_pairs-GoneToNew : All (λ (x : Scored). GoneToNew x.old x.new) (scored_pairs base head)
  unfolding scored_pairs
  scored_pairs-GoneToNew =
      let gone = only_of (ix_names head) (ix_names base) in
      let new = only_of (ix_names base) (ix_names head) in
      All-concat_map _ (λ o. contains (ix_names head) o ≡ false)
        (λ o. concat_map (score base head o) new) gone
        (λ o ho.
          All-concat_map _ (λ n. contains (ix_names base) n ≡ false) (score base head o) new
            (λ n hn. score-GoneToNew o n (ho, hn)) (not_contained (ix_names base) (ix_names head)))
        (not_contained (ix_names head) (ix_names base))

  renamed-GoneToNew : All (λ (r : Text × Text). GoneToNew r.0 r.1) (renamed base head)
  unfolding renamed
  renamed-GoneToNew =
      let scored = sort_by scores_before (scored_pairs base head) in
      settle-All GoneToNew scored [] [] scored (
        All-sort_by scores_before (λ (x : Scored). GoneToNew x.old x.new) (scored_pairs base head)
          scored_pairs-GoneToNew)

  renamed_to-new :
      (a n : Text) → look_up (renamed base head) a ≡ some n → contains (ix_names base) n ≡ false
  renamed_to-new a n found =
      look_up-value (λ v. contains (ix_names base) v ≡ false) (renamed base head) a n
        (All-map _ _ (renamed base head) (λ r h. h.1) renamed-GoneToNew) found

  name_in_head-cases :
      (a n : Text)
      → name_in_head (renamed base head) head a ≡ some n
      → (look_up (renamed base head) a ≡ some n) ⊎ (a ≡ n)
  unfolding name_in_head
  name_in_head-cases a n h = elim (Option-cases (look_up (renamed base head) a)) [
    | inl missing ↦ ground (arith, missing, h)
    | inr (m, found) ↦ ground (arith, found, h)
  ]

  -- Two instructions of the base version are never compared with one of the head version, whether it
  -- has their name or they were renamed to it.
  pub name_in_head-injective :
      (a b n : Text)
      → contains (ix_names base) a ≡ true
      → contains (ix_names base) b ≡ true
      → name_in_head (renamed base head) head a ≡ some n
      → name_in_head (renamed base head) head b ≡ some n
      → a ≡ b
  name_in_head-injective a b n ina inb ha hb = elim (name_in_head-cases a n ha) [
    | inl to_a ↦ elim (name_in_head-cases b n hb) [
      | inl to_b ↦ look_up-injective (renamed base head) a b n renamed-Matching to_a to_b
      | inr own_b ↦ ground (arith, own_b, inb, renamed_to-new a n to_a)
    ]
    | inr own_a ↦ elim (name_in_head-cases b n hb) [
      | inl to_b ↦ ground (arith, own_a, ina, renamed_to-new b n to_b)
      | inr own_b ↦ own_a ∙ sym own_b
    ]
  ]
