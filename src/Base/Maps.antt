-- ===== src/Base/Maps.antt =====
-- Maps from texts: a look-up, and a `BTreeMap<String, Vec<V>>` that is filled by `entry(k).or_default().push(v)`, as a list of its
-- entries in the order of their keys.
use mathlib.Core.Logic.{inl, inr}
use mathlib.Core.Path.{◌≡◌, refl}
use mathlib.Core.Bool.{Bool, true, false, ◌||◌, ◌&&◌}
use mathlib.Core.List.{append-nil, List, [], ◌∷◌, ◌++◌}
use mathlib.Core.Option.{Option, none, some}
use native.Mathlib.Omega.{arith}
use solinv.Base.Tests.{ltb, nat_eq, if◌then◌else◌, Bool-cases}
use solinv.Base.Equality.{◌==◌, ℕ_eq, list_eq, eq_iff}
use solinv.Base.Lists.{length, All, length-append}
use solinv.Base.Buffers.{Text}

-- The order of `String`s; that of their UTF-8 bytes is that of their scalar values.
abbrev pub before : Text → Text → Bool
before [] [] = false
before [] (y ∷ ys) = true
before (x ∷ xs) [] = false
before (x ∷ xs) (y ∷ ys) = ltb x y || (nat_eq x y && before xs ys)

before_trans : (a b c : Text) → before a b ≡ true → before b c ≡ true → before a c ≡ true
before_trans [] [] c h k = absurd (ground (arith, h))
before_trans [] (y ∷ b) [] h k = absurd (ground (arith, k))
before_trans [] (y ∷ b) (z ∷ c) h k = refl
before_trans (x ∷ a) [] c h k = absurd (ground (arith, h))
before_trans (x ∷ a) (y ∷ b) [] h k = absurd (ground (arith, k))
before_trans (x ∷ a) (y ∷ b) (z ∷ c) h k = elim (Bool-cases (before a b)) [
  | inl ab ↦ elim (Bool-cases (before b c)) [
    | inl bc ↦ ground (arith, h, k, before_trans a b c ab bc)
    | inr nbc ↦ ground (arith, h, k, nbc)
  ]
  | inr nab ↦ ground (arith, h, k, nab)
]

before_irrefl : (a : Text) → before a a ≡ false
before_irrefl [] = refl
before_irrefl (x ∷ a) = ground (arith, before_irrefl a)

before-total : (a b : Text) → (a == b) ≡ false → before a b ≡ false → before b a ≡ true
before-total [] [] differs later = absurd (ground (arith, differs))
before-total [] (y ∷ b) differs later = absurd (ground (arith, later))
before-total (x ∷ a) [] differs later = refl
before-total (x ∷ a) (y ∷ b) differs later = elim (Bool-cases (a == b)) [
  | inl same ↦ ground (arith, same, differs, later)
  | inr apart ↦ elim (Bool-cases (before a b)) [
    | inl ab ↦ ground (arith, ab, differs, later)
    | inr nab ↦ ground (arith, apart, nab, differs, later, before-total a b apart nab)
  ]
]

abbrev pub Groups {ℓ} : Type ℓ → Type ℓ
Groups V = List (Text × List V)

module _ {ℓ} {V : Type ℓ} where
  -- `entry(k).or_default().push(v)`.
  unfoldable pub push_entry : Text → V → Groups V → Groups V
  push_entry k v [] = (k, v ∷ []) ∷ []
  push_entry k v ((k', vs) ∷ m) =
      let rest = push_entry k v m in
      if k == k'
      then (k', vs ++ (v ∷ [])) ∷ m
      else if before k k'
      then (k, v ∷ []) ∷ ((k', vs) ∷ m)
      else (k', vs) ∷ rest

  -- The group of a key, empty where there is none.
  abbrev pub group_of : Text → Groups V → List V
  group_of k [] = []
  group_of k ((k', vs) ∷ m) = if k' == k then vs else group_of k m

  -- Every key stands behind another.
  abbrev pub AllBehind : Text → Groups V → Type 0
  AllBehind k m = All (λ e. before k e.0 ≡ true) m

  abbrev pub Ordered : Groups V → Type 0
  Ordered [] = Unit
  Ordered ((k, vs) ∷ m) = AllBehind k m × Ordered m

  AllBehind-push :
      (k₀ k : Text) (v : V) (m : Groups V)
      → before k₀ k ≡ true
      → AllBehind k₀ m
      → AllBehind k₀ (push_entry k v m)
  unfolding push_entry
  AllBehind-push k₀ k v [] h all = (h, tt)
  AllBehind-push k₀ k v ((k', vs) ∷ m) h all =
      let rest = AllBehind-push k₀ k v m h all.1 in ground (arith, h, all, rest)

  AllBehind-trans :
      (k₀ k : Text) (m : Groups V) → before k₀ k ≡ true → AllBehind k m → AllBehind k₀ m
  AllBehind-trans k₀ k [] h all = tt
  AllBehind-trans k₀ k ((k', vs) ∷ m) h all =
      (before_trans k₀ k k' h all.0, AllBehind-trans k₀ k m h all.1)

  pub push_entry-Ordered :
      (k : Text) (v : V) (m : Groups V) → Ordered m → Ordered (push_entry k v m)
  unfolding push_entry
  push_entry-Ordered k v [] h = (tt, tt)
  push_entry-Ordered k v ((k', vs) ∷ m) h =
      let behind = AllBehind-push k' k v m in
      let trans = AllBehind-trans k k' m in
      let ordered = push_entry-Ordered k v m h.1 in
      elim (Bool-cases (k == k')) [
        | inl same ↦ rw same h
        | inr differs ↦ elim (Bool-cases (before k k')) [
          | inl first ↦ rw (differs, first) ((first, trans first h.0), h)
          | inr later ↦ rw (differs, later) (behind (before-total k k' differs later) h.0, ordered)
        ]
      ]

  AllBehind-group_of : (k : Text) (m : Groups V) → AllBehind k m → group_of k m ≡ []
  AllBehind-group_of k [] all = refl
  AllBehind-group_of k ((k', vs) ∷ m) all =
      let rest = AllBehind-group_of k m all.1 in
      elim (Bool-cases (k' == k)) [
        | inl same ↦ absurd (ground (arith, before_irrefl k, rw ((eq_iff k' k).0 same) at all.0))
        | inr differs ↦ rw differs rest
      ]

  -- Two keys that are equal, as a test and as values, in the case split that follows.
  group_of-push_entry_at :
      (k q k' : Text) (v : V) (vs : List V) (m : Groups V)
      → Ordered ((k', vs) ∷ m)
      → group_of q (push_entry k v m) ≡ group_of q m ++ (if k == q then v ∷ [] else [])
      → group_of q (push_entry k v ((k', vs) ∷ m))
        ≡ group_of q ((k', vs) ∷ m) ++ (if k == q then v ∷ [] else [])
  unfolding push_entry
  group_of-push_entry_at k q k' v vs m h rest = ground (
    arith,
    rest,
    append-nil vs,
    append-nil (group_of q m),
    eq_iff k k',
    eq_iff k q,
    eq_iff k' q,
    λ (b : before k k' ≡ true). AllBehind-group_of k m (AllBehind-trans k k' m b h.0),
  )

  pub group_of-push_entry :
      (k q : Text) (v : V) (m : Groups V)
      → Ordered m
      → group_of q (push_entry k v m) ≡ group_of q m ++ (if k == q then v ∷ [] else [])
  unfolding push_entry
  group_of-push_entry k q v [] h = ground arith
  group_of-push_entry k q v ((k', vs) ∷ m) h =
      group_of-push_entry_at k q k' v vs m h (group_of-push_entry k q v m h.1)

  -- No group is empty.
  abbrev pub Full : Groups V → Type 0
  Full m = All (λ e. nat_eq (length e.1) 0 ≡ false) m

  pub push_entry-Full : (k : Text) (v : V) (m : Groups V) → Full m → Full (push_entry k v m)
  unfolding push_entry
  push_entry-Full k v [] h = ground arith
  push_entry-Full k v ((k', vs) ∷ m) h =
      let rest = push_entry-Full k v m h.1 in
      let longer = length-append vs (v ∷ []) in ground (arith, h, rest, longer)

-- A map as a list of its entries, the latest first: the value of a key.
unfoldable pub look_up {ℓ} : {A : Type ℓ} → List (Text × A) → Text → Option A
look_up [] key = none
look_up ((k, a) ∷ entries) key = if k == key then some a else look_up entries key
