-- ===== src/Fuzz/Differential/Bodies.antt =====
-- The walk over the declared pairs in differential.rs, against what it is to find.
use mathlib.Core.Path.{subst}
use solinv.Base.{
  ltb, nat_eq, Bool-cases, Option-cases, length, get_elem?, take, drop, length-take, length-drop,
  All, Result, ok, err, Result-cases, u64_mod, Bytes, slice, before, ℕ, suc, ◌+◌, ◌-◌, ◌≤◌, ◌≡◌,
  refl, sym, ap, ◌∙◌, ◌≢◌, ◌⊎◌, inl, inr, Option, none, some, List, [], ◌∷◌, arith,
}
use solinv.Fuzz.Differential.{
  DiffAccountPair, BodyDivergence, first_difference, too_short, overruns, held, Panic, body_of,
  both_bodies, compare_bodies, read_pair_bodies, check_pair_equivalent, check_all_pairs,
}
use solinv.Solana.{Pubkey, Account}

-- The two buffers agree before `i`, and hold `x` and `y` there, which differ.
abbrev pub PartAt : Bytes → Bytes → ℕ → ℕ → ℕ → Type 0
PartAt a p i x y =
    (take i a ≡ take i p) × ((get_elem? a i ≡ some x) × ((get_elem? p i ≡ some y) × (x ≢ y)))

first_difference-none : (a p : Bytes) → length a ≡ length p → first_difference a p ≡ none → a ≡ p
unfolding first_difference
first_difference-none [] [] same h = refl
first_difference-none [] (y ∷ p) same h = absurd (omega arith)
first_difference-none (x ∷ a) [] same h = absurd (omega arith)
first_difference-none (x ∷ a) (y ∷ p) same h = elim (Option-cases (first_difference a p)) [
  | inl e ↦ ground (arith, h, first_difference-none a p (omega arith) e)
  | inr (i, e) ↦ ground (arith, h, e)
]

abbrev PartsAt : Bytes → Bytes → ℕ → Type 0
PartsAt a p i = (x : ℕ) × (y : ℕ) × PartAt a p i x y

PartsAt-suc :
    (x y : ℕ) (a p : Bytes) (i : ℕ) → x ≡ y → PartsAt a p i → PartsAt (x ∷ a) (y ∷ p) (suc i)
PartsAt-suc x y a p i e (u, v, (before, (left, (right, apart)))) =
    (u, v, (ground (arith, e, before), (left, (right, apart))))

first_difference-PartsAt : (a p : Bytes) (i : ℕ) → first_difference a p ≡ some i → PartsAt a p i
unfolding first_difference
first_difference-PartsAt [] p i h = absurd (ground (arith, h))
first_difference-PartsAt (x ∷ a) [] i h = absurd (ground (arith, h))
first_difference-PartsAt (x ∷ a) (y ∷ p) i h = elim (Bool-cases (nat_eq x y)) [
  | inr differ ↦
      let at : 0 ≡ i = ground (arith, h, differ) in
      subst (PartsAt (x ∷ a) (y ∷ p)) at
        (x, y, (refl, (refl, (refl, λ e. ground (arith, e, differ)))))
  | inl same ↦ elim (Option-cases (first_difference a p)) [
    | inl e ↦ absurd (ground (arith, h, same, e))
    | inr (j, e) ↦
        let at : suc j ≡ i = ground (arith, h, same, e) in
        subst (PartsAt (x ∷ a) (y ∷ p)) at
          (PartsAt-suc x y a p j (ground (arith, same)) (first_difference-PartsAt a p j e))
  ]
]

body_of-cases :
    (account : Account) (offset size : ℕ)
    → (body_of account offset size ≡ too_short)
      ⊎ (((u64_mod ≤ offset + size) × (body_of account offset size ≡ overruns))
          ⊎ ((bytes : Bytes) × (length bytes ≡ size) × (body_of account offset size ≡ held bytes)))
unfolding body_of
body_of-cases account offset size = elim (Bool-cases (ltb (offset + size) u64_mod)) [
  | inl fits ↦ elim (Bool-cases (ltb (length account.contents) (offset + size))) [
    | inl short ↦ inl (rw (body_of, fits, short) refl)
    | inr long ↦ inr (
        inr (
          slice account.contents offset size,
          ground (
            arith,
            long,
            length-take size (drop offset account.contents),
            length-drop offset account.contents,
          ),
          rw (body_of, fits, long) refl,
        ))
  ]
  | inr wraps ↦ elim (Bool-cases (ltb (length account.contents) (offset + size - u64_mod))) [
    | inl short ↦ inl (rw (body_of, wraps, short) refl)
    | inr long ↦ inr (inl (ground (arith, wraps), rw (body_of, wraps, long) refl))
  ]
]

-- An offset and the size of a pair are no `usize` together.
abbrev pub Overflows : DiffAccountPair → Type 0
Overflows pair =
    (u64_mod ≤ pair.anchor_offset + pair.body_size) ⊎ (u64_mod ≤ pair.pino_offset + pair.body_size)

-- What reading a pair comes to.
abbrev ReadsAs : DiffAccountPair → Result Panic (Option (Bytes × Bytes)) → Type 0
ReadsAs pair (ok none) = Unit
ReadsAs pair (ok (some bodies)) = length bodies.0 ≡ length bodies.1
ReadsAs pair (err e) = Overflows pair

both_bodies-ReadsAs :
    (a p : Account) (pair : DiffAccountPair)
    → ReadsAs pair (
        both_bodies
          (body_of a pair.anchor_offset pair.body_size)
          (body_of p pair.pino_offset pair.body_size))
unfolding both_bodies
both_bodies-ReadsAs a p pair = elim (body_of-cases a pair.anchor_offset pair.body_size) [
  | inl short ↦ rw short tt
  | inr (inl (wraps, over)) ↦ elim (body_of-cases p pair.pino_offset pair.body_size) [
    | inl short' ↦ rw (over, short') tt
    | inr (inl (wraps', over')) ↦ rw (over, over') (inl wraps)
    | inr (inr (ys, ly, got')) ↦ rw (over, got') (inl wraps)
  ]
  | inr (inr (xs, lx, got)) ↦ elim (body_of-cases p pair.pino_offset pair.body_size) [
    | inl short' ↦ rw (got, short') tt
    | inr (inl (wraps', over')) ↦ rw (got, over') (inr wraps')
    | inr (inr (ys, ly, got')) ↦ rw (got, got') (lx ∙ sym ly)
  ]
]

read_pair_bodies-ReadsAs :
    (get_account : Pubkey → Option Account) (pair : DiffAccountPair)
    → ReadsAs pair (read_pair_bodies get_account pair)
unfolding read_pair_bodies
read_pair_bodies-ReadsAs get_account pair = elim (Option-cases (get_account pair.anchor)) [
  | inl e ↦ rw (ReadsAs, read_pair_bodies, e) tt
  | inr (a, ea) ↦ elim (Option-cases (get_account pair.pino)) [
    | inl e ↦ rw (ReadsAs, read_pair_bodies, ea, e) tt
    | inr (p, ep) ↦ rw (read_pair_bodies, ea, ep) (both_bodies-ReadsAs a p pair)
  ]
]

compare_bodies_lem :
    (pair : DiffAccountPair) (a p : Bytes)
    → length a ≡ length p
    → ((a ≡ p) × (compare_bodies pair (a, p) ≡ none))
      ⊎ ((d : BodyDivergence) × ((d.label ≡ pair.label)
            × ((d.body_size ≡ pair.body_size) × PartAt a p d.first_byte d.anchor_byte d.pino_byte))
          × (compare_bodies pair (a, p) ≡ some d))
unfolding compare_bodies
compare_bodies_lem pair a p same = elim (Option-cases (first_difference a p)) [
  | inl e ↦ rw e (inl (first_difference-none a p same e, refl))
  | inr (i, e) ↦
      let (x, y, part) = first_difference-PartsAt a p i e in
      let (before, (left, (right, apart))) = part in
      rw (e, left, right)
        (inr (
          record {
            label = pair.label;
            first_byte = i;
            anchor_byte = x;
            pino_byte = y;
            body_size = pair.body_size;
          },
          (refl, (refl, part)),
          refl,
        ))
]

module _ (get_account : Pubkey → Option Account) where
  -- The bodies of a pair are the same, or cannot be compared.
  abbrev pub Agrees : DiffAccountPair → Type 0
  Agrees pair = elim (read_pair_bodies get_account pair) [
    | ok none ↦ Unit
    | ok (some bodies) ↦ bodies.0 ≡ bodies.1
    | err e ↦ ⊥
  ]

  -- What the finding says of the pair: its label, its size, and the first byte that differs.
  abbrev pub Pinpoints : BodyDivergence → DiffAccountPair → Type 0
  Pinpoints d pair =
      (d.label ≡ pair.label)
      × ((d.body_size ≡ pair.body_size) × (elim (read_pair_bodies get_account pair) [
        | ok none ↦ ⊥
        | ok (some bodies) ↦ PartAt bodies.0 bodies.1 d.first_byte d.anchor_byte d.pino_byte
        | err e ↦ ⊥
      ]))

  -- The pairs before the one that the finding is about agree.
  abbrev pub FoundIn : BodyDivergence → List DiffAccountPair → Type 0
  FoundIn d [] = ⊥
  FoundIn d (pair ∷ pairs) = Pinpoints d pair ⊎ (Agrees pair × FoundIn d pairs)

  -- The pairs before the one that overflows agree.
  abbrev pub OverflowsIn : List DiffAccountPair → Type 0
  OverflowsIn [] = ⊥
  OverflowsIn (pair ∷ pairs) = Overflows pair ⊎ (Agrees pair × OverflowsIn pairs)

  -- What a walk over the pairs promises.
  abbrev pub Promises : List DiffAccountPair → Result Panic (Option BodyDivergence) → Type 0
  Promises pairs (ok none) = All Agrees pairs
  Promises pairs (ok (some d)) = FoundIn d pairs
  Promises pairs (err e) = OverflowsIn pairs

  check_pair_equivalent_lem :
      (pair : DiffAccountPair)
      → (Agrees pair × (check_pair_equivalent get_account pair ≡ ok none))
        ⊎ (((d : BodyDivergence) × (Pinpoints d pair)
              × (check_pair_equivalent get_account pair ≡ ok (some d)))
            ⊎ ((e : Panic) × (Overflows pair) × (check_pair_equivalent get_account pair ≡ err e)))
  unfolding check_pair_equivalent
  check_pair_equivalent_lem pair =
      let reads = read_pair_bodies-ReadsAs get_account pair in
      elim (Result-cases (read_pair_bodies get_account pair)) [
        | inr (e, panics) ↦
            rw (Agrees, Pinpoints, panics) (inr (inr (e, (rw panics at reads), refl)))
        | inl (none, unread) ↦ rw (Agrees, Pinpoints, unread) (inl (tt, refl))
        | inl (some bodies, read) ↦
            elim (compare_bodies_lem pair bodies.0 bodies.1 (rw read at reads)) [
              | inl (same, c) ↦ rw (Agrees, Pinpoints, read) (inl (same, ap ok c))
              | inr (d, found, c) ↦ rw (Agrees, Pinpoints, read) (inr (inl (d, found, ap ok c)))
            ]
      ]

  -- The walk over the declared pairs keeps its promise: it finds nothing exactly where every pair that
  -- can be read has one body on both sides, and what it finds is the first byte at which the first
  -- pair that does not parts, with both bytes, the pair's label and its size. It panics only at a pair
  -- whose offset and size overflow together, where all pairs before agree.
  pub check_all_pairs-Promises :
      (pairs : List DiffAccountPair) → Promises pairs (check_all_pairs get_account pairs)
  unfolding check_all_pairs
  check_all_pairs-Promises [] = tt
  check_all_pairs-Promises (pair ∷ pairs) = elim (check_pair_equivalent_lem pair) [
    | inr (inl (d, found, c)) ↦ rw c (inl found)
    | inr (inr (e, over, c)) ↦ rw c (inl over)
    | inl (agrees, c) ↦
        let rest = check_all_pairs-Promises pairs in
        elim (Result-cases (check_all_pairs get_account pairs)) [
          | inl (none, e) ↦ rw (c, e) (agrees, (rw e at rest))
          | inl (some d, e) ↦ rw (c, e) (inr (agrees, (rw e at rest)))
          | inr (panics, e) ↦ rw (c, e) (inr (agrees, (rw e at rest)))
        ]
  ]
