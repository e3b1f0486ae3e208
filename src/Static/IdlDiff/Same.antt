-- ===== src/Static/IdlDiff/Same.antt =====
-- idl_diff.rs on a version and itself.
use solinv.Base.{
  Bool-cases, is_some, ◌==◌, eq_iff, eq_refl, any, filter, All, All-map, contains, contains-map,
  filter-none, Text, ◌≡◌, refl, ◌∙◌, inl, inr, Bool, true, false, not, ◌&&◌, ◌||◌, some, List, [],
  ◌∷◌, arith, ℕ_eq, list_eq, option_eq,
}
use solinv.Static.Idl.{IdlAccount, IdlInstruction, Idl, FlatAccount, flat_accounts}
use solinv.Static.IdlDiff.Whole.{
  paths_of, any_slot, has_relations, built_without_resolution, names_of, not_named_in, pair_gone,
  find_named, sides, head_changes, concat_map, collapse_from, collapse_guesses, diff_idl,
}
use solinv.Static.IdlDiff.SameSlots.{distinct, diff_ix_self}

no_gone : (ixs : List IdlInstruction) → filter (not_named_in ixs) ixs ≡ []
no_gone ixs =
    filter-none _ ixs
      (All-map _ _ ixs (λ ix h. rw h refl) (contains-map (λ (ix : IdlInstruction). ix.name) ixs))

any-or {ℓ} :
    {A : Type ℓ} (p q : A → Bool) (xs : List A) → any (λ x. p x || q x) xs ≡ (any p xs || any q xs)
any-or p q [] = refl
any-or p q (x ∷ xs) = rw (any-or p q xs) (ground arith)

any-cong {ℓ} :
    {A : Type ℓ} (p q : A → Bool) (xs : List A) → ((x : A) → p x ≡ q x) → any p xs ≡ any q xs
any-cong p q [] h = refl
any-cong p q (x ∷ xs) h = rw (h x, any-cong p q xs h) refl

any_slot-or :
    (idl : Idl) (p q : IdlAccount → Bool)
    → any_slot idl (λ a. p a || q a) ≡ (any_slot idl p || any_slot idl q)
any_slot-or idl p q =
    any-cong _ _ idl.instructions (λ ix.
      any-or (λ (s : FlatAccount). p s.account) (λ (s : FlatAccount). q s.account)
        (flat_accounts ix))
    ∙ any-or _ _ idl.instructions

absorbed : (a l b : Bool) → ((a || (l && b)) && not (a || b)) ≡ false
absorbed true true b = refl
absorbed true false b = refl
absorbed false true true = refl
absorbed false true false = refl
absorbed false false b = refl

resolved_self : (idl : Idl) → built_without_resolution idl idl ≡ false
unfolding built_without_resolution
resolved_self idl =
    let tested = any_slot-or idl (λ a. is_some a.address) (λ a. is_some a.pda || has_relations a) in
    rw tested (absorbed (any_slot idl λ a. is_some a.address) idl.legacy _)

find_named-contains :
    (ixs : List IdlInstruction) (name : Text) (other : IdlInstruction)
    → find_named ixs name ≡ some other
    → contains (names_of ixs) name ≡ true
find_named-contains [] name other found = absurd (ground (arith, found))
find_named-contains (ix ∷ ixs) name other found = elim (Bool-cases (ix.name == name)) [
  | inl same ↦ rw same refl
  | inr differs ↦ rw differs (find_named-contains ixs name other (rw differs at found))
]

find_named-later :
    (ix other : IdlInstruction) (ixs : List IdlInstruction)
    → contains (names_of ixs) ix.name ≡ false
    → find_named ixs other.name ≡ some other
    → find_named (ix ∷ ixs) other.name ≡ some other
find_named-later ix other ixs h found =
    let among = find_named-contains ixs other.name other found in
    elim (Bool-cases (ix.name == other.name)) [
      | inl same ↦ absurd (ground (arith, h, among, rw ((eq_iff ix.name other.name).0 same) at h))
      | inr differs ↦ rw differs found
    ]

find_named-own :
    (ixs : List IdlInstruction)
    → distinct (names_of ixs) ≡ true
    → All (λ (ix : IdlInstruction). find_named ixs ix.name ≡ some ix) ixs
find_named-own [] h = tt
find_named-own (ix ∷ ixs) h = (
  rw (eq_refl ix.name) refl,
  All-map _ _ ixs (λ other found. find_named-later ix other ixs (ground (arith, h)) found)
      (find_named-own ixs (ground (arith, h))),
)

head_changes_self :
    (idl : Idl) (ix : IdlInstruction)
    → find_named idl.instructions ix.name ≡ some ix
    → distinct (paths_of ix) ≡ true
    → head_changes idl idl [] ix ≡ []
unfolding head_changes
head_changes_self idl ix named once =
    rw (named, head_changes) (diff_ix_self ix (sides idl idl false ix) refl once)

unchanged_heads :
    (idl : Idl) (ixs : List IdlInstruction)
    → All (λ (ix : IdlInstruction). find_named idl.instructions ix.name ≡ some ix) ixs
    → All (λ (ix : IdlInstruction). distinct (paths_of ix) ≡ true) ixs
    → concat_map (head_changes idl idl []) ixs ≡ []
unchanged_heads idl [] named once = refl
unchanged_heads idl (ix ∷ ixs) named once =
    rw (head_changes_self idl ix named.0 once.0) (unchanged_heads idl ixs named.1 once.1)

-- An IDL, of either format, compared with itself has no change, where no two of its instructions
-- share a name and no two slots of one instruction share a path.
pub diff_idl_self :
    (idl : Idl)
    → distinct (names_of idl.instructions) ≡ true
    → All (λ (ix : IdlInstruction). distinct (paths_of ix) ≡ true) idl.instructions
    → diff_idl idl idl ≡ []
unfolding diff_idl pair_gone collapse_guesses collapse_from
diff_idl_self idl names paths =
    let heads =
      unchanged_heads idl idl.instructions (find_named-own idl.instructions names) paths in
    rw (no_gone idl.instructions, resolved_self idl, heads) refl
