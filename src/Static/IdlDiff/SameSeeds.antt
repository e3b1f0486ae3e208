-- ===== src/Static/IdlDiff/SameSeeds.antt =====
-- idl_diff.rs: no slot is renamed between a version and itself, and seeds are the same as themselves.
use solinv.Base.{
  nat_eq, Bool-cases, Option-cases, eq_refl, All-map, contains-map, filter-none, Text, codes,
  split_once, ℕ, ◌≡◌, refl, sym, ap, ◌∙◌, inl, inr, Bool, true, Option, none, some, List, [], ◌∷◌,
  ◌++◌, map, arith, ℕ_eq, list_eq, option_eq,
}
use solinv.Static.Idl.{IdlSeed, const_seed, account_seed, arg_seed, IdlPda, IdlAccount}
use solinv.Static.Renames.{
  Slot, sibling_first, sibling, seed_key, no_renames, program_key, same_seeds, all_pairs,
  sort_pairs, take_pairs, only_in, renames,
}
use solinv.Static.IdlDiff.{address_change}

only_in_self : (b : List Slot) → only_in b b ≡ []
only_in_self b =
    filter-none _ b (All-map _ _ b (λ s h. rw h refl) (contains-map (λ (s : Slot). s.0) b))

pub renames_self : (b : List Slot) → renames b b ≡ no_renames
unfolding renames take_pairs sort_pairs all_pairs
renames_self b = rw (only_in_self b) refl

split_once-join :
    (q : ℕ) (s : Text) (parts : Text × Text)
    → split_once q s ≡ some parts
    → parts.0 ++ (q ∷ parts.1) ≡ s
unfolding split_once
split_once-join q [] parts h = ground (arith, h)
split_once-join q (c ∷ s) parts h = elim (Bool-cases (nat_eq c q)) [
  | inl here ↦ ground (arith, here, h)
  | inr later ↦ elim (Option-cases (split_once q s)) [
    | inl missing ↦ absurd (ground (arith, later, missing, h))
    | inr (p, found) ↦
        let same : parts ≡ (c ∷ p.0, p.1) = ground (arith, later, found, h) in
        rw same (ap (◌∷◌ c) (split_once-join q s p found))
  ]
]

pub sibling-same : (prefix name : Text) → sibling no_renames prefix name ≡ name
unfolding sibling sibling_first
sibling-same prefix name = elim (Option-cases (split_once b'.' name)) [
  | inl whole ↦ rw (whole, sibling) refl
  | inr (parts, found) ↦ rw (found, sibling) (split_once-join b'.' name parts found)
]

seed_key-same :
    (prefix : Text) (l : Bool) (s : IdlSeed)
    → seed_key no_renames prefix l s ≡ seed_key no_renames [] l s
unfolding seed_key
seed_key-same prefix l (const_seed value) = refl
seed_key-same prefix l (account_seed path account) =
    ap (λ t. codes "account:" ++ t) (sibling-same prefix path ∙ sym (sibling-same [] path))
seed_key-same prefix l (arg_seed path) = refl

seed_keys-same :
    (prefix : Text) (l : Bool) (ss : List IdlSeed)
    → map (seed_key no_renames prefix l) ss ≡ map (seed_key no_renames [] l) ss
seed_keys-same prefix l [] = refl
seed_keys-same prefix l (s ∷ ss) =
    ap (◌∷ map (seed_key no_renames prefix l) ss) (seed_key-same prefix l s)
    ∙ ap (◌∷◌ (seed_key no_renames [] l s)) (seed_keys-same prefix l ss)

program_key-same :
    (prefix : Text) (l : Bool) (s : Option IdlSeed)
    → program_key no_renames prefix l s ≡ program_key no_renames [] l s
program_key-same prefix l none = refl
program_key-same prefix l (some s) = ap some (seed_key-same prefix l s)

pub same_seeds_self :
    (prefix : Text) (pda : IdlPda) (l : Bool) → same_seeds no_renames prefix pda pda (l, l) ≡ true
unfolding same_seeds
same_seeds_self prefix pda l =
    rw (seed_keys-same prefix l pda.seeds, program_key-same prefix l pda.program)
      (ground (
        arith,
        eq_refl (map (seed_key no_renames [] l) pda.seeds),
        eq_refl (program_key no_renames [] l pda.program),
      ))

pub address_change_self : (a : IdlAccount) → address_change a a ≡ none
unfolding address_change
address_change_self a = elim (Option-cases a.address) [
  | inl missing ↦ rw missing refl
  | inr (x, found) ↦ rw (found, eq_refl x) refl
]
