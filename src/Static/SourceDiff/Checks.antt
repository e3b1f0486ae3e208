-- ===== src/Static/SourceDiff/Checks.antt =====
-- diff.rs: what one slot checks, and how often a handler writes a check.
use solinv.Base.{
  if◌then◌else◌, ◌==◌, count, contains, Text, codes, rsplit_once, ℕ, ◌+◌, Bool, not, ◌&&◌, ◌||◌,
  Option, none, some, List, [], ◌∷◌, ◌++◌, map, ℕ_eq, list_eq, option_eq,
}
use solinv.Static.Source.{Slot, SourceKinds, is_typed, in_ix, ix_checks}

-- The last component of a slot's path.
unfoldable pub leaf : Text → Text
leaf path = elim (rsplit_once b'.' path) [ none ↦ path | some (prefix, name) ↦ name ]

-- Required to sign: not a slot that may be left out.
unfoldable pub signs : Slot → Bool
signs s =
    ((s.ty == codes "Signer")
      || (s.attrs.signer
          || ((s.attrs.init || s.attrs.init_if_needed)
              && (not s.attrs.seeds && not s.attrs.token_authority))))
    && not s.optional

unfoldable pub label : Slot → Text
label s =
    if (s.ty == codes "Signer") || not s.attrs.signer
    then s.ty
    else s.ty ++ codes " with #[account(signer)]"

abbrev pub listed : Bool → Text → List Text
listed on name = if on then name ∷ [] else []

abbrev pub to_list {ℓ} : {A : Type ℓ} → Option A → List A
to_list none = []
to_list (some x) = x ∷ []

-- Each check once, however many copies the handler writes.
unfoldable pub push_new : List Text → List Text → List Text
push_new c [] = c
push_new c (b ∷ body) = push_new (if contains c b then c else c ++ (b ∷ [])) body

-- What a slot checks, for naming what a removed slot took with it.
unfoldable pub checks_of : Slot → List Text
unfolding signs push_new
checks_of s =
    let a = s.attrs in
    push_new
      (listed (is_typed s && not (s.ty == codes "Signer")) (codes "type " ++ s.full_ty)
        ++ (listed (signs s) (codes "signer")
            ++ (listed a.seeds (codes "seeds")
                ++ (listed a.address (codes "address")
                    ++ (listed a.owner (codes "owner")
                        ++ (map (λ t. codes "has_one = " ++ t) a.has_one
                            ++ (map (λ t. codes "token::mint = " ++ t) (to_list a.token_mint)
                                ++ (map (λ t. codes "token::authority = " ++ t)
                                      (to_list a.token_owner)
                                    ++ (map (λ e. codes "constraint = " ++ e) a.constraints
                                        ++ map (λ t. codes "close = " ++ t)
                                            (to_list a.close))))))))))
      a.body
    ++ a.validate

-- `count`: the copies of a check.
unfoldable pub copies : List Text → Text → ℕ
copies v c = count (λ x. x == c) v

abbrev pub sum_of {ℓ} : {A : Type ℓ} → (A → ℕ) → List A → ℕ
sum_of f [] = 0
sum_of f (x ∷ xs) = f x + sum_of f xs

-- How many times the handler writes a check, on any account or none.
unfoldable pub body_total : SourceKinds → Text → Text → ℕ
unfolding copies ix_checks in_ix
body_total k ix c =
    copies (ix_checks k ix) c + sum_of (λ (s : Text × Slot). copies s.1.attrs.body c) (in_ix k ix)
