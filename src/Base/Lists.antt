-- ===== src/Base/Lists.antt =====
-- Lists measured and indexed by native numbers, with the searches that the source makes.
use Prim.Native.Nat.{ℕ, zero, suc, ◌+◌, ◌-◌, ◌≤◌}
use mathlib.Core.Path.{◌≡◌, refl}
use mathlib.Core.Bool.{Bool, true, false, ◌&&◌, ◌||◌}
use mathlib.Core.List.{List, [], ◌∷◌, ◌++◌, map}
use mathlib.Core.Option.{Option, none, some}
use native.Mathlib.Omega.{arith}
use solinv.Base.Tests.{if◌then◌else◌}
use solinv.Base.Equality.{PartialEq, ◌==◌, eq_refl}

module _ {ℓ} {A : Type ℓ} where
  abbrev pub length : List A → ℕ
  length [] = 0
  length (x ∷ xs) = suc (length xs)

  abbrev pub get_elem? : List A → ℕ → Option A
  get_elem? [] i = none
  get_elem? (x ∷ xs) zero = some x
  get_elem? (x ∷ xs) (suc i) = get_elem? xs i

  abbrev pub take : ℕ → List A → List A
  take zero xs = []
  take (suc n) [] = []
  take (suc n) (x ∷ xs) = x ∷ take n xs

  abbrev pub drop : ℕ → List A → List A
  drop zero xs = xs
  drop (suc n) [] = []
  drop (suc n) (x ∷ xs) = drop n xs

  -- A change of one element; out of range it changes nothing.
  abbrev pub modify : List A → ℕ → (A → A) → List A
  modify [] i f = []
  modify (x ∷ xs) zero f = f x ∷ xs
  modify (x ∷ xs) (suc i) f = x ∷ modify xs i f

  abbrev pub any : (A → Bool) → List A → Bool
  any p [] = false
  any p (x ∷ xs) = p x || any p xs

  abbrev pub all : (A → Bool) → List A → Bool
  all p [] = true
  all p (x ∷ xs) = p x && all p xs

  abbrev pub find : (A → Bool) → List A → Option A
  find p [] = none
  find p (x ∷ xs) = if p x then some x else find p xs

  abbrev pub filter : (A → Bool) → List A → List A
  filter p [] = []
  filter p (x ∷ xs) = let rest = filter p xs in if p x then x ∷ rest else rest

  abbrev pub concat_map {κ} : {B : Type κ} → (A → List B) → List A → List B
  concat_map f [] = []
  concat_map f (x ∷ xs) = f x ++ concat_map f xs

  -- How many elements pass.
  abbrev pub count : (A → Bool) → List A → ℕ
  count p [] = 0
  count p (x ∷ xs) = (if p x then 1 else 0) + count p xs

  pub length-append : (xs ys : List A) → length (xs ++ ys) ≡ length xs + length ys
  length-append [] ys = omega arith
  length-append (x ∷ xs) ys = omega (arith, length-append xs ys)

  pub length-take : (n : ℕ) (xs : List A) → n ≤ length xs → length (take n xs) ≡ n
  length-take zero xs h = refl
  length-take (suc n) [] h = absurd (omega arith)
  length-take (suc n) (x ∷ xs) h = omega (arith, length-take n xs (omega arith))

  pub length-drop : (n : ℕ) (xs : List A) → length (drop n xs) ≡ length xs - n
  length-drop zero xs = omega arith
  length-drop (suc n) [] = omega arith
  length-drop (suc n) (x ∷ xs) = omega (arith, length-drop n xs)

  pub count-le-length : (p : A → Bool) (xs : List A) → count p xs ≤ length xs
  count-le-length p [] = omega arith
  count-le-length p (x ∷ xs) = ground (arith, count-le-length p xs)

-- Statements about every element, and about some element, computed to tuples and sums.
abbrev pub All {ℓ κ} : {A : Type ℓ} → (A → Type κ) → List A → Type κ
All P [] = Unit
All P (x ∷ xs) = P x × All P xs

pub All-of {ℓ κ} : {A : Type ℓ} (P : A → Type κ) (xs : List A) → ((x : A) → P x) → All P xs
All-of P [] f = tt
All-of P (x ∷ xs) f = (f x, All-of P xs f)

pub All-both {ℓ κ μ} :
    {A : Type ℓ} (P : A → Type κ) (Q : A → Type μ) (xs : List A)
    → All P xs
    → All Q xs
    → All (λ x. P x × Q x) xs
All-both P Q [] h h' = tt
All-both P Q (x ∷ xs) h h' = ((h.0, h'.0), All-both P Q xs h.1 h'.1)

pub All-append {ℓ κ} :
    {S : Type ℓ} (Q : S → Type κ) (us vs : List S) → All Q us → All Q vs → All Q (us ++ vs)
All-append Q (u ∷ us) vs (q, qs) all = (q, All-append Q us vs qs all)
All-append Q [] vs tt all = all

pub All-map {ℓ κ μ} :
    {A : Type ℓ} (P : A → Type κ) (Q : A → Type μ) (xs : List A)
    → ((x : A) → P x → Q x)
    → All P xs
    → All Q xs
All-map P Q [] f h = tt
All-map P Q (x ∷ xs) f h = (f x h.0, All-map P Q xs f h.1)

module _ {ℓ} {A : Type ℓ} ⦃e : PartialEq A⦄ where
  abbrev pub contains : List A → A → Bool
  contains [] a = false
  contains (x ∷ xs) a = (x == a) || contains xs a

  contains-head : (x : A) (xs : List A) → contains (x ∷ xs) x ≡ true
  contains-head x xs = rw (eq_refl x) refl

  contains-tail : (x y : A) (xs : List A) → contains xs y ≡ true → contains (x ∷ xs) y ≡ true
  contains-tail x y xs h = ground (arith, h)

  -- A list contains its elements.
  pub contains-map {κ} :
      {B : Type κ} (f : B → A) (xs : List B) → All (λ x. contains (map f xs) (f x) ≡ true) xs
  contains-map f [] = tt
  contains-map f (x ∷ xs) = (
    contains-head (f x) (map f xs),
    All-map _ _ xs (λ y h. contains-tail (f x) (f y) (map f xs) h) (contains-map f xs),
  )

-- Every element passes, so none is filtered out; none passes, so none is left.
pub filter-none {ℓ} :
    {A : Type ℓ} (p : A → Bool) (xs : List A) → All (λ x. p x ≡ false) xs → filter p xs ≡ []
filter-none p [] h = refl
filter-none p (x ∷ xs) h = ground (arith, h.0, filter-none p xs h.1)

pub any-append {ℓ} :
    {A : Type ℓ} (p : A → Bool) (xs ys : List A) → any p (xs ++ ys) ≡ (any p xs || any p ys)
any-append p [] ys = refl
any-append p (x ∷ xs) ys = rw (any-append p xs ys) (ground arith)

pub any-front {ℓ} :
    {A : Type ℓ} (p : A → Bool) (xs ys : List A) → any p xs ≡ true → any p (xs ++ ys) ≡ true
any-front p xs ys h = ground (arith, any-append p xs ys, h)

pub any-behind {ℓ} :
    {A : Type ℓ} (p : A → Bool) (xs ys : List A) → any p ys ≡ true → any p (xs ++ ys) ≡ true
any-behind p xs ys h = ground (arith, any-append p xs ys, h)

-- What is said of each element of a list holds of any element that it contains.
pub All-self {ℓ} : {A : Type ℓ} ⦃e : PartialEq A⦄ (xs : List A) → All (λ x. contains xs x ≡ true) xs
All-self [] = tt
All-self (x ∷ xs) =
    (contains-head x xs, All-map _ _ xs (λ y h. contains-tail x y xs h) (All-self xs))

pub concat_map-empty {ℓ κ} :
    {A : Type ℓ} {B : Type κ} (f : A → List B) (xs : List A)
    → All (λ x. f x ≡ []) xs
    → concat_map f xs ≡ []
concat_map-empty f [] h = refl
concat_map-empty f (x ∷ xs) h = rw (h.0, concat_map-empty f xs h.1) refl

-- What one element's part has, the whole has.
pub any-concat_map {ℓ κ} :
    {A : Type ℓ} {B : Type κ} (p : B → Bool) (f : A → List B) (xs : List A) (i : ℕ) (x : A)
    → get_elem? xs i ≡ some x
    → any p (f x) ≡ true
    → any p (concat_map f xs) ≡ true
any-concat_map p f [] i x h found = absurd (ground arith)
any-concat_map p f (y ∷ xs) zero x h found =
    any-front p (f y) (concat_map f xs) (ground (arith, found))
any-concat_map p f (y ∷ xs) (suc i) x h found =
    any-behind p (f y) (concat_map f xs) (any-concat_map p f xs i x h found)

pub any-map {ℓ κ} :
    {A : Type ℓ} {B : Type κ} (p : B → Bool) (f : A → B) (xs : List A)
    → any p (map f xs) ≡ any (λ x. p (f x)) xs
any-map p f [] = refl
any-map p f (x ∷ xs) = rw (any-map p f xs) refl

pub any-same {ℓ} :
    {A : Type ℓ} (p q : A → Bool) → ((x : A) → p x ≡ q x) → (xs : List A) → any p xs ≡ any q xs
any-same p q h [] = refl
any-same p q h (x ∷ xs) = rw (h x, any-same p q h xs) refl

pub All-concat_map {ℓ κ μ} :
    {A : Type ℓ} {B : Type κ} (P : B → Type μ) (Q : A → Type κ) (f : A → List B) (xs : List A)
    → ((x : A) → Q x → All P (f x))
    → All Q xs
    → All P (concat_map f xs)
All-concat_map P Q f [] h all = tt
All-concat_map P Q f (x ∷ xs) h all =
    All-append P (f x) (concat_map f xs) (h x all.0) (All-concat_map P Q f xs h all.1)

-- What a filter keeps passes.
pub All-filter {ℓ} : {A : Type ℓ} (p : A → Bool) (xs : List A) → All (λ x. p x ≡ true) (filter p xs)
All-filter p [] = tt
All-filter p (x ∷ xs) = ground (arith, All-filter p xs)

pub All-filtered {ℓ κ} :
    {A : Type ℓ} (P : A → Type κ) (p : A → Bool) (xs : List A) → All P xs → All P (filter p xs)
All-filtered P p [] h = tt
All-filtered P p (x ∷ xs) h = ground (arith, h.0, All-filtered P p xs h.1)
