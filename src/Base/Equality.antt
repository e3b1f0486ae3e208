-- ===== src/Base/Equality.antt =====
-- `PartialEq` as an interface, for numbers, lists (texts among them) and pairs.
use Prim.Native.Nat.{ℕ}
use mathlib.Core.Path.{◌≡◌, refl}
use mathlib.Core.Logic.{◌↔◌}
use mathlib.Core.Bool.{Bool, true, false, ◌&&◌}
use mathlib.Core.List.{List, [], ◌∷◌}
use mathlib.Core.Option.{Option, none, some}
use native.Mathlib.Omega.{arith}
use solinv.Base.Tests.{nat_eq, nat_eq_iff}

pub record PartialEq {ℓ} (S : Type ℓ) : Type ℓ where
  pub eq : S → S → Bool
  pub decides : (x y : S) → (eq x y ≡ true) ↔ (x ≡ y)

module _ {ℓ} {S : Type ℓ} ⦃rule : PartialEq S⦄ where
  infix 50 ◌==◌
  abbrev pub ◌==◌ : S → S → Bool
  ◌==◌ = rule.eq

module _ {ℓ} {A : Type ℓ} ⦃e : PartialEq A⦄ where
  pub eq_iff : (a b : A) → ((a == b) ≡ true) ↔ (a ≡ b)
  eq_iff a b = e.decides a b

  pub eq_refl : (a : A) → (a == a) ≡ true
  eq_refl a = (e.decides a a).1 refl

instance abbrev pub ℕ_eq : PartialEq ℕ
ℕ_eq = record { eq = nat_eq; decides = nat_eq_iff }

module _ {ℓ} {A : Type ℓ} ⦃e : PartialEq A⦄ where
  abbrev pub equal : List A → List A → Bool
  equal [] [] = true
  equal [] (y ∷ ys) = false
  equal (x ∷ xs) [] = false
  equal (x ∷ xs) (y ∷ ys) = (x == y) && equal xs ys

  pub equal_iff : (a b : List A) → (equal a b ≡ true) ↔ (a ≡ b)
  equal_iff [] [] = ground arith
  equal_iff [] (y ∷ ys) = ground arith
  equal_iff (x ∷ xs) [] = ground arith
  equal_iff (x ∷ xs) (y ∷ ys) = ground (arith, e.decides x y, equal_iff xs ys)

  instance abbrev pub list_eq : PartialEq (List A)
  list_eq = record { eq = equal; decides = equal_iff }

  abbrev pub option_equal : Option A → Option A → Bool
  option_equal none none = true
  option_equal none (some b) = false
  option_equal (some a) none = false
  option_equal (some a) (some b) = a == b

  pub option_equal_iff : (a b : Option A) → (option_equal a b ≡ true) ↔ (a ≡ b)
  option_equal_iff none none = ground arith
  option_equal_iff none (some b) = ground arith
  option_equal_iff (some a) none = ground arith
  option_equal_iff (some a) (some b) = ground (arith, e.decides a b)

  instance abbrev pub option_eq : PartialEq (Option A)
  option_eq = record { eq = option_equal; decides = option_equal_iff }

module _ {ℓ κ} {A : Type ℓ} {B : Type κ} ⦃e : PartialEq A⦄ ⦃f : PartialEq B⦄ where
  abbrev pub pair_equal : A × B → A × B → Bool
  pair_equal (a, b) (c, d) = (a == c) && (b == d)

  pub pair_equal_iff : (x y : A × B) → (pair_equal x y ≡ true) ↔ (x ≡ y)
  pair_equal_iff (a, b) (c, d) = ground (arith, e.decides a c, f.decides b d)

  instance abbrev pub pair_eq : PartialEq (A × B)
  pair_eq = record { eq = pair_equal; decides = pair_equal_iff }
