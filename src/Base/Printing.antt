-- ===== src/Base/Printing.antt =====
-- Printed text read back: decimal numbers, and lines without blanks around them.
use Prim.Native.Nat.{ℕ, zero, suc, ◌+◌, ◌*◌, ◌-◌, ◌/◌, ◌%◌, ◌<◌}
use mathlib.Core.Path.{◌≡◌, refl, sym, ap, ◌∙◌}
use mathlib.Core.Logic.{inl, inr}
use mathlib.Core.Bool.{true, false, ◌&&◌}
use mathlib.Core.List.{[], ◌∷◌, ◌++◌, reverse, reverse_aux, append_assoc}
use mathlib.Core.Option.{some}
use native.Mathlib.Omega.{arith}
use solinv.Base.Tests.{ltb, nat_eq, ◌>>=◌, Bool-cases}
use solinv.Base.Lists.{length, length-append}
use solinv.Base.Buffers.{Text}
use solinv.Base.Strings.{is_whitespace, trim_start, trim, is_digit, parse_digits, parse_unsigned}
use solinv.Base.Decimal.{digits, show}

parse_digits-append :
    (m acc : ℕ) (s t : Text)
    → parse_digits m acc (s ++ t) ≡ (parse_digits m acc s >>= λ a. parse_digits m a t)
unfolding parse_digits
parse_digits-append m acc [] t = refl
parse_digits-append m acc (c ∷ s) t =
    elim (Bool-cases (is_digit c && ltb (acc * 10 + (c - b'0')) m)) [
      | inl e ↦ rw (e, parse_digits-append m (acc * 10 + (c - b'0')) s t) refl
      | inr e ↦ rw e refl
    ]

parse_digits-one :
    (m acc d : ℕ)
    → d < 10
    → acc * 10 + d < m
    → parse_digits m acc ((b'0' + d) ∷ []) ≡ some (acc * 10 + d)
unfolding parse_digits is_digit
parse_digits-one m acc d small fits = ground arith

parse_digits-digits : (m fuel n : ℕ) → n < fuel → n < m → parse_digits m 0 (digits fuel n) ≡ some n
unfolding digits
parse_digits-digits m zero n h fits = ground arith
parse_digits-digits m (suc fuel) n h fits = elim (Bool-cases (ltb n 10)) [
  | inl e ↦ rw e (parse_digits-one m 0 n (ground arith) (omega arith) ∙ ap some (omega arith))
  | inr e ↦
      rw
        (
          e,
          parse_digits-append m 0 (digits fuel (n / 10)) ((b'0' + n % 10) ∷ []),
          parse_digits-digits m fuel (n / 10) (ground arith) (ground arith),
        )
        (parse_digits-one m (n / 10) (n % 10) (omega arith) (omega arith) ∙ ap some (omega arith))
]

plus-is_digit : (c : ℕ) → nat_eq c b'+' ≡ true → is_digit c ≡ false
unfolding is_digit
plus-is_digit c h = ground arith

-- Digits with no sign before them are read as they stand.
parse_unsigned-digits :
    (m n : ℕ) (s : Text)
    → nat_eq (length s) 0 ≡ false
    → parse_digits m 0 s ≡ some n
    → parse_unsigned m s ≡ some n
unfolding parse_unsigned parse_digits is_digit
parse_unsigned-digits m n [] some_digit h = ground (arith, some_digit)
parse_unsigned-digits m n (c ∷ []) some_digit h = h
parse_unsigned-digits m n (c ∷ d ∷ s) some_digit h = elim (Bool-cases (nat_eq c b'+')) [
  | inl e ↦ ground (arith, plus-is_digit c e, h)
  | inr e ↦ rw e h
]

length-digits : (fuel n : ℕ) → n < fuel → nat_eq (length (digits fuel n)) 0 ≡ false
unfolding digits
length-digits zero n h = ground arith
length-digits (suc fuel) n h = elim (Bool-cases (ltb n 10)) [
  | inl e ↦ rw e (ground arith)
  | inr e ↦ rw (e, length-append (digits fuel (n / 10)) ((b'0' + n % 10) ∷ [])) (ground arith)
]

-- Every number below the modulus is read back from its decimal text.
pub parse_unsigned-show : (m n : ℕ) → n < m → parse_unsigned m (show n) ≡ some n
unfolding show
parse_unsigned-show m n fits =
    parse_unsigned-digits m n (digits (n + 1) n) (length-digits (n + 1) n (omega arith))
      (parse_digits-digits m (n + 1) n (omega arith) fits)

reverse_aux-last :
    (xs acc : Text) (d : ℕ) → reverse_aux (xs ++ (d ∷ [])) acc ≡ d ∷ reverse_aux xs acc
reverse_aux-last [] acc d = refl
reverse_aux-last (x ∷ xs) acc d = reverse_aux-last xs (x ∷ acc) d

reverse_aux-twice :
    (xs acc ys : Text) → reverse_aux (reverse_aux xs acc) ys ≡ reverse_aux acc (xs ++ ys)
reverse_aux-twice [] acc ys = refl
reverse_aux-twice (x ∷ xs) acc ys = reverse_aux-twice xs (x ∷ acc) ys

-- A text that starts and ends in no blank is not trimmed.
pub trim-tidy :
    (c d : ℕ) (s : Text)
    → is_whitespace c ≡ false
    → is_whitespace d ≡ false
    → trim (c ∷ (s ++ (d ∷ []))) ≡ c ∷ (s ++ (d ∷ []))
unfolding trim trim_start
trim-tidy c d s hc hd =
    let line = c ∷ s in
    let back : reverse (d ∷ reverse line) ≡ line ++ (d ∷ []) = reverse_aux-twice line [] (d ∷ []) in
    rw (hc, reverse_aux-last line [] d, hd) back

reverse_aux-append :
    (xs ys acc : Text) → reverse_aux (xs ++ ys) acc ≡ reverse_aux ys (reverse_aux xs acc)
reverse_aux-append [] ys acc = refl
reverse_aux-append (x ∷ xs) ys acc = reverse_aux-append xs ys (x ∷ acc)

trim_start_keeps :
    (d : ℕ) (u r : Text)
    → is_whitespace d ≡ false
    → (u' : Text) × (trim_start (u ++ (d ∷ r)) ≡ u' ++ (d ∷ r))
unfolding trim_start
trim_start_keeps d [] r h = ([], rw h refl)
trim_start_keeps d (c ∷ u) r h = elim (Bool-cases (is_whitespace c)) [
  | inl blank ↦ let (u', e) = trim_start_keeps d u r h in (u', rw blank e)
  | inr solid ↦ (c ∷ u, rw solid refl)
]

reverse_aux_spills : (t acc : Text) → reverse_aux t acc ≡ reverse_aux t [] ++ acc
reverse_aux_spills [] acc = refl
reverse_aux_spills (c ∷ t) acc =
    reverse_aux_spills t (c ∷ acc)
    ∙ sym (rw (reverse_aux_spills t (c ∷ [])) (append_assoc (reverse_aux t []) (c ∷ []) acc))

-- Whatever is trimmed, a text that starts in no blank is kept up to any character that is no blank.
pub trim_keeps :
    (c d : ℕ) (s t : Text)
    → is_whitespace c ≡ false
    → is_whitespace d ≡ false
    → (t' : Text) × (trim (c ∷ (s ++ (d ∷ t))) ≡ c ∷ (s ++ (d ∷ t')))
unfolding trim trim_start
trim_keeps c d s t hc hd =
    let line = c ∷ s in
    let (u, e) = trim_start_keeps d (reverse t) (reverse line) hd in
    (
      reverse u,
      rw
          (
            hc,
            reverse_aux-append line (d ∷ t) [],
            reverse_aux_spills t (d ∷ reverse line),
            e,
            reverse_aux-append u (d ∷ reverse line) [],
          )
          (reverse_aux-twice line [] (d ∷ reverse u)),
    )
