-- ===== src/Static/Source/Clauses/Enough.antt =====
-- `clauses` of source.rs: the fuel is enough.
use mathlib.Core.List.{reverse_aux}
use solinv.Base.{
  nat_eq, if◌then◌else◌, Bool-cases, Option-cases, length, length-take, All, All-map, Text,
  trim_start, trim, onto_first, ℕ, zero, suc, ◌+◌, ◌-◌, ◌*◌, ◌≤◌, ◌<◌, ◌≡◌, refl, inl, inr, Bool,
  ◌&&◌, some, List, [], ◌∷◌, arith,
}
use solinv.Static.Source.Clauses.{
  opens, closes, unwrap, scan, clauses_list, clauses_step, clauses_from, clauses,
}

-- The characters of the parts.
abbrev total : List Text → ℕ
total [] = 0
total (t ∷ ts) = length t + total ts

-- The parts of a text of `n` characters, with two for each `&&` between them.
abbrev Fits : ℕ → List Text → Type 0
Fits n ts = (1 ≤ length ts) × (total ts + 2 * length ts ≤ n + 2)

onto_first-Fits : (n x : ℕ) (ts : List Text) → Fits n ts → Fits (suc n) (onto_first x ts)
onto_first-Fits n x [] h = absurd (omega (arith, h.0))
onto_first-Fits n x (t ∷ ts) h = (omega arith, omega (arith, h.1))

starts-Fits : (n : ℕ) (ts : List Text) → Fits n ts → Fits (suc (suc n)) ([] ∷ ts)
starts-Fits n ts h = (omega arith, omega (arith, h.1))

abbrev twice_at_top : ℕ → ℕ → ℕ → ℕ → ℕ → Bool
twice_at_top c o k x y = nat_eq o k && (nat_eq x c && nat_eq y c)

scan-Fits : (o c : ℕ) (s : Text) → Fits (length s) (scan o c s).parts
unfolding scan
scan-Fits o c [] = (omega arith, omega arith)
scan-Fits o c (x ∷ []) = (omega arith, omega arith)
scan-Fits o c (x ∷ y ∷ s) =
    let beyond = scan-Fits o c s in
    let next = scan-Fits (if opens x then o + 1 else o) (if closes x then c + 1 else c) (y ∷ s) in
    elim (Bool-cases (twice_at_top b'|' o c x y)) [
      | inl or_here ↦ rw or_here (
          onto_first-Fits (suc (length s)) x (onto_first y (scan o c s).parts)
            (onto_first-Fits (length s) y (scan o c s).parts beyond))
      | inr no_or ↦ elim (Bool-cases (twice_at_top b'&' o c x y)) [
        | inl and_here ↦ rw (no_or, and_here) (starts-Fits (length s) (scan o c s).parts beyond)
        | inr no_and ↦
            rw (no_or, no_and)
              (onto_first-Fits (suc (length s)) x
                (scan (if opens x then o + 1 else o) (if closes x then c + 1 else c) (y ∷ s)).parts
                next)
      ]
    ]

-- Of several parts, each is shorter than the text.
parts-shorter : (n : ℕ) (ts : List Text) → total ts + 4 ≤ n + 2 → All (λ t. length t < n) ts
parts-shorter n [] h = tt
parts-shorter n (t ∷ ts) h = (omega (arith, h), parts-shorter n ts (omega (arith, h)))

length-unwrap : (v inner : Text) → unwrap v ≡ some inner → length inner < length v
unfolding unwrap
length-unwrap [] inner h = absurd (ground arith)
length-unwrap (x ∷ s) inner h = ground (arith, h, length-take (length s - 1) s (omega arith))

length-trim_start : (v : Text) → length (trim_start v) ≤ length v
unfolding trim_start
length-trim_start [] = omega arith
length-trim_start (c ∷ s) = ground (arith, length-trim_start s)

length-reverse_aux : (s acc : Text) → length (reverse_aux s acc) ≡ length s + length acc
length-reverse_aux [] acc = omega arith
length-reverse_aux (c ∷ s) acc = omega (arith, length-reverse_aux s (c ∷ acc))

length-trim : (v : Text) → length (trim v) ≤ length v
unfolding trim
length-trim v =
    let front = trim_start v in
    omega (
      arith,
      length-trim_start v,
      length-reverse_aux front [],
      length-trim_start (reverse_aux front []),
      length-reverse_aux (trim_start (reverse_aux front [])) [],
    )

clauses_list-same :
    (f g : Text → List Text) (ts : List Text)
    → All (λ t. f t ≡ g t) ts
    → clauses_list f ts ≡ clauses_list g ts
unfolding clauses_list
clauses_list-same f g [] h = refl
clauses_list-same f g (t ∷ ts) h = rw (h.0, clauses_list-same f g ts h.1) refl

-- One call depends on shorter texts alone.
clauses_step-same :
    (f g : Text → List Text) (v : Text)
    → ((t : Text) → length t < length v → f t ≡ g t)
    → clauses_step f v ≡ clauses_step g v
unfolding clauses_step
clauses_step-same f g v same =
    let value = trim v in
    let parts = (scan 0 0 value).parts in
    let trimmed = length-trim v in
    let fits = scan-Fits 0 0 value in
    elim (Option-cases (unwrap value)) [
      | inr (inner, found) ↦
          let inside = length-unwrap value inner found in
          rw (clauses_step, found) (same inner (omega (arith, trimmed, inside)))
      | inl whole ↦ elim (Bool-cases (nat_eq (length parts) 1)) [
        | inl one ↦ rw (clauses_step, whole, one) refl
        | inr several ↦
            let two : 2 ≤ length parts = ground (arith, fits.0, several) in
            let small = parts-shorter (length value) parts (omega (arith, fits.1, two)) in
            let parts_same =
              All-map _ (λ t. f t ≡ g t) parts (λ t h. same t (omega (arith, trimmed, h))) small in
            rw (clauses_step, whole, several, clauses_list-same f g parts parts_same) refl
      ]
    ]

clauses_from-enough :
    (n m : ℕ) (v : Text) → length v < n → length v < m → clauses_from n v ≡ clauses_from m v
unfolding clauses_from
clauses_from-enough zero m v hn hm = absurd (omega (arith, hn))
clauses_from-enough (suc n) zero v hn hm = absurd (omega (arith, hm))
clauses_from-enough (suc n) (suc m) v hn hm =
    clauses_step-same (clauses_from n) (clauses_from m) v
      (λ t h. clauses_from-enough n m t (omega (arith, hn, h)) (omega (arith, hm, h)))

-- The fuel of `clauses` is enough: it is the source's recursion, without fuel.
pub clauses-clauses_step : (v : Text) → clauses v ≡ clauses_step clauses v
unfolding clauses clauses_from
clauses-clauses_step v =
    clauses_step-same (clauses_from (length v)) clauses v
      (λ t h. clauses_from-enough (length v) (suc (length t)) t h (omega arith))
