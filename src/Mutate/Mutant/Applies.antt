-- ===== src/Mutate/Mutant/Applies.antt =====
-- mutant.rs: what `apply` makes of the mutants that generation cuts.
use solinv.Base.{
  Bool-cases, Option-cases, ◌==◌, eq_iff, eq_refl, length, take, drop, length-append, All,
  All-append, ok, Result-cases, Bytes, Text, slice, ℕ, zero, suc, ◌+◌, ◌-◌, ◌≤◌, ◌≡◌, refl, sym, ap,
  ◌∙◌, ◌≢◌, ◌↔◌, inl, inr, some, List, [], ◌∷◌, ◌++◌, arith, ℕ_eq, list_eq, option_eq,
}
use solinv.Mutate.Mutant.{
  MutationOperator, Mutant, digest, Regexes, apply, rewritten, new_mutant, cut, cut_all,
  generate_file,
}

-- `apply` accepts the mutant on these contents, replaces exactly its span, and changes them.
abbrev pub Plants : Bytes → Mutant → Type 0
Plants contents m =
    (apply contents m ≡ ok (take m.byte_start contents ++ (m.mutated ++ drop m.byte_end contents)))
    × (take m.byte_start contents ++ (m.original ++ drop m.byte_end contents) ≡ contents)
    × (take m.byte_start contents ++ (m.mutated ++ drop m.byte_end contents) ≢ contents)

apply-accepts :
    (contents : Bytes) (m : Mutant)
    → m.source_digest ≡ digest contents
    → m.byte_start ≤ m.byte_end
    → m.byte_end ≤ length contents
    → apply contents m ≡ ok (take m.byte_start contents ++ (m.mutated ++ drop m.byte_end contents))
unfolding apply
apply-accepts contents m fresh ordered inside =
    let checked = eq_refl (digest contents) in rw (fresh, checked) (ground (arith, ordered, inside))

-- `apply` returns a text exactly where the file still has the digest that the mutant records and its
-- span lies in the file, and then it is the file with that span replaced.
pub apply-ok_iff :
    (contents : Bytes) (m : Mutant) (out : Bytes)
    → (apply contents m ≡ ok out) ↔ (
        (m.source_digest ≡ digest contents)
        × (m.byte_start ≤ m.byte_end)
        × (m.byte_end ≤ length contents)
        × (out ≡ take m.byte_start contents ++ (m.mutated ++ drop m.byte_end contents)))
unfolding apply
apply-ok_iff contents m out =
    let fresh = eq_iff (digest contents) m.source_digest in ground (arith, fresh)

-- A span of a text, as the documentation of `Match` promises.
abbrev pub IsSpan : Bytes → ℕ × ℕ → Type 0
IsSpan contents (start, end) = (start ≤ end) × (end ≤ length contents)

take-drop {ℓ} : {A : Type ℓ} (n : ℕ) (xs : List A) → take n xs ++ drop n xs ≡ xs
take-drop zero xs = refl
take-drop (suc n) [] = refl
take-drop (suc n) (x ∷ xs) = ap (◌∷◌ x) (take-drop n xs)

drop-nil {ℓ} : {A : Type ℓ} (n : ℕ) → drop {A = A} n [] ≡ []
drop-nil zero = refl
drop-nil (suc n) = refl

drop-drop {ℓ} : {A : Type ℓ} (m n : ℕ) (xs : List A) → drop n (drop m xs) ≡ drop (m + n) xs
drop-drop zero n xs = ap (λ k. drop k xs) {x = n} (omega arith)
drop-drop (suc m) zero [] = ground arith
drop-drop (suc m) (suc n) [] = sym (drop-nil (suc m + suc n))
drop-drop (suc m) n (x ∷ xs) =
    drop-drop m n xs ∙ ap (λ k. drop k (x ∷ xs)) {x = suc (m + n)} (omega arith)

span-splits :
    (contents : Bytes) (start end : ℕ)
    → IsSpan contents (start, end)
    → take start contents ++ (slice contents start (end - start) ++ drop end contents) ≡ contents
span-splits contents start end h =
    let whole = take-drop (end - start) (drop start contents) in
    let back = drop-drop start (end - start) contents in
    let ends : start + (end - start) ≡ end = omega (arith, h.0) in
    ap (λ rest. take start contents ++ (slice contents start (end - start) ++ rest))
      (sym (ap (λ n. drop n contents) ends) ∙ sym back)
    ∙ ap (λ rest. take start contents ++ rest) whole
    ∙ take-drop start contents

front-cancel {ℓ} : {A : Type ℓ} (front a b : List A) → front ++ a ≡ front ++ b → a ≡ b
front-cancel [] a b same = same
front-cancel (x ∷ front) a b same = front-cancel front a b (ground (arith, same))

back-cancel {ℓ} : {A : Type ℓ} (back a b : List A) → a ++ back ≡ b ++ back → a ≡ b
back-cancel back [] [] same = refl
back-cancel back [] (y ∷ b) same =
    absurd (omega (arith, ap length same, length-append (y ∷ b) back))
back-cancel back (x ∷ a) [] same =
    absurd (omega (arith, ap length same, length-append (x ∷ a) back))
back-cancel back (x ∷ a) (y ∷ b) same =
    let rest = back-cancel back a b (ground (arith, same)) in ground (arith, same, rest)

module _ (re : Regexes) where
  cut-Plants :
      (path : Text) (contents : Bytes) (op : MutationOperator) (occurrence : ℕ) (span : ℕ × ℕ)
      (m : Mutant)
      → IsSpan contents span
      → cut re path contents op occurrence span ≡ some m
      → Plants contents m
  unfolding cut apply
  cut-Plants path contents op occurrence (start, end) m h made =
      let found = slice contents start (end - start) in
      elim (Bool-cases (rewritten re contents op (start, end) == found)) [
        | inl kept ↦ absurd (ground (arith, kept, made))
        | inr differs ↦
            let same : m ≡ new_mutant re path contents op occurrence (start, end) =
              ground (arith, differs, made) in
            let split = span-splits contents start end h in
            rw same (
              apply-accepts contents (new_mutant re path contents op occurrence (start, end)) refl
                  h.0 h.1,
              split,
              λ unchanged.
                  let front = take start contents in
                  let back = drop end contents in
                  let equal_middle : rewritten re contents op (start, end) ≡ found =
                    back-cancel back _ _ (front-cancel front _ _ (unchanged ∙ sym split)) in
                  absurd (
                    ground (
                      arith,
                      differs,
                      eq_iff (rewritten re contents op (start, end)) found,
                      equal_middle,
                    )),
            )
      ]

  cut_all-Plants :
      (path : Text) (contents : Bytes) (op : MutationOperator) (occurrence : ℕ)
      (spans : List (ℕ × ℕ))
      → All (IsSpan contents) spans
      → All (Plants contents) (cut_all re path contents op occurrence spans)
  unfolding cut_all
  cut_all-Plants path contents op occurrence [] h = tt
  cut_all-Plants path contents op occurrence (span ∷ spans) h =
      elim (Option-cases (cut re path contents op occurrence span)) [
        | inl kept ↦ rw (kept, All) (cut_all-Plants path contents op (suc occurrence) spans h.1)
        | inr (m, made) ↦
            rw (made, All)
              (
                cut-Plants path contents op occurrence span m h.0 made,
                cut_all-Plants path contents op (suc occurrence) spans h.1,
              )
      ]

  -- Where the regex crate returns only spans of the text that it searched, every mutant that
  -- generation cuts from a file is accepted by `apply` on that file, replaces exactly the matched
  -- text, and changes the file.
  pub generate_file-Plants :
      ((pattern : Text) (text : Bytes) → All (IsSpan text) (re.find_iter pattern text))
      → (path : Text) (contents : Bytes) (ops : List MutationOperator) (ms : List Mutant)
      → generate_file re path contents ops ≡ ok ms
      → All (Plants contents) ms
  unfolding generate_file
  generate_file-Plants spans path contents [] ms made = ground (arith, made)
  generate_file-Plants spans path contents (op ∷ ops) ms made =
      elim (Bool-cases (re.compiles op.pattern)) [
        | inr broken ↦ absurd (ground (arith, broken, made))
        | inl compiled ↦ elim (Result-cases (generate_file re path contents ops)) [
          | inr (e, failed) ↦ absurd (ground (arith, compiled, failed, made))
          | inl (later, generated) ↦
              let found = cut_all re path contents op 0 (re.find_iter op.pattern contents) in
              let same : ms ≡ found ++ later = ground (arith, compiled, generated, made) in
              rw (same, All)
                (All-append (Plants contents) found later
                  (cut_all-Plants path contents op 0 _ (spans op.pattern contents))
                  (generate_file-Plants spans path contents ops later generated))
        ]
      ]
