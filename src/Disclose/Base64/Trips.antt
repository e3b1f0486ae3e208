-- ===== src/Disclose/Base64/Trips.antt =====
-- repro.rs: what `b64` encodes, `b64_decode` decodes, and nothing else.
use solinv.Base.{
  nat_eq, Bool-cases, Option-cases, ◌==◌, eq_iff, eq_refl, length, All, Bytes, Text, is_empty_text,
  ℕ, zero, suc, ◌/◌, ◌%◌, ◌^◌, ◌<◌, ◌≡◌, refl, sym, ap, ◌↔◌, inl, inr, Bool, true, false, not, ◌&&◌,
  some, [], ◌∷◌, arith, ℕ_eq, list_eq, option_eq,
}
use solinv.Disclose.Base64.{
  symbol_at, three_bytes, sextet, is_pad, b64, val, gather, quantum, decode_chunks, b64_decode,
}

-- A test that passes on every number below `n`.
passes_below : (ℕ → Bool) → ℕ → Bool
passes_below p zero = true
passes_below p (suc n) = p n && passes_below p n

passes_below_lem : (p : ℕ → Bool) (n k : ℕ) → k < n → passes_below p n ≡ true → p k ≡ true
unfolding passes_below
passes_below_lem p zero k h e = absurd (omega arith)
passes_below_lem p (suc n) k h e = elim (Bool-cases (nat_eq k n)) [
  | inl last ↦ let same : k ≡ n = ground (arith, last) in rw same (ground (arith, e))
  | inr earlier ↦ passes_below_lem p n k (ground (arith, earlier, h)) (ground (arith, e))
]

abbrev has_value : ℕ → Bool
has_value k = val (symbol_at k) == some k

abbrev is_symbol : ℕ → Bool
is_symbol k = not (is_pad (symbol_at k))

all_have_values : passes_below has_value 64 ≡ true
unfolding passes_below val symbol_at
all_have_values = refl

all_are_symbols : passes_below is_symbol 64 ≡ true
unfolding passes_below symbol_at
all_are_symbols = refl

val-symbol_at : (k : ℕ) → k < 64 → val (symbol_at k) ≡ some k
val-symbol_at k h =
    (eq_iff (val (symbol_at k)) (some k)).0 (passes_below_lem has_value 64 k h all_have_values)

is_pad-symbol_at : (k : ℕ) → k < 64 → is_pad (symbol_at k) ≡ false
is_pad-symbol_at k h = ground (arith, passes_below_lem is_symbol 64 k h all_are_symbols)

-- Four values are gathered into the number that they were cut from.
gather_four :
    (n : ℕ)
    → n < 2 ^ 24
    → gather 0 (
        symbol_at (sextet n 18)
        ∷ symbol_at (sextet n 12)
        ∷ symbol_at (sextet n 6)
        ∷ symbol_at (sextet n 0)
        ∷ [])
      ≡ some n
unfolding gather
gather_four n h =
    rw
      (
        gather,
        val-symbol_at (sextet n 18) (omega arith),
        val-symbol_at (sextet n 12) (omega arith),
        val-symbol_at (sextet n 6) (omega arith),
        val-symbol_at (sextet n 0) (omega arith),
      )
      (ap some (omega arith))

gather_three :
    (n : ℕ)
    → n < 2 ^ 24
    → gather 0 (symbol_at (sextet n 18) ∷ symbol_at (sextet n 12) ∷ symbol_at (sextet n 6) ∷ [])
      ≡ some (n / 2 ^ 6)
unfolding gather
gather_three n h =
    rw
      (
        gather,
        val-symbol_at (sextet n 18) (omega arith),
        val-symbol_at (sextet n 12) (omega arith),
        val-symbol_at (sextet n 6) (omega arith),
      )
      (ap some (omega arith))

gather_two :
    (n : ℕ)
    → n < 2 ^ 24
    → gather 0 (symbol_at (sextet n 18) ∷ symbol_at (sextet n 12) ∷ []) ≡ some (n / 2 ^ 12)
unfolding gather
gather_two n h =
    rw
      (gather, val-symbol_at (sextet n 18) (omega arith), val-symbol_at (sextet n 12) (omega arith))
      (ap some (omega arith))

triple : (a b c x y z : ℕ) → a ≡ x → b ≡ y → c ≡ z → some (a ∷ b ∷ c ∷ []) ≡ some (x ∷ y ∷ z ∷ [])
triple a b c x y z ha hb hc = rw (ha, hb, hc) refl

pair : (a b x y : ℕ) → a ≡ x → b ≡ y → some (a ∷ b ∷ []) ≡ some (x ∷ y ∷ [])
pair a b x y ha hb = rw (ha, hb) refl

-- A sextet has a symbol, which is no padding.
no_pad : (n shift : ℕ) → is_pad (symbol_at (sextet n shift)) ≡ false
no_pad n shift = is_pad-symbol_at (sextet n shift) (omega arith)

quantum_three :
    (x y z : ℕ)
    → x < 256
    → y < 256
    → z < 256
    → (is_last : Bool)
    → let n = three_bytes x y z in
      quantum is_last (
        symbol_at (sextet n 18)
        ∷ symbol_at (sextet n 12)
        ∷ symbol_at (sextet n 6)
        ∷ symbol_at (sextet n 0)
        ∷ [])
      ≡ some (x ∷ y ∷ z ∷ [])
unfolding quantum
quantum_three x y z hx hy hz is_last =
    let n = three_bytes x y z in
    rw (quantum, no_pad n 18, no_pad n 12, no_pad n 6, no_pad n 0, gather_four n (omega arith))
      (rw (no_pad n 18, no_pad n 12, no_pad n 6, no_pad n 0)
        (triple _ _ _ x y z (omega arith) (omega arith) (omega arith)))

quantum_two :
    (x y : ℕ)
    → x < 256
    → y < 256
    → let n = three_bytes x y 0 in
      quantum true
        (symbol_at (sextet n 18) ∷ symbol_at (sextet n 12) ∷ symbol_at (sextet n 6) ∷ b'=' ∷ [])
      ≡ some (x ∷ y ∷ [])
unfolding quantum
quantum_two x y hx hy =
    let n = three_bytes x y 0 in
    rw (quantum, no_pad n 18, no_pad n 12, no_pad n 6, gather_three n (omega arith))
      (rw (no_pad n 18, no_pad n 12, no_pad n 6) (pair _ _ x y (omega arith) (omega arith)))

quantum_one :
    (x : ℕ)
    → x < 256
    → let n = three_bytes x 0 0 in
      quantum true (symbol_at (sextet n 18) ∷ symbol_at (sextet n 12) ∷ b'=' ∷ b'=' ∷ [])
      ≡ some (x ∷ [])
unfolding quantum
quantum_one x hx =
    let n = three_bytes x 0 0 in
    rw (quantum, no_pad n 18, no_pad n 12, gather_two n (omega arith))
      (rw (no_pad n 18, no_pad n 12) (ap (λ a. some (a ∷ [])) (omega arith)))

abbrev pub IsByte : ℕ → Type 0
IsByte b = b < 256

decode_chunks-b64 : (bytes : Bytes) → All IsByte bytes → decode_chunks (b64 bytes) ≡ some bytes
unfolding decode_chunks b64
decode_chunks-b64 [] h = refl
decode_chunks-b64 (x ∷ []) h = rw (quantum_one x h.0) refl
decode_chunks-b64 (x ∷ y ∷ []) h = rw (quantum_two x y h.0 h.1.0) refl
decode_chunks-b64 (x ∷ y ∷ z ∷ bytes) h =
    rw
      (
        quantum_three x y z h.0 h.1.0 h.1.1.0 (is_empty_text (b64 bytes)),
        decode_chunks-b64 bytes h.1.1.1,
      )
      refl

length-b64 : (bytes : Bytes) → length (b64 bytes) % 4 ≡ 0
unfolding b64
length-b64 [] = refl
length-b64 (x ∷ []) = refl
length-b64 (x ∷ y ∷ []) = refl
length-b64 (x ∷ y ∷ z ∷ bytes) = omega (arith, length-b64 bytes)

trip : (bytes : Bytes) → All IsByte bytes → b64_decode (b64 bytes) ≡ some bytes
unfolding b64_decode
trip bytes h =
    rw (b64_decode, length-b64 bytes, decode_chunks-b64 bytes h, eq_refl (b64 bytes)) refl

accepted_only : (text : Text) (out : Bytes) → b64_decode text ≡ some out → b64 out ≡ text
unfolding b64_decode
accepted_only text out e = elim (Bool-cases (not (nat_eq (length text % 4) 0))) [
  | inl odd ↦ absurd (ground (arith, rw (b64_decode, odd) at e))
  | inr even ↦ elim (Option-cases (decode_chunks text)) [
    | inl refused ↦ absurd (ground (arith, rw (b64_decode, even, refused) at e))
    | inr (found, read) ↦ elim (Bool-cases (b64 found == text)) [
      | inl canonical ↦
          let same : found ≡ out = ground (arith, rw (b64_decode, even, read, canonical) at e) in
          rw (sym same) ((eq_iff (b64 found) text).0 canonical)
      | inr other ↦ absurd (ground (arith, rw (b64_decode, even, read, other) at e))
    ]
  ]
]

-- A text decodes to a sequence of bytes exactly if it is their encoding, so that no two texts carry the
-- same bytes.
pub b64_decode-b64_iff :
    (text : Text) (bytes : Bytes)
    → All IsByte bytes
    → (b64_decode text ≡ some bytes) ↔ (b64 bytes ≡ text)
b64_decode-b64_iff text bytes h = (accepted_only text bytes, λ same. rw (sym same) (trip bytes h))
