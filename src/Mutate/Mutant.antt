-- ===== src/Mutate/Mutant.antt =====
-- crates/solinv-mutate/src/mutant.rs and operator.rs: mutants cut from source text and put back. A
-- source is its UTF-8 bytes; the regex crate is a parameter.
pub mod Applies
use Prim.Native.Nat.{bit_xor, min}
use solinv.Base.{
  ltb, nat_eq, if◌then◌else◌, ◌>>=◌, ◌==◌, length, take, drop, Result, ok, err, and_then, u64_mod,
  Bytes, Text, codes, slice, show, ℕ, zero, suc, ◌+◌, ◌-◌, ◌*◌, ◌/◌, ◌%◌, max, Bool, not, ◌||◌,
  Option, none, some, List, [], ◌∷◌, ◌++◌, ℕ_eq, list_eq, option_eq,
}

pub data Tier : Type 0 where
  critical high : Tier

pub record MutationOperator : Type 0 where
  pub id : Text
  pub description : Text
  pub expected_killer : Text
  pub tier : Tier
  pub pattern : Text
  pub replacement : Text
  pub rationale : Text

pub record Mutant : Type 0 where
  pub id : Text
  pub operator : Text
  pub expected_killer : Text
  pub tier : Tier
  pub file : Text
  pub line : ℕ
  pub byte_start : ℕ
  pub byte_end : ℕ
  pub original : Bytes
  pub mutated : Bytes
  pub source_digest : Text
  pub enclosing_fn : Option Text

abbrev pub uncovered_invariants : List Text
uncovered_invariants =
    codes "cu-dos" ∷ codes "cpi-reentrancy" ∷ codes "realloc-race" ∷ codes "account-swap" ∷ []

abbrev pub fnv_offset : ℕ
fnv_offset = 0xcbf29ce484222325

abbrev pub fnv_prime : ℕ
fnv_prime = 0x100000001b3

unfoldable pub fnv : ℕ → Bytes → ℕ
fnv h [] = h
fnv h (b ∷ bs) = fnv ((bit_xor h b * fnv_prime) % u64_mod) bs

abbrev pub hex_digit : ℕ → ℕ
hex_digit n = if ltb n 10 then b'0' + n else b'a' + (n - 10)

-- The low `width` hexadecimal digits, the highest first.
unfoldable pub hex : ℕ → ℕ → Text
hex zero n = []
hex (suc width) n = hex width (n / 16) ++ (hex_digit (n % 16) ∷ [])

-- FNV-1a as `{h:016x}`.
unfoldable pub digest : Bytes → Text
unfolding fnv hex
digest bytes = hex 16 (fnv fnv_offset bytes)

-- `str::lines().count()`: a last line that is empty is not counted.
unfoldable pub count_lines : Bytes → ℕ
count_lines [] = 0
count_lines (b ∷ []) = 1
count_lines (b ∷ c ∷ bs) =
    let rest = count_lines (c ∷ bs) in if nat_eq b b'\n' then 1 + rest else rest

-- What the source asks of the regex crate: a pattern's matches as byte spans, in order, with the
-- rewrite of a matched text, and the names that the patterns of `enclosing_fn` capture.
pub record Regexes : Type 0 where
  pub compiles : Text → Bool
  pub find_iter : Text → Bytes → List (ℕ × ℕ)
  pub replace : Text → Text → Bytes → Bytes
  -- The start and the name of the last declaration of a text.
  pub last_fn : Bytes → Option (ℕ × Text)
  pub last_struct : Bytes → Option (ℕ × Text)
  -- The first handler that takes a struct as its context.
  pub handler_taking_context : Bytes → Text → Option Text

pub data ApplyError : Type 0 where
  -- The id, the file, the digest in the plan, and the digest of the file.
  stale : Text → Text → Text → Text → ApplyError
  -- The id, the span, and the length of the file.
  outside : Text → ℕ → ℕ → ℕ → ApplyError

unfoldable pub apply : Bytes → Mutant → Result {0, 0} ApplyError Bytes
apply contents m =
    let actual = digest contents in
    if not (actual == m.source_digest)
    then err (stale m.id m.file m.source_digest actual)
    else if ltb (length contents) m.byte_end || ltb m.byte_end m.byte_start
    then err (outside m.id m.byte_start m.byte_end (length contents))
    else ok (take m.byte_start contents ++ (m.mutated ++ drop m.byte_end contents))

module _ (re : Regexes) where
  open re use {compiles, find_iter, replace, last_fn, last_struct, handler_taking_context}

  unfoldable pub enclosing_fn : Bytes → ℕ → Option Text
  enclosing_fn contents offset =
      let head = take (min offset (length contents)) contents in
      elim (last_fn head) [
        | none ↦ last_struct head >>= λ s. handler_taking_context contents s.1
        | some f ↦ elim (last_struct head) [
          | none ↦ some f.1
          | some s ↦ if ltb f.0 s.0 then handler_taking_context contents s.1 else some f.1
        ]
      ]

  -- `re.replace(m.as_str(), op.replacement)`.
  abbrev pub rewritten : Bytes → MutationOperator → ℕ × ℕ → Bytes
  rewritten contents op (start, end) =
      replace op.pattern op.replacement (slice contents start (end - start))

  -- The mutant of one match.
  unfoldable pub new_mutant : Text → Bytes → MutationOperator → ℕ → ℕ × ℕ → Mutant
  unfolding count_lines enclosing_fn
  new_mutant path contents op occurrence (start, end) =
      let line = max (count_lines (take start contents)) 1 in
      record {
        id =
            op.id
            ++ (codes "@"
                ++ (path ++ (codes ":" ++ (show line ++ (codes "#" ++ show occurrence)))));
        operator = op.id;
        expected_killer = op.expected_killer;
        tier = op.tier;
        file = path;
        line = line;
        byte_start = start;
        byte_end = end;
        original = slice contents start (end - start);
        mutated = rewritten contents op (start, end);
        source_digest = digest contents;
        enclosing_fn = enclosing_fn contents start;
      }

  -- A rewrite that changes nothing is no mutant.
  unfoldable pub cut : Text → Bytes → MutationOperator → ℕ → ℕ × ℕ → Option Mutant
  unfolding new_mutant
  cut path contents op occurrence (start, end) =
      if rewritten contents op (start, end) == slice contents start (end - start)
      then none
      else some (new_mutant path contents op occurrence (start, end))

  unfoldable pub cut_all : Text → Bytes → MutationOperator → ℕ → List (ℕ × ℕ) → List Mutant
  unfolding cut
  cut_all path contents op occurrence [] = []
  cut_all path contents op occurrence (span ∷ spans) =
      let rest = cut_all path contents op (suc occurrence) spans in
      elim (cut path contents op occurrence span) [ none ↦ rest | some m ↦ m ∷ rest ]

  unfoldable pub generate_file :
      Text → Bytes → List MutationOperator → Result {0, 0} Text (List Mutant)
  unfolding cut_all
  generate_file path contents [] = ok []
  generate_file path contents (op ∷ ops) =
      let found = cut_all path contents op 0 (find_iter op.pattern contents) in
      let rest = and_then (generate_file path contents ops) λ ms. ok (found ++ ms) in
      if compiles op.pattern then rest else err op.pattern

  -- The error of a pattern that does not compile is that pattern.
  unfoldable pub generate_with :
      List (Text × Bytes) → List MutationOperator → Result {0, 0} Text (List Mutant)
  unfolding generate_file
  generate_with [] ops = ok []
  generate_with ((path, contents) ∷ sources) ops =
      let rest = generate_with sources ops in
      and_then (generate_file path contents ops) λ ms. and_then rest λ later. ok (ms ++ later)
