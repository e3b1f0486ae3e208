-- ===== src/Fuzz/Differential.antt =====
-- crates/solinv-fuzz/src/differential.rs: the comparison of an Anchor program with its rewrite. The
-- accounts are read by the parameter `get_account`, and `debug` is `{:?}` of a transaction's error.
pub mod Bodies
pub mod Faults
use solinv.Base.{
  ltb, nat_eq, if◌then◌else◌, is_some, ◌>>=◌, ◌==◌, length, get_elem?, Result, ok, err, and_then,
  u64_mod, checked_add, Bytes, Text, codes, slice, show, ℕ, suc, ◌+◌, ◌-◌, ◌%◌, ◌^◌, Bool, true,
  false, not, ◌&&◌, Option, none, some, List, [], ◌∷◌, ◌++◌, ℕ_eq, list_eq, option_eq,
}
use solinv.Solana.{Pubkey, Account, TransactionError, TxOutcome, success, program_error}
use solinv.Disclose.Divergence.{Divergence, body, parity, cu}

pub record DiffAccountPair : Type 0 where
  pub label : Text
  pub anchor : Pubkey
  pub anchor_offset : ℕ
  pub pino : Pubkey
  pub pino_offset : ℕ
  pub body_size : ℕ

unfoldable pub anchor_disc_8 : Text → Pubkey → Pubkey → ℕ → DiffAccountPair
anchor_disc_8 label anchor pino body_size = record {
  label = label;
  anchor = anchor;
  anchor_offset = 8;
  pino = pino;
  pino_offset = 0;
  body_size = body_size;
}

unfoldable pub raw_pair : Text → Pubkey → Pubkey → ℕ → DiffAccountPair
raw_pair label anchor pino body_size = record {
  label = label;
  anchor = anchor;
  anchor_offset = 0;
  pino = pino;
  pino_offset = 0;
  body_size = body_size;
}

pub record BodyDivergence : Type 0 where
  pub label : Text
  pub first_byte : ℕ
  pub anchor_byte : ℕ
  pub pino_byte : ℕ
  pub body_size : ℕ

pub record SideResult : Type 0 where
  pub accepts : Bool
  pub error_code : Option ℕ
  pub reason : Option Text

unfoldable pub accepted : SideResult
accepted = record { accepts = true; error_code = none; reason = none }

unfoldable pub custom : ℕ → SideResult
unfolding show
custom code = record {
  accepts = false;
  error_code = some code;
  reason = some (codes "custom:" ++ show code);
}

unfoldable pub builtin : Text → SideResult
builtin tag = record { accepts = false; error_code = none; reason = some (codes "builtin:" ++ tag) }

unfoldable pub from_outcome : (TransactionError → Text) → TxOutcome → SideResult
unfolding accepted custom builtin
from_outcome debug (success logs units) = accepted
from_outcome debug (program_error logs error (some code)) = custom code
from_outcome debug (program_error logs error none) = builtin (debug error)

-- `anchor == pino`, which `SideResult` derives field by field.
abbrev pub bool_eq : Bool → Bool → Bool
bool_eq true b = b
bool_eq false b = not b

abbrev pub same_side : SideResult → SideResult → Bool
same_side a p =
    bool_eq a.accepts p.accepts && ((a.error_code == p.error_code) && (a.reason == p.reason))

pub record ParityDivergence : Type 0 where
  pub label : Text
  pub anchor : SideResult
  pub pino : SideResult

unfoldable pub check_parity : Text → SideResult → SideResult → Option ParityDivergence
check_parity label anchor pino =
    if same_side anchor pino
    then none
    else some (record { label = label; anchor = anchor; pino = pino })

unfoldable pub check_outcomes :
    (TransactionError → Text) → Text → TxOutcome → TxOutcome → Option ParityDivergence
unfolding check_parity from_outcome
check_outcomes debug label anchor pino =
    check_parity label (from_outcome debug anchor) (from_outcome debug pino)

-- A transaction that was not sent on a side leaves that side's error.
pub record SendFailure : Type 0 where
  pub label : Text
  pub anchor_error : Option Text
  pub pino_error : Option Text

abbrev pub error_of {ℓ κ} : {E : Type ℓ} {A : Type κ} → (E → Text) → Result E A → Option Text
error_of write (ok a) = none
error_of write (err e) = some (write e)

unfoldable pub check_sent {ℓ κ} :
    {E : Type ℓ} {A : Type κ} → (E → Text) → Text → Result E A → Result E A → Option SendFailure
check_sent write label anchor pino =
    let anchor_error = error_of write anchor in
    let pino_error = error_of write pino in
    if not (is_some anchor_error) && not (is_some pino_error)
    then none
    else some (record { label = label; anchor_error = anchor_error; pino_error = pino_error })

pub record CuComparison : Type 0 where
  pub label : Text
  pub anchor_cu : Option ℕ
  pub pino_cu : Option ℕ

-- The units of an outcome are the parameter `compute_units`, the test context's `TxOutcome::compute_units`.
unfoldable pub from_outcomes : (TxOutcome → Option ℕ) → Text → TxOutcome → TxOutcome → CuComparison
from_outcomes compute_units label anchor pino = record {
  label = label;
  anchor_cu = compute_units anchor;
  pino_cu = compute_units pino;
}

-- An `i64`; `negsuc n` is -(n + 1).
pub data ℤ : Type 0 where
  pos : ℕ → ℤ
  negsuc : ℕ → ℤ

-- The `i64` of 64 bits.
unfoldable pub as_i64 : ℕ → ℤ
as_i64 bits = if ltb bits (2 ^ 63) then pos bits else negsuc (u64_mod - 1 - bits)

-- `p as i64 - a as i64`, which wraps: the difference of the bits.
unfoldable pub delta : CuComparison → Option ℤ
unfolding as_i64
delta c = do a ← c.anchor_cu; p ← c.pino_cu; some (as_i64 ((p + u64_mod - a) % u64_mod))

unfoldable pub is_regression : CuComparison → Bool
unfolding delta
is_regression c = elim (delta c) [
  | none ↦ false
  | some d ↦ elim d [ pos n ↦ ltb 0 n | negsuc n ↦ false ]
]

unfoldable pub regression :
    (TxOutcome → Option ℕ) → Text → TxOutcome → TxOutcome → Option CuComparison
unfolding is_regression from_outcomes
regression compute_units label anchor pino =
    let cmp = from_outcomes compute_units label anchor pino in
    if is_regression cmp then some cmp else none

-- The conversions into `solinv_disclose::Divergence`.
unfoldable pub of_body : BodyDivergence → Divergence
of_body d = body d.label d.first_byte d.anchor_byte d.pino_byte d.body_size

unfoldable pub of_parity : ParityDivergence → Divergence
of_parity d =
    parity d.label d.anchor.accepts d.pino.accepts d.anchor.error_code d.pino.error_code
      d.anchor.reason d.pino.reason

unfoldable pub of_cu : CuComparison → Divergence
of_cu c = cu c.label c.anchor_cu c.pino_cu

-- The first place where two buffers differ, in their common length.
unfoldable pub first_difference : Bytes → Bytes → Option ℕ
first_difference [] p = none
first_difference (x ∷ a) [] = none
first_difference (x ∷ a) (y ∷ p) =
    let later = first_difference a p >>= λ i. some (suc i) in if nat_eq x y then later else some 0

-- The compared bytes of one side. In a release build the sum of the offset and the size wraps, and a
-- slice that ends before it starts panics.
pub data Body : Type 0 where
  too_short overruns : Body
  held : Bytes → Body

pub data Panic : Type 0 where
  slice_panic : Panic

unfoldable pub body_of : Account → ℕ → ℕ → Body
body_of account offset body_size = elim (checked_add u64_mod offset body_size) [
  | none ↦
      if ltb (length account.contents) (offset + body_size - u64_mod) then too_short else overruns
  | some end ↦
      if ltb (length account.contents) end
      then too_short
      else held (slice account.contents offset body_size)
]

-- Both lengths are tested before either slice is taken.
unfoldable pub both_bodies : Body → Body → Result Panic (Option (Bytes × Bytes))
both_bodies too_short p = ok none
both_bodies overruns too_short = ok none
both_bodies overruns overruns = err slice_panic
both_bodies overruns (held p) = err slice_panic
both_bodies (held a) too_short = ok none
both_bodies (held a) overruns = err slice_panic
both_bodies (held a) (held p) = ok (some (a, p))

unfoldable pub compare_bodies : DiffAccountPair → Bytes × Bytes → Option BodyDivergence
compare_bodies pair (a, p) = do
  first_byte ← first_difference a p
  anchor_byte ← get_elem? a first_byte
  pino_byte ← get_elem? p first_byte
  some (record {
    label = pair.label;
    first_byte = first_byte;
    anchor_byte = anchor_byte;
    pino_byte = pino_byte;
    body_size = pair.body_size;
  })

module _ (get_account : Pubkey → Option Account) where
  unfoldable pub read_pair_bodies : DiffAccountPair → Result Panic (Option (Bytes × Bytes))
  read_pair_bodies pair = elim (get_account pair.anchor) [
    | none ↦ ok none
    | some a ↦ elim (get_account pair.pino) [
      | none ↦ ok none
      | some p ↦
          both_bodies (body_of a pair.anchor_offset pair.body_size)
            (body_of p pair.pino_offset pair.body_size)
    ]
  ]

  unfoldable pub check_pair_equivalent : DiffAccountPair → Result Panic (Option BodyDivergence)
  check_pair_equivalent pair =
      and_then (read_pair_bodies pair) (λ bodies. ok (bodies >>= compare_bodies pair))

  -- `find_map`: the pairs behind a divergence are not read.
  unfoldable pub check_all_pairs : List DiffAccountPair → Result Panic (Option BodyDivergence)
  check_all_pairs [] = ok none
  check_all_pairs (pair ∷ pairs) =
      let rest = check_all_pairs pairs in
      and_then (check_pair_equivalent pair)
        (λ found. elim found [ none ↦ rest | some d ↦ ok (some d) ])
