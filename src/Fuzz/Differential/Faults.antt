-- ===== src/Fuzz/Differential/Faults.antt =====
-- Rejections and compute units in differential.rs, against the faults of divergence.rs.
use solinv.Base.{
  ltb, is_some, eq_iff, Text, codes, show, ℕ, ◌^◌, ◌<◌, ◌≡◌, refl, ap, ◌↔◌, Bool, true, false, not,
  ◌||◌, Option, none, some, List, ◌++◌, arith, ℕ_eq, list_eq, option_eq,
}
use solinv.Solana.{TransactionError, TxOutcome, success, program_error}
use solinv.Disclose.Divergence.{is_fault}
use solinv.Fuzz.Differential.{
  SideResult, custom, builtin, from_outcome, bool_eq, check_parity, check_outcomes, from_outcomes,
  is_regression, regression, of_cu,
}

-- Outcomes of one kind, whatever their logs and their compute units: both accepted, both rejected with
-- one custom code, or both rejected with builtin errors of one name.
abbrev pub SameOutcome : (TransactionError → Text) → TxOutcome → TxOutcome → Type 0
SameOutcome debug (success logs units) (success logs' units') = Unit
SameOutcome debug (success logs units) (program_error logs' error' code') = ⊥
SameOutcome debug (program_error logs error code) (success logs' units') = ⊥
SameOutcome debug (program_error logs error (some c)) (program_error logs' error' (some c')) =
    c ≡ c'
SameOutcome debug (program_error logs error (some c)) (program_error logs' error' none) = ⊥
SameOutcome debug (program_error logs error none) (program_error logs' error' (some c')) = ⊥
SameOutcome debug (program_error logs error none) (program_error logs' error' none) =
    debug error ≡ debug error'

bool_eq_iff : (a b : Bool) → (bool_eq a b ≡ true) ↔ (a ≡ b)
bool_eq_iff true true = ground arith
bool_eq_iff true false = ground arith
bool_eq_iff false true = ground arith
bool_eq_iff false false = ground arith

check_parity-none_iff :
    (at : Text) (a p : SideResult)
    → (check_parity at a p ≡ none)
      ↔ ((a.accepts ≡ p.accepts) × ((a.error_code ≡ p.error_code) × (a.reason ≡ p.reason)))
unfolding check_parity
check_parity-none_iff at a p = ground (
  arith,
  bool_eq_iff a.accepts p.accepts,
  eq_iff a.error_code p.error_code,
  eq_iff a.reason p.reason,
)

-- `check_outcomes` finds no divergence exactly where the two outcomes are both accepted, are both
-- rejected with one custom code, or are both rejected with builtin errors of one name; it compares
-- neither logs nor compute units.
pub check_outcomes-none_iff :
    (debug : TransactionError → Text) (at : Text) (a p : TxOutcome)
    → (check_outcomes debug at a p ≡ none) ↔ SameOutcome debug a p
unfolding check_outcomes
check_outcomes-none_iff debug at (success logs units) (success logs' units') = ground arith
check_outcomes-none_iff debug at (success logs units) (program_error logs' error' (some c')) =
    ground arith
check_outcomes-none_iff debug at (success logs units) (program_error logs' error' none) =
    ground arith
check_outcomes-none_iff debug at (program_error logs error (some c)) (success logs' units') =
    ground arith
check_outcomes-none_iff debug at (program_error logs error none) (success logs' units') =
    ground arith
check_outcomes-none_iff debug at (program_error logs error (some c))
      (program_error logs' error' (some c')) =
    let sides = check_parity-none_iff at (custom c) (custom c') in
    (
      λ h. ground (arith, sides.0 h),
      λ e. sides.1 (refl, (ap some e, ap (λ n. some (codes "custom:" ++ show n)) e)),
    )
check_outcomes-none_iff debug at (program_error logs error (some c))
      (program_error logs' error' none) =
    ground arith
check_outcomes-none_iff debug at (program_error logs error none)
      (program_error logs' error' (some c')) =
    ground arith
check_outcomes-none_iff debug at (program_error logs error none) (program_error logs' error' none) =
    let sides = check_parity-none_iff at (builtin (debug error)) (builtin (debug error')) in
    (
      λ h. cc ((sides.0 h).1.1),
      λ e. sides.1 (refl, (refl, ap (λ t. some (codes "builtin:" ++ t)) e)),
    )

is_regression-ltb :
    (at : Text) (u v : ℕ)
    → u < 2 ^ 63
    → v < 2 ^ 63
    → is_regression (record { label = at; anchor_cu = some u; pino_cu = some v }) ≡ ltb u v
unfolding is_regression
is_regression-ltb at u v hu hv = ground arith

-- What the harness relies on in `compute_units`: an accepted transaction has a figure, which an i64
-- holds, and a rejected one has none.
abbrev pub Counts : (TxOutcome → Option ℕ) → TxOutcome → Type 0
Counts compute_units (success logs units) =
    (n : ℕ) × ((compute_units (success logs units) ≡ some n) × (n < 2 ^ 63))
Counts compute_units (program_error logs error code) =
    compute_units (program_error logs error code) ≡ none

accepts_of :
    (debug : TransactionError → Text) (logs : List Text) (error : TransactionError)
    (code : Option ℕ)
    → (from_outcome debug (program_error logs error code)).accepts ≡ false
unfolding from_outcome
accepts_of debug logs error (some c) = refl
accepts_of debug logs error none = refl

-- Where the units are counted on accepted transactions alone, and fit an i64, the recorded units are a
-- fault exactly if the harness's gate fires, or one side alone was accepted.
pub is_fault-of_cu :
    (compute_units : TxOutcome → Option ℕ) (debug : TransactionError → Text) (at : Text)
    (a p : TxOutcome)
    → Counts compute_units a
    → Counts compute_units p
    → is_fault (of_cu (from_outcomes compute_units at a p)) ≡ (
        is_some (regression compute_units at a p)
        || not (bool_eq (from_outcome debug a).accepts (from_outcome debug p).accepts))
unfolding is_fault of_cu regression from_outcome
is_fault-of_cu compute_units debug at (success logs u) (success logs' v) (m, (em, hm))
      (n, (en, hn)) =
    rw (regression, from_outcomes, em, en, is_regression-ltb at m n hm hn) (ground arith)
is_fault-of_cu compute_units debug at (success logs u) (program_error logs' error code)
      (m, (em, hm)) hp =
    rw (accepts_of debug logs' error code, regression, from_outcomes, em, hp) (ground arith)
is_fault-of_cu compute_units debug at (program_error logs error code) (success logs' v) ha
      (n, (en, hn)) =
    rw (accepts_of debug logs error code, regression, from_outcomes, ha, en) (ground arith)
is_fault-of_cu compute_units debug at (program_error logs error code)
      (program_error logs' error' code') ha hp =
    rw
      (
        accepts_of debug logs error code,
        accepts_of debug logs' error' code',
        regression,
        from_outcomes,
        ha,
        hp,
      )
      (ground arith)
