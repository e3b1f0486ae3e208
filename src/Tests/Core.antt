-- ===== src/Tests/Core.antt =====
-- The theorems on the harness and on the detectors that judge one accepted send.
use solinv.Base.{
  nat_eq, u128_mod, codes, le_bytes, from_le, ℕ, ◌-◌, ◌^◌, ◌<◌, ◌≡◌, refl, ◌≢◌, ◌↔◌, ◌⊎◌, false,
  none, some, List, [], ◌∷◌, arith, ℕ_eq, list_eq, option_eq,
}
use solinv.Solana.{Pubkey, Account}
use solinv.Fuzz.Relation.{non_decreasing, sum_conservation, monotonic, StateInvariant}
use solinv.Core.Harness.{read_field_widened, account_bytes, saved_bytes, hash_accounts}
use solinv.Core.Process.{Breach, unchecked_math, canonical_send}
use solinv.Core.Process.Change.{SameSizes, hash_accounts-same_iff}
use solinv.Core.Process.Restored.{Restored}
use solinv.Core.UncheckedMath
use solinv.Core.UncheckedMath.Rules.{sum, Respects, check_kind_iff, sum_conservation_wraps}
use solinv.Core.UncheckedMath.Run
use solinv.Tests.World.{runtime, runtime_stores, vault, withdraw, payer, process, draining}

-- The total of key 1 must not fall.
abbrev keeps_total : StateInvariant
keeps_total = record {
  name = codes "total";
  kind = monotonic 8 8 non_decreasing;
  accounts = 0 ∷ [];
}

small : (n : ℕ) → n < u128_mod → sum (n ∷ []) < u128_mod
unfolding sum
small n h = omega arith

check_kind_iff_example :
    (UncheckedMath.check_kind keeps_total.kind (5 ∷ []) (3 ∷ []) ≡ none)
    ↔ Respects keeps_total.kind (5 ∷ []) (3 ∷ [])
check_kind_iff_example =
    check_kind_iff keeps_total.kind (5 ∷ []) (3 ∷ []) (small 5 (omega arith))
      (small 3 (omega arith))

sum_conservation_wraps_example :
    UncheckedMath.check_kind (sum_conservation 8 8 0) (0 ∷ 0 ∷ []) (1 ∷ (2 ^ 128 - 1) ∷ []) ≡ none
sum_conservation_wraps_example =
    sum_conservation_wraps 8 8 0 1 (2 ^ 128 - 1) (omega arith) (omega arith) refl

reads_before :
    UncheckedMath.read_image (runtime draining) (process draining).ctx withdraw keeps_total
    ≡ some (5 ∷ [])
unfolding UncheckedMath.read_image read_field_widened le_bytes from_le
reads_before = refl

reads_after :
    UncheckedMath.read_image
      (runtime draining)
      (canonical_send (runtime draining) payer withdraw (process draining).ctx).1
      withdraw
      keeps_total
    ≡ some (3 ∷ [])
unfolding UncheckedMath.read_image read_field_widened le_bytes from_le
reads_after = refl

run_attempt-reports_example :
    (Respects keeps_total.kind (5 ∷ []) (3 ∷ [])
      × ((UncheckedMath.run_attempt
            (runtime draining)
            payer
            withdraw
            keeps_total
            (process draining)).violations
          ≡ []))
    ⊎ ((¬ Respects keeps_total.kind (5 ∷ []) (3 ∷ []))
        × ((b : Breach) × ((UncheckedMath.run_attempt
                (runtime draining)
                payer
                withdraw
                keeps_total
                (process draining)).violations
              ≡ unchecked_math 50 (codes "withdraw") (codes "total") b ∷ [])))
run_attempt-reports_example =
    Run.run_attempt-reports (runtime draining) payer withdraw keeps_total (process draining)
      (5 ∷ []) (3 ∷ []) reads_before refl reads_after (small 5 (omega arith))
      (small 3 (omega arith))

check_invariants-Restored_example : Restored (runtime draining) (1 ∷ 2 ∷ []) (process draining) (
    UncheckedMath.check_invariants
      (runtime draining)
      payer
      withdraw
      (keeps_total ∷ [])
      (process draining))
check_invariants-Restored_example =
    Run.check_invariants-Restored (runtime draining) (runtime_stores draining) payer withdraw
      (keeps_total ∷ []) (process draining)

abbrev before_drain : List (Pubkey × Account)
before_drain = (1, vault 5) ∷ []

abbrev after_drain : List (Pubkey × Account)
after_drain = (1, vault 3) ∷ []

hashes_test :
    nat_eq
      ((runtime draining).finish (saved_bytes before_drain))
      ((runtime draining).finish (saved_bytes after_drain))
    ≡ false
unfolding saved_bytes account_bytes le_bytes from_le
hashes_test = refl

hashes_differ :
    (runtime draining).finish (saved_bytes before_drain)
    ≢ (runtime draining).finish (saved_bytes after_drain)
hashes_differ same = absurd (ground (arith, hashes_test, same))

same_sizes : SameSizes before_drain after_drain
unfolding le_bytes
same_sizes = (refl, tt)

hash_accounts-same_iff_example :
    (hash_accounts (runtime draining) before_drain ≡ hash_accounts (runtime draining) after_drain)
    ↔ (before_drain ≡ after_drain)
hash_accounts-same_iff_example =
    hash_accounts-same_iff (runtime draining) before_drain after_drain
      ((omega arith, omega arith, omega arith, omega arith), tt)
      ((omega arith, omega arith, omega arith, omega arith), tt) same_sizes
      (λ same. absurd (hashes_differ same))
