-- ===== src/Base/Decimal.antt =====
-- Numbers as decimal text, as `{}` prints them.
use Prim.Native.Nat.{ℕ, zero, suc, ◌+◌, ◌/◌, ◌%◌}
use mathlib.Core.List.{[], ◌∷◌, ◌++◌}
use solinv.Base.Tests.{ltb, if◌then◌else◌}
use solinv.Base.Buffers.{Text}

-- A number has at most as many digits as its own value plus one, so that fuel is enough.
unfoldable pub digits : ℕ → ℕ → Text
digits zero n = []
digits (suc fuel) n =
    let higher = digits fuel (n / 10) ++ ((b'0' + n % 10) ∷ []) in
    if ltb n 10 then (b'0' + n) ∷ [] else higher

unfoldable pub show : ℕ → Text
unfolding digits
show n = digits (n + 1) n
