-- ===== src/Tests/Fuzz.antt =====
-- The theorems on layouts and on buffers.
use solinv.Base.{
  is_some, length, ok, Bytes, codes, le_bytes, ◌≡◌, refl, true, some, List, [], ◌∷◌, arith,
}
use solinv.Fuzz.Schema.{
  AccountSchema, declare, pad, field_at, resolve, require_readable, resolve_readable, validate_len,
}
use solinv.Fuzz.Schema.Layout.{
  IsLaidOut, Step, declared, padded, placed, run_steps, FitsSteps, run_steps-IsLaidOut,
  resolve_readable-reads,
}
use solinv.Fuzz.Bytepoke.{write_bytes_at, write_u64_at}
use solinv.Core.Harness.{read_field_widened}

abbrev pool_steps : List Step
pool_steps =
    declared (codes "authority") 32
    ∷ declared (codes "total") 8
    ∷ padded 7
    ∷ placed (codes "bump") 56 1
    ∷ []

abbrev empty_pool : AccountSchema
empty_pool = record { name = codes "Pool"; fields = []; cursor = 8 }

fits : FitsSteps pool_steps empty_pool
unfolding declare pad field_at
fits = (omega arith, (omega arith, (omega arith, (omega arith, tt))))

run_steps-IsLaidOut_example : IsLaidOut (run_steps pool_steps empty_pool)
run_steps-IsLaidOut_example = run_steps-IsLaidOut pool_steps empty_pool fits (omega arith, tt)

-- A pool that holds its total behind the discriminator.
abbrev pool : AccountSchema
pool = record {
  name = codes "Pool";
  fields = record { name = codes "total"; offset = 8; size = 8 } ∷ [];
  cursor = 16;
}

abbrev pool_data : Bytes
pool_data = 0 ∷ 0 ∷ 0 ∷ 0 ∷ 0 ∷ 0 ∷ 0 ∷ 0 ∷ 5 ∷ 0 ∷ 0 ∷ 0 ∷ 0 ∷ 0 ∷ 0 ∷ 0 ∷ []

resolved : resolve_readable pool (codes "total") ≡ ok (8, 8)
unfolding resolve_readable resolve require_readable
resolved = refl

valid : validate_len pool (length pool_data) ≡ ok tt
unfolding validate_len
valid = refl

resolve_readable-reads_example : is_some (read_field_widened pool_data 8 8) ≡ true
resolve_readable-reads_example =
    resolve_readable-reads pool (codes "total") (8, 8) pool_data (omega arith, (omega arith, tt))
      resolved valid

abbrev empty_data : Bytes
empty_data = 0 ∷ 0 ∷ 0 ∷ 0 ∷ 0 ∷ 0 ∷ 0 ∷ 0 ∷ 0 ∷ 0 ∷ 0 ∷ 0 ∷ 0 ∷ 0 ∷ 0 ∷ 0 ∷ []

written_total : write_u64_at empty_data 8 5 ≡ some pool_data
unfolding write_u64_at write_bytes_at le_bytes
written_total = refl
