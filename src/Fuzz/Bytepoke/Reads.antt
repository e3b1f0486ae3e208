-- ===== src/Fuzz/Bytepoke/Reads.antt =====
-- bytepoke.rs: what a write leaves in the buffer, and what the detectors' reader makes of it.
use solinv.Base.{
  ltb, leb, if◌then◌else◌, Bool-cases, length, get_elem?, u64_mod, u128_mod, Bytes, le_bytes,
  from_le, length-le_bytes, from_le-le_bytes, slice, splice, slice-splice, length-splice,
  get-splice, ℕ, ◌+◌, ◌-◌, ◌^◌, ◌≤◌, ◌<◌, ◌≡◌, refl, sym, ap, ◌∙◌, ◌⊎◌, inl, inr, ◌&&◌, some, arith,
}
use solinv.Fuzz.Bytepoke.{write_bytes_at, write_u64_at, write_u128_at}
use solinv.Core.Harness.{read_field_widened}

write_bytes_at-splice :
    (buf : Bytes) (offset : ℕ) (src buf' : Bytes)
    → write_bytes_at buf offset src ≡ some buf'
    → (offset + length src ≤ length buf) × (buf' ≡ splice buf offset src)
unfolding write_bytes_at
write_bytes_at-splice buf offset src buf' written =
    elim (Bool-cases (leb (offset + length src) (length buf))) [
      | inl inside ↦ (ground arith, ground (arith, written))
      | inr outside ↦ absurd (ground (arith, written, outside))
    ]

-- A write that returns a buffer keeps its length, leaves the source in its range, and leaves every
-- other byte as it was.
pub write_bytes_at_lem :
    (buf : Bytes) (offset : ℕ) (src buf' : Bytes) (i : ℕ)
    → write_bytes_at buf offset src ≡ some buf'
    → (length buf' ≡ length buf)
      × (get_elem? buf' i ≡ (
          if leb offset i && ltb i (offset + length src)
          then get_elem? src (i - offset)
          else get_elem? buf i))
write_bytes_at_lem buf offset src buf' i written =
    let (inside, same) = write_bytes_at-splice buf offset src buf' written in
    rw same (length-splice buf offset src inside, get-splice buf offset src i inside)

read_field_widened-slice :
    (contents : Bytes) (offset size : ℕ)
    → length contents < u64_mod
    → offset + size ≤ length contents
    → (size ≡ 8) ⊎ (size ≡ 16)
    → read_field_widened contents offset size ≡ some (from_le (slice contents offset size))
unfolding read_field_widened
read_field_widened-slice contents offset size small inside (inl narrow) =
    rw narrow (ground (arith, small, rw narrow at inside))
read_field_widened-slice contents offset size small inside (inr wide) =
    rw wide (ground (arith, small, rw wide at inside))

-- A number of `width` bytes written where it fits reads back from the same place.
splice-reads :
    (width : ℕ) (buf : Bytes) (offset val : ℕ)
    → length buf < u64_mod
    → val < 256 ^ width
    → (width ≡ 8) ⊎ (width ≡ 16)
    → offset + width ≤ length buf
    → read_field_widened (splice buf offset (le_bytes width val)) offset width ≡ some val
splice-reads width buf offset val small fits readable inside =
    let stored = le_bytes width val in
    let wide = length-le_bytes width val in
    let within : offset + length stored ≤ length buf = rw wide inside in
    let same = length-splice buf offset stored within in
    let back : from_le (slice (splice buf offset stored) offset width) ≡ val =
      ap (λ n. from_le (slice (splice buf offset stored) offset n)) (sym wide)
      ∙ ap from_le (slice-splice buf offset stored within)
      ∙ from_le-le_bytes width val fits in
    read_field_widened-slice (splice buf offset stored) offset width (rw same small)
      (rw same inside) readable
    ∙ ap some back

-- What `write_u64_at` writes of a u64 at an offset, `read_field_widened` reads there at width 8, in a buffer
-- of a length that a `usize` holds.
pub write_u64_at-reads :
    (buf buf' : Bytes) (offset val : ℕ)
    → length buf < u64_mod
    → val < u64_mod
    → write_u64_at buf offset val ≡ some buf'
    → read_field_widened buf' offset 8 ≡ some val
unfolding write_u64_at
write_u64_at-reads buf buf' offset val small fits written =
    let (inside, same) = write_bytes_at-splice buf offset (le_bytes 8 val) buf' written in
    rw same (splice-reads 8 buf offset val small fits (inl refl) (rw length-le_bytes at inside))

-- What `write_u128_at` writes at an offset, `read_field_widened` reads there at width 16, in a buffer
-- of a length that a `usize` holds.
pub write_u128_at-reads :
    (buf buf' : Bytes) (offset val : ℕ)
    → length buf < u64_mod
    → val < u128_mod
    → write_u128_at buf offset val ≡ some buf'
    → read_field_widened buf' offset 16 ≡ some val
unfolding write_u128_at
write_u128_at-reads buf buf' offset val small fits written =
    let (inside, same) = write_bytes_at-splice buf offset (le_bytes 16 val) buf' written in
    rw same (splice-reads 16 buf offset val small fits (inr refl) (rw length-le_bytes at inside))
