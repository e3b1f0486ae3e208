-- ===== src/Base/Buffers.antt =====
-- Byte buffers, and unsigned integers in little-endian order (`to_le_bytes`, `from_le_bytes`).
use Prim.Native.Nat.{ℕ, zero, suc, ◌+◌, ◌-◌, ◌*◌, ◌/◌, ◌%◌, ◌^◌, ◌≤◌, ◌<◌}
use Prim.Native.Char.{code}
use Prim.Native.String.{String}
use mathlib.Core.Path.{◌≡◌, refl, ap, ◌∙◌}
use mathlib.Core.List.{List, [], ◌∷◌, ◌++◌}
use native.Mathlib.Omega.{arith}
use native.Mathlib.Nat.{pow-suc}
use mathlib.Core.Bool.{◌&&◌}
use mathlib.Core.Option.{none}
use solinv.Base.Tests.{ltb, leb, if◌then◌else◌}
use solinv.Base.Lists.{length, get_elem?, take, drop, length-append, length-take, length-drop}

abbrev pub Bytes : Type 0
Bytes = List ℕ

-- A Rust `String`, as its Unicode scalar values.
abbrev pub Text : Type 0
Text = List ℕ

abbrev pub codes : String → Text
codes String.[] = []
codes (String.◌∷◌ c s) = code c ∷ codes s

-- The low `width` bytes of a number, the lowest first.
unfoldable pub le_bytes : ℕ → ℕ → Bytes
le_bytes zero v = []
le_bytes (suc width) v = v % 256 ∷ le_bytes width (v / 256)

unfoldable pub from_le : Bytes → ℕ
from_le [] = 0
from_le (b ∷ bs) = b + 256 * from_le bs

pub length-le_bytes : (width v : ℕ) → length (le_bytes width v) ≡ width
unfolding le_bytes
length-le_bytes zero v = refl
length-le_bytes (suc width) v = ap suc (length-le_bytes width (v / 256))

-- A value below 256 ^ width survives the trip through its bytes.
pub from_le-le_bytes : (width v : ℕ) → v < 256 ^ width → from_le (le_bytes width v) ≡ v
unfolding le_bytes from_le
from_le-le_bytes zero v h = omega arith
from_le-le_bytes (suc width) v h =
    omega (arith, from_le-le_bytes width (v / 256) (omega (arith, rw pow-suc at h)))

-- The `n` bytes from `start` on.
abbrev pub slice : Bytes → ℕ → ℕ → Bytes
slice bs start n = take n (drop start bs)

-- `buf[start..start + src.len()].copy_from_slice(src)`, where the range fits.
abbrev pub splice : Bytes → ℕ → Bytes → Bytes
splice buf start src = take start buf ++ (src ++ drop (start + length src) buf)

pub take_append {ℓ} : {A : Type ℓ} (n : ℕ) (xs ys : List A) → length xs ≡ n → take n (xs ++ ys) ≡ xs
take_append zero [] ys h = refl
take_append zero (x ∷ xs) ys h = absurd (omega arith)
take_append (suc n) [] ys h = absurd (omega arith)
take_append (suc n) (x ∷ xs) ys h = ap (◌∷◌ x) (take_append n xs ys (omega arith))

pub drop_append {ℓ} : {A : Type ℓ} (n : ℕ) (xs ys : List A) → length xs ≡ n → drop n (xs ++ ys) ≡ ys
drop_append zero [] ys h = refl
drop_append zero (x ∷ xs) ys h = absurd (omega arith)
drop_append (suc n) [] ys h = absurd (omega arith)
drop_append (suc n) (x ∷ xs) ys h = drop_append n xs ys (omega arith)

-- Reading back what was just written.
pub slice-splice :
    (buf : Bytes) (start : ℕ) (src : Bytes)
    → start + length src ≤ length buf
    → slice (splice buf start src) start (length src) ≡ src
slice-splice buf start src h =
    rw
      (drop_append start (take start buf) (src ++ drop (start + length src) buf)
        (length-take start buf (omega arith)))
      (take_append (length src) src (drop (start + length src) buf) refl)

pub length-splice :
    (buf : Bytes) (start : ℕ) (src : Bytes)
    → start + length src ≤ length buf
    → length (splice buf start src) ≡ length buf
length-splice buf start src h = omega (
  arith,
  length-append (take start buf) (src ++ drop (start + length src) buf),
  length-append src (drop (start + length src) buf),
  length-take start buf (omega arith),
  length-drop (start + length src) buf,
)

get-append {ℓ} :
    {A : Type ℓ} (xs ys : List A) (i : ℕ)
    → get_elem? (xs ++ ys) i
      ≡ (if ltb i (length xs) then get_elem? xs i else get_elem? ys (i - length xs))
get-append [] ys i = ground arith
get-append (x ∷ xs) ys zero = ground arith
get-append (x ∷ xs) ys (suc i) = rw (get-append xs ys i) (ground arith)

get-take {ℓ} :
    {A : Type ℓ} (n : ℕ) (xs : List A) (i : ℕ)
    → get_elem? (take n xs) i ≡ (if ltb i n then get_elem? xs i else none)
get-take zero xs i = ground arith
get-take (suc n) [] i = ground arith
get-take (suc n) (x ∷ xs) zero = ground arith
get-take (suc n) (x ∷ xs) (suc i) = rw (get-take n xs i) (ground arith)

get-drop {ℓ} :
    {A : Type ℓ} (n : ℕ) (xs : List A) (i : ℕ) → get_elem? (drop n xs) i ≡ get_elem? xs (n + i)
get-drop zero xs i = ap (get_elem? xs) (omega arith)
get-drop (suc n) [] i = ground arith
get-drop (suc n) (x ∷ xs) i =
    get-drop n xs i ∙ ap (get_elem? (x ∷ xs)) {x = suc (n + i)} (omega arith)

-- Every byte of the result of a write.
pub get-splice :
    (buf : Bytes) (start : ℕ) (src : Bytes) (i : ℕ)
    → start + length src ≤ length buf
    → get_elem? (splice buf start src) i ≡ (
        if leb start i && ltb i (start + length src)
        then get_elem? src (i - start)
        else get_elem? buf i)
get-splice buf start src i h = grind (
  arith,
  get-append (take start buf) (src ++ drop (start + length src) buf) i,
  get-append src (drop (start + length src) buf) (i - start),
  get-take start buf i,
  get-drop (start + length src) buf (i - start - length src),
  length-take start buf (omega arith),
)
