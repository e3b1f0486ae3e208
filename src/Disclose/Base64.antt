-- ===== src/Disclose/Base64.antt =====
-- repro.rs: base64, both ways. The source decodes the bytes of a text; they are its characters here,
-- which differ only where one is outside ASCII, and then `val` refuses it and its bytes alike.
pub mod Trips
use solinv.Base.{
  ltb, leb, nat_eq, if◌then◌else◌, ◌>>=◌, ◌==◌, length, get_elem?, take, any, count, Bytes, Text,
  codes, is_empty_text, ℕ, ◌+◌, ◌-◌, ◌*◌, ◌/◌, ◌%◌, ◌^◌, Bool, not, ◌&&◌, ◌||◌, Option, none, some,
  [], ◌∷◌, ◌++◌, ℕ_eq, list_eq, option_eq,
}

abbrev pub alphabet : Text
alphabet = codes "ABCDEFGHIJKLMNOPQRSTUVWXYZabcdefghijklmnopqrstuvwxyz0123456789+/"

-- `T[i]`, where `i` is below 64.
unfoldable pub symbol_at : ℕ → ℕ
symbol_at i = elim (get_elem? alphabet i) [ none ↦ 0 | some c ↦ c ]

-- The bits of three bytes.
abbrev pub three_bytes : ℕ → ℕ → ℕ → ℕ
three_bytes x y z = x * 2 ^ 16 + y * 2 ^ 8 + z

-- Six bits of a number, from `2 ^ shift` on.
abbrev pub sextet : ℕ → ℕ → ℕ
sextet n shift = n / 2 ^ shift % 64

abbrev pub is_pad : ℕ → Bool
is_pad c = nat_eq c b'='

-- The loop over chunks of three bytes, the last of which may be shorter.
unfoldable pub b64 : Bytes → Text
unfolding symbol_at
b64 [] = []
b64 (x ∷ []) =
    let n = three_bytes x 0 0 in
    symbol_at (sextet n 18) ∷ symbol_at (sextet n 12) ∷ b'=' ∷ b'=' ∷ []
b64 (x ∷ y ∷ []) =
    let n = three_bytes x y 0 in
    symbol_at (sextet n 18) ∷ symbol_at (sextet n 12) ∷ symbol_at (sextet n 6) ∷ b'=' ∷ []
b64 (x ∷ y ∷ z ∷ bytes) =
    let n = three_bytes x y z in
    symbol_at (sextet n 18)
    ∷ symbol_at (sextet n 12)
    ∷ symbol_at (sextet n 6)
    ∷ symbol_at (sextet n 0)
    ∷ b64 bytes

unfoldable pub val : ℕ → Option ℕ
val c =
    if leb b'A' c && leb c b'Z'
    then some (c - b'A')
    else if leb b'a' c && leb c b'z'
    then some (c - b'a' + 26)
    else if leb b'0' c && leb c b'9'
    then some (c - b'0' + 52)
    else if nat_eq c b'+'
    then some 62
    else if nat_eq c b'/'
    then some 63
    else none

-- The bits of the characters, behind those of `n`: a value is below 64, and four of them fit a u32.
unfoldable pub gather : ℕ → Text → Option ℕ
unfolding val
gather n [] = some n
gather n (c ∷ cs) = do v ← val c; gather (n * 64 + v) cs

-- One chunk of four characters. Padding is legal at the end of the last chunk.
unfoldable pub quantum : Bool → Text → Option Bytes
unfolding gather
quantum is_last chunk =
    let pad = count is_pad chunk in
    if ltb 2 pad || ((ltb 0 pad && not is_last) || any is_pad (take (4 - pad) chunk))
    then none
    else do
      n ← gather 0 (take (4 - pad) chunk)
      let m = n * 2 ^ (6 * pad)
      some (take (3 - pad) (m / 2 ^ 16 % 256 ∷ m / 2 ^ 8 % 256 ∷ m % 256 ∷ []))

-- The loop over the chunks; a shorter one at the end has been refused before.
unfoldable pub decode_chunks : Text → Option Bytes
unfolding quantum
decode_chunks (a ∷ b ∷ c ∷ d ∷ cs) = do
  bytes ← quantum (is_empty_text cs) (a ∷ b ∷ c ∷ d ∷ [])
  more ← decode_chunks cs
  some (bytes ++ more)
decode_chunks [] = some []
decode_chunks (a ∷ []) = none
decode_chunks (a ∷ b ∷ []) = none
decode_chunks (a ∷ b ∷ c ∷ []) = none

-- Only the encoding that `b64` gives is accepted.
unfoldable pub b64_decode : Text → Option Bytes
unfolding decode_chunks b64
b64_decode text =
    if not (nat_eq (length text % 4) 0)
    then none
    else do out ← decode_chunks text; if b64 out == text then some out else none
