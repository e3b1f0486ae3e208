-- ===== src/Disclose/Inputs/Payload.antt =====
-- repro.rs: what an artifact carries.
use solinv.Base.{
  nat_eq, nat_eq_iff, Bool-cases, ◌==◌, eq_iff, eq_refl, length, All, Bytes, Text, ℕ, ◌≡◌, refl,
  sym, ◌∙◌, ◌↔◌, inl, inr, Bool, true, false, ◌&&◌, some, arith, ℕ_eq, list_eq, option_eq,
}
use solinv.Disclose.Base64.{b64, b64_decode}
use solinv.Disclose.Base64.Trips.{IsByte, b64_decode-b64_iff}
use solinv.Disclose.Inputs.{Artifact, by_digest, inline, sha256_hex, inline_of, is_intact, bytes_of}

both_pass : (a b : Bool) → (a && b) ≡ true → (a ≡ true) × (b ≡ true)
both_pass true b h = (refl, h)
both_pass false b h = absurd (ground (arith, h))

module _ (hasher : Bytes → Bytes) where
  intact_payload :
      (sha : Text) (n : ℕ) (base64 : Text) (bytes : Bytes)
      → b64_decode base64 ≡ some bytes
      → is_intact hasher (inline sha n base64)
        ≡ (nat_eq (length bytes) n && (sha256_hex hasher bytes == sha))
  unfolding is_intact
  intact_payload sha n base64 bytes e = rw (is_intact, e) refl

  inline_of-carries :
      (bytes : Bytes) → All IsByte bytes → bytes_of hasher (inline_of hasher bytes) ≡ some bytes
  unfolding bytes_of inline_of
  inline_of-carries bytes h =
      let read = (b64_decode-b64_iff (b64 bytes) bytes h).1 refl in
      rw
        (
          bytes_of,
          intact_payload (sha256_hex hasher bytes) (length bytes) (b64 bytes) bytes read,
          eq_refl (length bytes),
          eq_refl (sha256_hex hasher bytes),
          read,
        )
        refl

  carried_inline :
      (a : Artifact) (bytes : Bytes)
      → All IsByte bytes
      → bytes_of hasher a ≡ some bytes
      → a ≡ inline_of hasher bytes
  unfolding bytes_of inline_of
  carried_inline (by_digest sha n) bytes h e = absurd (ground (arith, e))
  carried_inline (inline sha n base64) bytes h e =
      elim (Bool-cases (is_intact hasher (inline sha n base64))) [
        | inr broken ↦ absurd (ground (arith, rw (bytes_of, broken) at e))
        | inl intact ↦
            let read : b64_decode base64 ≡ some bytes = rw (bytes_of, intact) at e in
            let tests =
              both_pass (nat_eq (length bytes) n) (sha256_hex hasher bytes == sha)
                (sym (intact_payload sha n base64 bytes read) ∙ intact) in
            let size = (nat_eq_iff (length bytes) n).0 tests.0 in
            let hash : sha256_hex hasher bytes ≡ sha =
              (eq_iff (sha256_hex hasher bytes) sha).0 tests.1 in
            rw (sym size, sym hash, sym ((b64_decode-b64_iff base64 bytes h).0 read)) refl
      ]

  -- An artifact gives bytes exactly if it is the one that `inline` makes of them: an altered payload, a
  -- wrong length or a wrong digest gives none.
  pub bytes_of_iff :
      (a : Artifact) (bytes : Bytes)
      → All IsByte bytes
      → (bytes_of hasher a ≡ some bytes) ↔ (a ≡ inline_of hasher bytes)
  bytes_of_iff a bytes h = (carried_inline a bytes h, λ same. rw same (inline_of-carries bytes h))
