-- ===== src/Fuzz/Bytepoke.antt =====
-- crates/solinv-fuzz/src/bytepoke.rs: writers into a buffer and the builder of an Anchor account. The
-- first 8 bytes of SHA-256 are a parameter, and a write that panics returns nothing.
pub mod Reads
use solinv.Base.{
  leb, if◌then◌else◌, length, u64_mod, Bytes, Text, codes, le_bytes, splice, ℕ, ◌+◌, ◌*◌, ◌%◌, Bool,
  false, Option, none, some, [], ◌∷◌, ◌++◌,
}
use solinv.Solana.{Pubkey, Account}

-- `(128 + bytes) as u64 * 3480 * 2`, as the release profile computes it.
unfoldable pub rent_for_raw : ℕ → ℕ
rent_for_raw bytes = ((128 + bytes) * 3480 * 2) % u64_mod

unfoldable pub rent_for_anchor_body : ℕ → ℕ
unfolding rent_for_raw
rent_for_anchor_body body_size = rent_for_raw (8 + body_size)

-- `buf[offset..offset + src.len()].copy_from_slice(src)`.
unfoldable pub write_bytes_at : Bytes → ℕ → Bytes → Option Bytes
write_bytes_at buf offset src =
    if leb (offset + length src) (length buf) then some (splice buf offset src) else none

unfoldable pub write_u8_at : Bytes → ℕ → ℕ → Option Bytes
unfolding write_bytes_at
write_u8_at buf offset val = write_bytes_at buf offset (val ∷ [])

unfoldable pub write_u16_at : Bytes → ℕ → ℕ → Option Bytes
unfolding write_bytes_at
write_u16_at buf offset val = write_bytes_at buf offset (le_bytes 2 val)

unfoldable pub write_u32_at : Bytes → ℕ → ℕ → Option Bytes
unfolding write_bytes_at
write_u32_at buf offset val = write_bytes_at buf offset (le_bytes 4 val)

unfoldable pub write_u64_at : Bytes → ℕ → ℕ → Option Bytes
unfolding write_bytes_at
write_u64_at buf offset val = write_bytes_at buf offset (le_bytes 8 val)

unfoldable pub write_u128_at : Bytes → ℕ → ℕ → Option Bytes
unfolding write_bytes_at
write_u128_at buf offset val = write_bytes_at buf offset (le_bytes 16 val)

unfoldable pub write_pubkey_at : Bytes → ℕ → Pubkey → Option Bytes
unfolding write_bytes_at
write_pubkey_at buf offset pk = write_bytes_at buf offset (le_bytes 32 pk)

pub record AnchorAccountBuilder : Type 0 where
  pub type_name : Text
  pub body : Bytes
  pub owner : Pubkey
  pub lamports : Option ℕ
  pub executable : Bool

unfoldable pub new : Text → Bytes → AnchorAccountBuilder
new type_name body = record {
  type_name = type_name;
  body = body;
  owner = 0;
  lamports = none;
  executable = false;
}

unfoldable pub owned_by : Pubkey → AnchorAccountBuilder → AnchorAccountBuilder
owned_by owner b = record b { owner = owner }

unfoldable pub with_lamports : ℕ → AnchorAccountBuilder → AnchorAccountBuilder
with_lamports l b = record b { lamports = some l }

unfoldable pub with_executable : Bool → AnchorAccountBuilder → AnchorAccountBuilder
with_executable e b = record b { executable = e }

module _ (sha256_8 : Text → Bytes) where
  unfoldable pub anchor_account_disc : Text → Bytes
  anchor_account_disc type_name = sha256_8 (codes "account:" ++ type_name)

  unfoldable pub anchor_ix_sighash : Text → Bytes
  anchor_ix_sighash ix_name = sha256_8 (codes "global:" ++ ix_name)

  unfoldable pub build : AnchorAccountBuilder → Account
  unfolding anchor_account_disc rent_for_anchor_body
  build b = record {
    lamports = elim b.lamports [ some l ↦ l | none ↦ rent_for_anchor_body (length b.body) ];
    contents = anchor_account_disc b.type_name ++ b.body;
    owner = b.owner;
    executable = b.executable;
    rent_epoch = 0;
  }
