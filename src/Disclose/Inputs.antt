-- ===== src/Disclose/Inputs.antt =====
-- repro.rs: the program, the accounts and the actions of a compared run, and the bytes that they carry.
-- `hasher` is SHA-256, of the sha2 crate.
pub mod Payload
use solinv.Base.{
  nat_eq, if◌then◌else◌, is_some, ◌>>=◌, ◌==◌, length, concat_map, Bytes, Text, ℕ, Bool, true,
  false, not, ◌&&◌, Option, none, some, List, [], ℕ_eq, list_eq, option_eq,
}
use solinv.Disclose.Divergence.{hex_byte}
use solinv.Disclose.Base64.{b64, b64_decode}

pub data Artifact : Type 0 where
  -- `Digest { sha256, len }`, `Inline { sha256, len, base64 }`
  by_digest : Text → ℕ → Artifact
  inline : Text → ℕ → Text → Artifact

pub record ProgramRef : Type 0 where
  pub side : Text
  pub program_id : Text
  pub code : Artifact

pub record AccountRef : Type 0 where
  pub label : Text
  pub pubkey : Text
  pub pre_state : Artifact
  pub owner : Option Text
  pub lamports : Option ℕ
  pub executable : Option Bool
  pub rent_epoch : Option ℕ

-- An account of an action: its key, whether it signs, and whether it is written.
pub record ActionAccount : Type 0 where
  pub pubkey : Text
  pub is_signer : Bool
  pub is_writable : Bool

pub record ActionRef : Type 0 where
  pub label : Text
  pub program_id : Option Text
  pub data_base64 : Option Text
  pub accounts : List ActionAccount

unfoldable pub sha256 : Artifact → Text
sha256 (by_digest sha len) = sha
sha256 (inline sha len base64) = sha

unfoldable pub len : Artifact → ℕ
len (by_digest sha n) = n
len (inline sha n base64) = n

unfoldable pub is_empty : Artifact → Bool
unfolding len
is_empty a = nat_eq (len a) 0

unfoldable pub is_carried : Artifact → Bool
is_carried (by_digest sha len) = false
is_carried (inline sha len base64) = true

unfoldable pub described : Text → ActionRef
described label = record { label = label; program_id = none; data_base64 = none; accounts = [] }

unfoldable pub encoded : Text → Text → Bytes → List ActionAccount → ActionRef
unfolding b64
encoded label program_id payload accounts = record {
  label = label;
  program_id = some program_id;
  data_base64 = some (b64 payload);
  accounts = accounts;
}

-- `data` of an action.
unfoldable pub payload_of : ActionRef → Option Bytes
unfolding b64_decode
payload_of a = a.data_base64 >>= b64_decode

unfoldable pub is_replayable : ActionRef → Bool
unfolding b64_decode
is_replayable a =
    is_some a.program_id && (elim a.data_base64 [ none ↦ false | some d ↦ is_some (b64_decode d) ])

unfoldable pub account_with : Text → Text → Artifact → AccountRef
account_with label pubkey pre_state = record {
  label = label;
  pubkey = pubkey;
  pre_state = pre_state;
  owner = none;
  lamports = none;
  executable = none;
  rent_epoch = none;
}

unfoldable pub with_metadata : Text → ℕ → Bool → ℕ → AccountRef → AccountRef
with_metadata owner lamports executable rent_epoch a = record a {
  owner = some owner;
  lamports = some lamports;
  executable = some executable;
  rent_epoch = some rent_epoch;
}

module _ (hasher : Bytes → Bytes) where
  unfoldable pub sha256_hex : Bytes → Text
  unfolding hex_byte
  sha256_hex bytes = concat_map hex_byte (hasher bytes)

  unfoldable pub digest_of : Bytes → Artifact
  unfolding sha256_hex
  digest_of bytes = by_digest (sha256_hex bytes) (length bytes)

  unfoldable pub inline_of : Bytes → Artifact
  unfolding b64 sha256_hex
  inline_of bytes = inline (sha256_hex bytes) (length bytes) (b64 bytes)

  unfoldable pub is_intact : Artifact → Bool
  unfolding b64_decode sha256_hex
  is_intact (by_digest sha len) = true
  is_intact (inline sha len base64) = elim (b64_decode base64) [
    | none ↦ false
    | some bytes ↦ nat_eq (length bytes) len && (sha256_hex bytes == sha)
  ]

  unfoldable pub bytes_of : Artifact → Option Bytes
  unfolding is_intact b64_decode
  bytes_of (by_digest sha len) = none
  bytes_of (inline sha len base64) =
      if not (is_intact (inline sha len base64)) then none else b64_decode base64

  unfoldable pub from_code : Text → Text → Bytes → ProgramRef
  unfolding digest_of
  from_code side program_id code = record {
    side = side;
    program_id = program_id;
    code = digest_of code;
  }

  unfoldable pub with_code_inline : Text → Text → Bytes → ProgramRef
  unfolding inline_of
  with_code_inline side program_id code = record {
    side = side;
    program_id = program_id;
    code = inline_of code;
  }

  unfoldable pub from_data : Text → Text → Bytes → AccountRef
  unfolding digest_of account_with
  from_data label pubkey contents = account_with label pubkey (digest_of contents)

  unfoldable pub with_data_inline : Text → Text → Bytes → AccountRef
  unfolding inline_of account_with
  with_data_inline label pubkey contents = account_with label pubkey (inline_of contents)

  unfoldable pub is_complete : AccountRef → Bool
  unfolding is_carried is_intact
  is_complete a =
      is_carried a.pre_state
      && (is_intact a.pre_state
          && (is_some a.owner
              && (is_some a.lamports && (is_some a.executable && is_some a.rent_epoch))))
