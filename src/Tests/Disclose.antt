-- ===== src/Tests/Disclose.antt =====
-- The theorems on what a report carries.
use solinv.Base.{
  if◌then◌else◌, length, All, Bytes, Text, codes, ◌≡◌, refl, ◌↔◌, not, none, some, [], ◌∷◌, arith,
}
use solinv.Disclose.Divergence.{hex_byte}
use solinv.Disclose.Base64.{symbol_at, b64, val, gather, quantum, decode_chunks, b64_decode}
use solinv.Disclose.Base64.Trips.{IsByte, b64_decode-b64_iff}
use solinv.Disclose.Inputs.{
  Artifact, by_digest, inline, ProgramRef, is_carried, sha256_hex, inline_of, is_intact, bytes_of,
}
use solinv.Disclose.Repro.{
  ReproBundle, inputs_carried, identified_only, incomplete, corrupt, defines_a_comparison, missing,
  not_carried, program_failure, account_failure, integrity_failures, all_carried, completeness,
}
use solinv.Disclose.Repro.Gaps.{is_nil, completeness_lem}
use solinv.Disclose.Inputs.Payload.{bytes_of_iff}

abbrev payload : Bytes
payload = 77 ∷ 97 ∷ 110 ∷ 77 ∷ []

payload-IsByte : All IsByte payload
payload-IsByte = (omega arith, (omega arith, (omega arith, (omega arith, tt))))

b64_decode-b64_iff_example :
    (b64_decode (codes "TWFuTQ==") ≡ some payload) ↔ (b64 payload ≡ codes "TWFuTQ==")
b64_decode-b64_iff_example = b64_decode-b64_iff (codes "TWFuTQ==") payload payload-IsByte

encoded_payload : b64 payload ≡ codes "TWFuTQ=="
unfolding b64 symbol_at
encoded_payload = refl

-- The bits behind the last byte are not all zero.
stray_bits : b64_decode (codes "TWFuTR==") ≡ none
unfolding b64_decode decode_chunks quantum gather val b64 symbol_at
stray_bits = refl

abbrev size_hash : Bytes → Bytes
size_hash bytes = length bytes ∷ []

bytes_of_iff_example :
    (bytes_of size_hash (inline (codes "04") 4 (codes "TWFuTQ==")) ≡ some payload)
    ↔ (inline (codes "04") 4 (codes "TWFuTQ==") ≡ inline_of size_hash payload)
bytes_of_iff_example =
    bytes_of_iff size_hash (inline (codes "04") 4 (codes "TWFuTQ==")) payload payload-IsByte

abbrev program_on : Text → Artifact → ProgramRef
program_on side code = record { side = side; program_id = codes "id"; code = code }

-- Two programs, one of which is named by its digest alone, and an action that is only described.
abbrev some_bundle : ReproBundle
some_bundle = record {
  programs =
      program_on (codes "anchor") (by_digest (codes "04") 4)
      ∷ (program_on (codes "pinocchio") (inline (codes "04") 4 (codes "TWFuTQ==")) ∷ []);
  accounts = [];
  slot = none;
  feature_set = some (codes "mainnet");
  actions =
      record { label = codes "swap"; program_id = none; data_base64 = none; accounts = [] } ∷ [];
  context = none;
}

completeness_lem_example : completeness size_hash some_bundle ≡ (
    if not (is_nil (integrity_failures size_hash some_bundle))
    then corrupt
    else if not (is_nil (missing some_bundle))
    then incomplete
    else if is_nil (not_carried some_bundle)
    then inputs_carried
    else identified_only)
completeness_lem_example = completeness_lem size_hash some_bundle

only_identified : completeness size_hash some_bundle ≡ identified_only
unfolding completeness integrity_failures program_failure account_failure is_intact sha256_hex
    hex_byte b64_decode decode_chunks quantum gather val b64 symbol_at defines_a_comparison
    all_carried is_carried
only_identified = refl
