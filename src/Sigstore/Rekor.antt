-- ===== src/Sigstore/Rekor.antt =====
-- src/sigstore_verify.rs: the verification of a bundle's Rekor entry. JSON, base64, SHA-256, decimal
-- parsing and Unicode lower-casing are given; the signed note is verified as in src/signed_note.rs.
pub mod Laws
use dep_scan.Prelude.{
  ℕ, zero, suc, ◌+◌, List, [], ◌∷◌, Option, none, some, if◌then◌else◌, String, Bool, true, false,
  not, ◌&&◌, ◌||◌, ◌==◌, length, str_eq, ltb,
}
use dep_scan.Prelude.Results.{Result, ok, err, and_then, map_err, Bytes, bytes_eq}
use dep_scan.Prelude.Text.{◌+++◌, show}
use dep_scan.Prelude.Lines.{lines, trim, as_bytes}
use dep_scan.SignedNote.{NoteVerifyOutcome, valid, invalid, ParsedNote}
use dep_scan.SignedNote.Verify.{NoteCrypto, hex_byte, verify_ecdsa_p256}
use dep_scan.Sigstore.{
  RekorError, no_tlog_entry, unexpected_multiple_entries, unsupported_kind, malformed_body,
  payload_binding_failed, malformed_proof, tree_head_signature_invalid, KindVersion, InclusionProof,
  TlogEntry, DsseSignature, DsseEnvelope, AttestationBundle, RekorEntry, JsonReader,
}
use dep_scan.Sigstore.Merkle.{rfc6962_leaf_hash, verify_merkle_path}

pub record RekorServices (Json Ed25519Key P256Key P256Signature : Type 0) : Type 0 where
  pub crypto : NoteCrypto Ed25519Key P256Key P256Signature
  -- the second alphabet that `decoded_payload` tries
  pub base64_url_decode : String → Result Bytes String
  pub json : JsonReader Json
  pub to_lowercase : String → String
  pub parse_u64 : String → Result ℕ String
  pub rekor_key_name : String
  pub rekor_public_key : String

abbrev hex : Bytes → String
hex [] = ""
hex (b ∷ bs) = hex_byte b +++ hex bs

unfoldable pub check_supported_kind : KindVersion → Result Unit RekorError
check_supported_kind kv =
    if (str_eq kv.kind "dsse" && str_eq kv.version "0.0.1")
      || (str_eq kv.kind "intoto" && str_eq kv.version "0.0.2")
    then ok tt
    else err (unsupported_kind kv.kind kv.version)

module _ {Json Ed25519Key P256Key P256Signature : Type 0}
    (services : RekorServices Json Ed25519Key P256Key P256Signature) where
  abbrev decode : String → Result Bytes String
  decode = services.crypto.base64_decode

  -- `DsseEnvelope::decoded_payload`
  unfoldable pub decoded_payload : DsseEnvelope → Option Bytes
  decoded_payload envelope = elim (decode envelope.payload_b64) [
    | ok b ↦ some b
    | err e ↦ elim (services.base64_url_decode envelope.payload_b64) [
      | ok b ↦ some b
      | err f ↦ none
    ]
  ]

  unfoldable pub hex_sha256 : Bytes → String
  hex_sha256 bytes = hex (services.crypto.sha256 bytes)

  -- The check of a `payloadHash` node, where it holds a text.
  unfoldable pub check_payload_hash : Json → Bytes → Result Unit RekorError
  unfolding hex_sha256
  check_payload_hash node decoded_payload =
      elim (services.json.as_str (services.json.index node "value")) [
        | none ↦ ok tt
        | some claimed ↦
            let claimed_lower = services.to_lowercase claimed in
            let actual = hex_sha256 decoded_payload in
            if not (str_eq claimed_lower actual)
            then err (
                payload_binding_failed (
                  "payloadHash mismatch: body claims " +++ claimed_lower +++ ", computed "
                  +++ actual))
            else ok tt
      ]

  -- The loop over the body's signatures, beside the bundle's.
  unfoldable pub check_signatures : ℕ → List Json → List DsseSignature → Result Unit RekorError
  check_signatures i [] bundle_sigs = ok tt
  check_signatures i (body_sig ∷ body_sigs) [] = ok tt
  check_signatures i (body_sig ∷ body_sigs) (bundle_sig ∷ bundle_sigs) =
      let rest = check_signatures (suc i) body_sigs bundle_sigs in
      elim (services.json.as_str (services.json.index body_sig "sig")) [
        | none ↦
            err (
              malformed_body
                ("intoto v0.0.2 body signature " +++ show i +++ " missing 'sig' field"))
        | some field ↦ elim (decode field) [
          | err e ↦ err (
              payload_binding_failed (
                "canonical envelope hash mismatch: body signature "
                +++ show i
                +++ " not valid base64: "
                +++ e))
          | ok decoded ↦
              if not (bytes_eq decoded (as_bytes bundle_sig.sig_b64))
              then err (
                  payload_binding_failed (
                    "canonical envelope hash mismatch: body signature "
                    +++ show i
                    +++ " does not encode the bundle signature"))
              else rest
        ]
      ]

  unfoldable pub check_intoto_v002_binding :
      Bytes → AttestationBundle → Bytes → Result Unit RekorError
  unfolding check_payload_hash check_signatures
  check_intoto_v002_binding body bundle decoded_payload =
      let index = services.json.index in
      let sigs = bundle.dsse_envelope.signatures in
      elim (services.json.from_slice body) [
        | err e ↦ err (malformed_body ("intoto body not valid JSON: " +++ e))
        | ok parsed ↦
            let content = index (index parsed "spec") "content" in
            let envelope = index content "envelope" in
            if services.json.is_null content
            then err (malformed_body "intoto v0.0.2 body missing spec.content")
            else and_then (check_payload_hash (index envelope "payloadHash") decoded_payload) (λ u.
              elim (services.json.as_array (index envelope "signatures")) [
                | none ↦
                    err
                      (malformed_body "intoto v0.0.2 body missing spec.content.envelope.signatures")
                | some body_sigs ↦
                    if not (length body_sigs == length sigs)
                    then err (
                        payload_binding_failed (
                          "canonical envelope hash mismatch: body has "
                          +++ show (length body_sigs)
                          +++ " signature(s), bundle has "
                          +++ show (length sigs)))
                    else check_signatures 0 body_sigs sigs
              ])
      ]

  unfoldable pub check_dsse_v001_binding : Bytes → Bytes → Result Unit RekorError
  unfolding check_payload_hash
  check_dsse_v001_binding body decoded_payload = elim (services.json.from_slice body) [
    | err e ↦ err (malformed_body ("dsse body not valid JSON: " +++ e))
    | ok parsed ↦
        check_payload_hash (services.json.index (services.json.index parsed "spec") "payloadHash")
          decoded_payload
  ]

  -- The loop over the audit hashes.
  unfoldable pub decode_path : List String → Result (List Bytes) RekorError
  decode_path [] = ok []
  decode_path (h ∷ hashes) =
      let rest = decode_path hashes in
      elim (decode h) [
        | err e ↦ err (malformed_proof ("audit hash decode failed: " +++ e))
        | ok raw ↦
            if not (length raw == 32)
            then err (malformed_proof ("audit hash must be 32 bytes, got " +++ show (length raw)))
            else and_then rest (λ path. ok (raw ∷ path))
      ]

  unfoldable pub verify_merkle_inclusion : TlogEntry → InclusionProof → Result Unit RekorError
  unfolding decode_path
  verify_merkle_inclusion entry proof = elim (decode proof.root_hash_b64) [
    | err e ↦ err (malformed_proof ("root hash base64 decode failed: " +++ e))
    | ok root ↦
        if not (length root == 32)
        then err (malformed_proof ("root hash must be 32 bytes, got " +++ show (length root)))
        else and_then (decode_path proof.hashes_b64) (λ path.
          verify_merkle_path services.crypto.sha256 proof.log_index proof.tree_size
            (rfc6962_leaf_hash services.crypto.sha256 entry.canonicalized_body) path root)
  ]

  abbrev outcome_reason : NoteVerifyOutcome → RekorError
  outcome_reason valid = tree_head_signature_invalid ""
  outcome_reason (invalid reason) = tree_head_signature_invalid reason

  -- The second and third of the lines.
  abbrev second_third : List String → String × String
  second_third (first ∷ size ∷ root ∷ more) = (size, root)
  second_third few = ("", "")

  unfoldable pub verify_rekor_checkpoint : String → InclusionProof → Result Unit RekorError
  verify_rekor_checkpoint envelope proof =
      and_then
        (map_err outcome_reason (
          verify_ecdsa_p256 services.crypto envelope services.rekor_key_name
            services.rekor_public_key))
        (λ parsed.
          let text_lines = lines parsed.note_text in
          let (size, root) = second_third text_lines in
          if ltb (length text_lines) 3
          then err (
              tree_head_signature_invalid
                ("Rekor note text must have at least 3 lines, found " +++ show (length text_lines)))
          else (elim (services.parse_u64 (trim size)) [
            | err e ↦ err (
                tree_head_signature_invalid
                  ("could not parse tree size from note line 1 (" +++ size +++ "): " +++ e))
            | ok claimed_size ↦
                if not (claimed_size == proof.tree_size)
                then err (
                    tree_head_signature_invalid (
                      "tree-size mismatch: note has "
                      +++ show claimed_size
                      +++ ", inclusion proof has "
                      +++ show proof.tree_size))
                else if not (str_eq (trim root) proof.root_hash_b64)
                then err (
                    tree_head_signature_invalid (
                      "root-hash mismatch: note has "
                      +++ trim root
                      +++ ", inclusion proof has "
                      +++ proof.root_hash_b64))
                else ok tt
          ]))

  abbrev or_empty : Option Bytes → Bytes
  or_empty none = []
  or_empty (some b) = b

  abbrev is_kind : String → String → KindVersion → Bool
  is_kind kind version kv = str_eq kv.kind kind && str_eq kv.version version

  -- The two checks of the body, each for its kind.
  unfoldable pub check_binding : TlogEntry → AttestationBundle → Result Unit RekorError
  unfolding decoded_payload check_intoto_v002_binding check_dsse_v001_binding
  check_binding entry bundle =
      let payload = or_empty (decoded_payload bundle.dsse_envelope) in
      and_then
        (if is_kind "intoto" "0.0.2" entry.kind_version
          then check_intoto_v002_binding entry.canonicalized_body bundle payload
          else ok tt)
        (λ u.
          if is_kind "dsse" "0.0.1" entry.kind_version
          then check_dsse_v001_binding entry.canonicalized_body payload
          else ok tt)

  unfoldable pub check_checkpoint : InclusionProof → Result Unit RekorError
  unfolding verify_rekor_checkpoint
  check_checkpoint proof = elim proof.checkpoint [
    | none ↦ ok tt
    | some envelope ↦ verify_rekor_checkpoint envelope proof
  ]

  unfoldable pub verify_rekor_inclusion : AttestationBundle → Result RekorEntry RekorError
  unfolding check_supported_kind check_binding verify_merkle_inclusion check_checkpoint
  verify_rekor_inclusion bundle = elim bundle.tlog_entries [
    | [] ↦ err no_tlog_entry
    | entry ∷ [] ↦ and_then (check_supported_kind entry.kind_version) (λ u.
        and_then (check_binding entry bundle) (λ u.
          and_then (verify_merkle_inclusion entry entry.inclusion_proof) (λ u.
            and_then (check_checkpoint entry.inclusion_proof) (λ u.
              ok (record { integrated_time = entry.integrated_time; log_id = entry.log_id })))))
    | entry ∷ other ∷ more ↦ err (unexpected_multiple_entries (length (entry ∷ other ∷ more)))
  ]
