-- ===== src/Sigstore.antt =====
-- src/sigstore_verify.rs with the bundle types of src/registry/npm_attestation.rs: the errors of the
-- Rekor verification and the proof that a bundle carries.
pub mod Merkle
pub mod Rekor
pub mod Chain
pub mod Dsse
use dep_scan.Prelude.Text.{◌+++◌, show}
use dep_scan.Prelude.{ℕ, suc, List, Option, String, Bool}
use dep_scan.Prelude.Results.{Bytes, ℤ, pos, negsuc, Result}

-- Times are seconds since the epoch, `i64` in the source.
pub data RekorError : Type 0 where
  no_tlog_entry : RekorError
  unexpected_multiple_entries : ℕ → RekorError
  unsupported_kind : String → String → RekorError
  malformed_body : String → RekorError
  payload_binding_failed : String → RekorError
  malformed_proof : String → RekorError
  inclusion_proof_invalid : RekorError
  tree_head_signature_invalid : String → RekorError
  -- the integrated time and the bound
  timestamp_before_cert_validity : ℤ → ℤ → RekorError
  timestamp_after_cert_validity : ℤ → ℤ → RekorError

abbrev show_int : ℤ → String
show_int (pos n) = show n
show_int (negsuc n) = "-" +++ show (suc n)

-- `Display`
unfoldable pub show_rekor_error : RekorError → String
show_rekor_error no_tlog_entry =
    "bundle has no Rekor transparency-log entries; provenance cannot be verified"
show_rekor_error (unexpected_multiple_entries n) =
    "bundle carries "
    +++ show n
    +++ " Rekor entries; expected exactly 1 (refusing to silently pick one)"
show_rekor_error (unsupported_kind kind version) =
    "unsupported Rekor entry kind (" +++ kind +++ ", " +++ version
    +++ "); only (dsse, 0.0.1) and (intoto, 0.0.2) are accepted"
show_rekor_error (malformed_body why) = "malformed Rekor entry body: " +++ why
show_rekor_error (payload_binding_failed why) = "Rekor payload binding failed: " +++ why
show_rekor_error (malformed_proof why) = "malformed Rekor inclusion proof: " +++ why
show_rekor_error inclusion_proof_invalid =
    "Rekor inclusion proof did not recompute to the claimed root hash"
show_rekor_error (tree_head_signature_invalid why) =
    "Rekor signed tree head failed verification: " +++ why
show_rekor_error (timestamp_before_cert_validity time bound) =
    "Rekor integratedTime "
    +++ show_int time
    +++ " is before leaf cert notBefore "
    +++ show_int bound
show_rekor_error (timestamp_after_cert_validity time bound) =
    "Rekor integratedTime " +++ show_int time +++ " is after leaf cert notAfter " +++ show_int bound

pub record KindVersion : Type 0 where
  pub kind : String
  pub version : String

pub record InclusionProof : Type 0 where
  pub log_index : ℕ
  pub tree_size : ℕ
  pub root_hash_b64 : String
  pub hashes_b64 : List String
  pub checkpoint : Option String

pub record TlogEntry : Type 0 where
  pub log_index : ℕ
  pub log_id : String
  pub kind_version : KindVersion
  pub integrated_time : ℤ
  pub canonicalized_body : Bytes
  pub inclusion_proof : InclusionProof

pub record DsseSignature : Type 0 where
  pub sig_b64 : String
  pub keyid : String

pub record DsseEnvelope : Type 0 where
  pub payload_b64 : String
  pub payload_type : String
  pub signatures : List DsseSignature

pub data VerificationMaterial : Type 0 where
  x509_cert_chain : List String → VerificationMaterial
  public_key_hint : String → VerificationMaterial

pub record AttestationBundle : Type 0 where
  pub predicate_type : String
  pub dsse_envelope : DsseEnvelope
  pub verification_material : VerificationMaterial
  pub tlog_entries : List TlogEntry

pub record RekorEntry : Type 0 where
  pub integrated_time : ℤ
  pub log_id : String

-- `serde_json::Value` as the code uses it; a missing key is the null value.
pub record JsonReader (Json : Type 0) : Type 0 where
  pub from_slice : Bytes → Result Json String
  pub index : Json → String → Json
  pub as_str : Json → Option String
  pub as_array : Json → Option (List Json)
  -- the members in order
  pub as_object : Json → Option (List (String × Json))
  pub is_null : Json → Bool
