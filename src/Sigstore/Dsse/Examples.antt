-- ===== src/Sigstore/Dsse/Examples.antt =====
-- src/sigstore_verify.rs and src/signed_note.rs on concrete inputs, with a checksum for the hash, and
-- schemes that accept every key and signature.
use dep_scan.Prelude.Text.{split_once}
use dep_scan.Prelude.{
  ℕ, ◌+◌, List, [], ◌∷◌, none, some, if◌then◌else◌, String, true, str_eq, ◌==◌, ◌≡◌, refl, ◌⊎◌, suc,
  zero, lookup, map_insert, In,
}
use dep_scan.Prelude.Results.{Result, ok, Bytes, pos, get_elem?, bytes_eq, lt_int}
use dep_scan.Prelude.Lines.{as_bytes}
use dep_scan.SignedNote.Verify.{NoteCrypto}
use dep_scan.Sigstore.{InclusionProof, TlogEntry, x509_cert_chain, AttestationBundle, JsonReader}
use dep_scan.Sigstore.Merkle.{verify_merkle_path, rfc6962_leaf_hash}
use dep_scan.Sigstore.Merkle.Layers.{root_of}
use dep_scan.Sigstore.Merkle.Pairs.{tree_pairs, path_pairs}
use dep_scan.Sigstore.Merkle.Collision.{Collision}
use dep_scan.Sigstore.Merkle.Sound.{verify_merkle_path_sound}
use dep_scan.Sigstore.Merkle.Complete.{audit_path, verify_merkle_path-audit_path}
use dep_scan.Sigstore.Rekor.{RekorServices, check_binding, verify_rekor_inclusion, decoded_payload}
use dep_scan.Sigstore.Rekor.Laws.{
  Includes, with_entry, OwnTree, verify_rekor_inclusion_sound, verify_rekor_inclusion-OwnTree,
}
use dep_scan.Sigstore.Chain.{
  TrustAnchor, extended_key_usage, other_extension, X509, verify_fulcio_chain_against,
}
use dep_scan.Sigstore.Chain.Laws.{Chained, verify_fulcio_chain_against-Chained}
use dep_scan.Policy.{pass}
use dep_scan.Policy.Context.{PackageMetadata, ScanContext, from_metadata}
use dep_scan.Policy.Provenance.{npm_provenance_evaluate}
use dep_scan.Policy.Provenance.Digest.{Digest}
use dep_scan.Sigstore.Dsse.Npm.{npm_provenance_evaluate-Verified}
use dep_scan.Sigstore.Dsse.{SigstoreServices, verify_dsse_bundle}
use dep_scan.Sigstore.Dsse.Laws.{Verified}

abbrev zeros : ℕ → Bytes
zeros zero = []
zeros (suc n) = 0 ∷ zeros n

abbrev sum : Bytes → ℕ
sum [] = 0
sum (b ∷ bs) = b + sum bs

abbrev checksum : Bytes → Bytes
checksum bytes = sum bytes ∷ zeros 31

-- The body of the log entry is the byte 7; its leaf hash starts with 7 too.
abbrev toy_decode : String → Result Bytes String
toy_decode s = if str_eq s "root" then ok (checksum (0 ∷ 7 ∷ [])) else ok (as_bytes s)

abbrev toy_crypto : NoteCrypto Bytes Bytes Bytes
toy_crypto = record {
  sha256 = checksum;
  base64_decode = toy_decode;
  ed25519_key = λ b. ok b;
  ed25519_verify = λ k text sig. true;
  p256_key = λ b. ok b;
  p256_from_der = λ b. ok b;
  p256_verify = λ k text sig. ok tt;
}

-- Documents as numbered places: 0 is the payload, 4 its digest.
abbrev toy_index : ℕ → String → ℕ
toy_index n key = if str_eq key "subject" then 1 else if str_eq key "digest" then 3 else 9

abbrev toy_json : JsonReader ℕ
toy_json = record {
  from_slice = λ b. ok 0;
  index = toy_index;
  as_str = λ n. if n == 4 then some "ab" else none;
  as_array = λ n. if n == 1 then some (2 ∷ []) else none;
  as_object = λ n. if n == 3 then some (("sha512", 4) ∷ []) else none;
  is_null = λ n. n == 9;
}

abbrev toy_rekor : RekorServices ℕ Bytes Bytes Bytes
toy_rekor = record {
  crypto = toy_crypto;
  base64_url_decode = toy_decode;
  json = toy_json;
  to_lowercase = λ s. s;
  parse_u64 = λ s. ok 0;
  rekor_key_name = "rekor.sigstore.dev";
  rekor_public_key = "";
}

abbrev toy_x509 : X509 Bytes
toy_x509 = record {
  from_der = λ der. ok der;
  subject = λ cert. "sigstore";
  issuer = λ cert. "sigstore";
  extensions = λ cert.
      ("2.5.29.37", extended_key_usage true []) ∷ ("1.3.6.1.4.1.57264.1.1", other_extension) ∷ [];
  verify_signature = λ child parent. ok tt;
  subject_public_key = λ cert. cert;
  not_before = λ cert. pos 100;
  not_after = λ cert. pos 200;
}

abbrev root_anchor : TrustAnchor
root_anchor = record { der = 1 ∷ []; is_root = true; label = "root" }

abbrev toy : SigstoreServices ℕ Bytes Bytes Bytes Bytes
toy = record { rekor = toy_rekor; x509 = toy_x509; trust_store = root_anchor ∷ [] }

abbrev proof : InclusionProof
proof = record {
  log_index = 0;
  tree_size = 1;
  root_hash_b64 = "root";
  hashes_b64 = [];
  checkpoint = none;
}

abbrev entry : TlogEntry
entry = record {
  log_index = 0;
  log_id = "log";
  kind_version = record { kind = "dsse"; version = "0.0.1" };
  integrated_time = pos 150;
  canonicalized_body = 7 ∷ [];
  inclusion_proof = proof;
}

abbrev bundle : AttestationBundle
bundle = record {
  predicate_type = "https://slsa.dev/provenance/v1";
  dsse_envelope = record {
    payload_b64 = "statement";
    payload_type = "application/vnd.in-toto+json";
    signatures = record { sig_b64 = "signature"; keyid = "" } ∷ [];
  };
  verification_material = x509_cert_chain ("leaf" ∷ []);
  tlog_entries = entry ∷ [];
}

abbrev three_leaves : List Bytes
three_leaves = (5 ∷ []) ∷ (6 ∷ []) ∷ (8 ∷ []) ∷ []

-- The last of three leaves has no sibling on its own level.
verify_merkle_path-audit_path_example :
    (root : Bytes) × (root_of checksum 3 three_leaves ≡ some root)
    × (verify_merkle_path checksum 2 3 (8 ∷ []) (audit_path checksum 3 three_leaves 2) root ≡ ok tt)
verify_merkle_path-audit_path_example =
    verify_merkle_path-audit_path checksum three_leaves 2 (8 ∷ []) refl

abbrev three_root : Bytes
three_root = 21 ∷ zeros 31

abbrev hash_of : ℕ → Bytes
hash_of n = n ∷ zeros 31

abbrev three_hashes : List Bytes
three_hashes = hash_of 5 ∷ hash_of 6 ∷ hash_of 8 ∷ []

verify_merkle_path_sound_example :
    (get_elem? three_hashes 2 ≡ some (hash_of 8))
    ⊎ Collision checksum
        (tree_pairs checksum 3 three_hashes)
        (path_pairs checksum 2 2 (hash_of 8) (hash_of 12 ∷ []))
unfolding root_of verify_merkle_path bytes_eq
verify_merkle_path_sound_example =
    verify_merkle_path_sound checksum (λ b. refl) three_hashes three_root 2 (hash_of 8)
      (hash_of 12 ∷ []) (refl, (refl, (refl, tt))) refl (refl, tt) refl refl

entry_accepted :
    verify_rekor_inclusion toy_rekor bundle
    ≡ ok (record { integrated_time = pos 150; log_id = "log" })
unfolding verify_rekor_inclusion verify_merkle_path bytes_eq rfc6962_leaf_hash
entry_accepted = refl

verify_rekor_inclusion_sound_example :
    Includes toy_rekor entry proof (rfc6962_leaf_hash checksum (7 ∷ []) ∷ [])
unfolding root_of rfc6962_leaf_hash
verify_rekor_inclusion_sound_example =
    verify_rekor_inclusion_sound toy_rekor (λ b. refl) bundle
      (record { integrated_time = pos 150; log_id = "log" }) entry entry_accepted refl
      (rfc6962_leaf_hash checksum (7 ∷ []) ∷ []) (rfc6962_leaf_hash checksum (7 ∷ [])) (refl, tt)
      refl refl refl

own_tree : OwnTree toy_rekor entry
unfolding rfc6962_leaf_hash
own_tree = record {
  kind = refl;
  index = refl;
  size = refl;
  path = refl;
  unsigned = refl;
  root = refl;
}

verify_rekor_inclusion-OwnTree_example :
    verify_rekor_inclusion toy_rekor (with_entry toy_rekor entry bundle)
    ≡ ok (record { integrated_time = pos 150; log_id = "log" })
unfolding check_binding
verify_rekor_inclusion-OwnTree_example =
    verify_rekor_inclusion-OwnTree toy_rekor (λ b. refl) bundle entry own_tree refl

verify_fulcio_chain_against-Chained_example : Chained toy_x509 (root_anchor ∷ []) (3 ∷ [])
unfolding verify_fulcio_chain_against
verify_fulcio_chain_against-Chained_example =
    verify_fulcio_chain_against-Chained toy_x509 (3 ∷ []) (root_anchor ∷ []) refl

abbrev semver : PackageMetadata
semver = record {
  name = "semver";
  version = "7.6.0";
  description = none;
  published_at = none;
  maintainers = [];
  downloads = none;
  repository_url = none;
  content_hash = some "sha512:ab";
}

abbrev attested : ScanContext AttestationBundle
attested = record (from_metadata semver) { npm_attestations = some (bundle ∷ []) }

semver_passes : npm_provenance_evaluate (verify_dsse_bundle toy) true attested ≡ pass
unfolding npm_provenance_evaluate from_metadata verify_dsse_bundle split_once decoded_payload lookup
    map_insert verify_fulcio_chain_against verify_rekor_inclusion verify_merkle_path bytes_eq
    rfc6962_leaf_hash lt_int
semver_passes = refl

npm_provenance_evaluate-Verified_example :
    (bundles : List AttestationBundle) × (attested.npm_attestations ≡ some bundles)
    × ((digest : Digest attested) × ((b : AttestationBundle) × In b bundles
          × Verified toy b digest.algo digest.hex))
unfolding from_metadata
npm_provenance_evaluate-Verified_example =
    npm_provenance_evaluate-Verified toy true attested semver_passes (λ e. cc)
