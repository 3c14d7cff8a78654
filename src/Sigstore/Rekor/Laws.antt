-- ===== src/Sigstore/Rekor/Laws.antt =====
-- src/sigstore_verify.rs: what an accepted Rekor entry says, and what it does not.
use dep_scan.Prelude.{
  List, [], ◌∷◌, none, some, length, ◌≡◌, refl, arith, inl, inr, ◌⊎◌, ◌∙◌, ap, sym, List-cases,
  String, All, ◌-◌, subst,
}
use dep_scan.Prelude.Results.{
  Result, ok, err, Result-cases, Bytes, get_elem?, ok-injective, ℤ, bytes_eq_iff,
}
use dep_scan.Sigstore.{InclusionProof, TlogEntry, AttestationBundle, RekorEntry}
use dep_scan.Sigstore.Merkle.{rfc6962_leaf_hash, verify_merkle_path}
use dep_scan.Sigstore.Merkle.Layers.{root_of}
use dep_scan.Sigstore.Merkle.Pairs.{IsHash, tree_pairs, path_pairs}
use dep_scan.Sigstore.Merkle.Collision.{Collision}
use dep_scan.Sigstore.Merkle.Sound.{verify_merkle_path_sound}
use dep_scan.Sigstore.Rekor.{
  RekorServices, check_supported_kind, check_binding, verify_merkle_inclusion, check_checkpoint,
  verify_rekor_inclusion, decode_path,
}

module _ {Json Ed25519Key P256Key P256Signature : Type 0}
    (services : RekorServices Json Ed25519Key P256Key P256Signature) where
  -- The checks that one entry of a bundle has passed.
  pub record Accepted (bundle : AttestationBundle) (r : RekorEntry) : Type 0 where
    pub entry : TlogEntry
    pub only : bundle.tlog_entries ≡ entry ∷ []
    pub kind : check_supported_kind entry.kind_version ≡ ok tt
    pub bound : check_binding services entry bundle ≡ ok tt
    pub included : verify_merkle_inclusion services entry entry.inclusion_proof ≡ ok tt
    pub signed : check_checkpoint services entry.inclusion_proof ≡ ok tt
    pub result : r ≡ record { integrated_time = entry.integrated_time; log_id = entry.log_id }

  unit_result : {E : Type 0} (r : Result Unit E) → (r ≡ ok tt) ⊎ ((e : E) × (r ≡ err e))
  unit_result (ok tt) = inl refl
  unit_result (err e) = inr (e, refl)

  verify_rekor_inclusion-Accepted :
      (bundle : AttestationBundle) (r : RekorEntry)
      → verify_rekor_inclusion services bundle ≡ ok r
      → Accepted bundle r
  unfolding verify_rekor_inclusion
  verify_rekor_inclusion-Accepted bundle r h = elim (List-cases bundle.tlog_entries) [
    | inl empty ↦ absurd (ground arith)
    | inr (entry, rest, some_entries) ↦ elim (List-cases rest) [
      | inr (other, more, many) ↦ absurd (ground arith)
      | inl alone ↦ elim (unit_result (check_supported_kind entry.kind_version)) [
        | inr (e, bad) ↦ absurd (ground arith)
        | inl kind ↦ elim (unit_result (check_binding services entry bundle)) [
          | inr (e, bad) ↦ absurd (ground arith)
          | inl bound ↦
              elim (unit_result (verify_merkle_inclusion services entry entry.inclusion_proof)) [
                | inr (e, bad) ↦ absurd (ground arith)
                | inl included ↦
                    elim (unit_result (check_checkpoint services entry.inclusion_proof)) [
                      | inr (e, bad) ↦ absurd (ground arith)
                      | inl signed ↦ record {
                        entry = entry;
                        only = ground arith;
                        kind = kind;
                        bound = bound;
                        included = included;
                        signed = signed;
                        result = ground arith;
                      }
                    ]
              ]
        ]
      ]
    ]
  ]

  decode_path-IsHash :
      (hashes : List String) (path : List Bytes)
      → decode_path services hashes ≡ ok path
      → All IsHash path
  unfolding decode_path
  decode_path-IsHash [] path e = subst (All IsHash) (ok-injective e) tt
  decode_path-IsHash (h ∷ hashes) path e = elim (Result-cases (services.crypto.base64_decode h)) [
    | inr (x, undecoded) ↦ absurd (ground arith)
    | inl (raw, decoded) ↦ elim (Result-cases (decode_path services hashes)) [
      | inr (x, undecoded) ↦ absurd (ground arith)
      | inl (rest, is_rest) ↦
          let sized : length raw ≡ 32 = ground arith in
          let whole : raw ∷ rest ≡ path = ground arith in
          subst (All IsHash) whole (sized, decode_path-IsHash hashes rest is_rest)
    ]
  ]

  -- What the audit path of a proof shows of a row: the entry's leaf hash stands at the proof's index,
  -- or a pair of the row's tree and a pair hashed on the way are a collision.
  pub record Includes (entry : TlogEntry) (proof : InclusionProof) (row : List Bytes) : Type 0 where
    pub path : List Bytes
    pub is_path : decode_path services proof.hashes_b64 ≡ ok path
    pub found :
        let sha256 = services.crypto.sha256 in
        let leaf = rfc6962_leaf_hash sha256 entry.canonicalized_body in
        (get_elem? row proof.log_index ≡ some leaf)
        ⊎ Collision sha256
            (tree_pairs sha256 (length row) row)
            (path_pairs sha256 proof.log_index (length row - 1) leaf path)

  module _ (hash_length : (b : Bytes) → IsHash (services.crypto.sha256 b)) where
    leaf-IsHash : (body : Bytes) → IsHash (rfc6962_leaf_hash services.crypto.sha256 body)
    unfolding rfc6962_leaf_hash
    leaf-IsHash body = hash_length _

    inclusion_sound :
        (entry : TlogEntry) (proof : InclusionProof)
        → verify_merkle_inclusion services entry proof ≡ ok tt
        → (row : List Bytes) (root : Bytes) → All IsHash row
        → length row ≡ proof.tree_size
        → services.crypto.base64_decode proof.root_hash_b64 ≡ ok root
        → root_of services.crypto.sha256 (length row) row ≡ some root
        → Includes entry proof row
    unfolding verify_merkle_inclusion
    inclusion_sound entry proof h row root sized size decoded is_root =
        elim (Result-cases (decode_path services proof.hashes_b64)) [
          | inr (e, undecoded) ↦ absurd (ground arith)
          | inl (path, is_path) ↦ record {
            path = path;
            is_path = is_path;
            found =
                verify_merkle_path_sound services.crypto.sha256 hash_length row root proof.log_index
                  (rfc6962_leaf_hash services.crypto.sha256 entry.canonicalized_body) path sized
                  (leaf-IsHash entry.canonicalized_body)
                  (decode_path-IsHash proof.hashes_b64 path is_path) is_root
                  (rw size (ground arith));
          }
        ]

    -- Where hashes have 32 bytes and the one entry of an accepted bundle names the root of a row of
    -- leaf hashes, with the row's length as the tree size, the hash of the entry's body stands in the
    -- row at the proof's index, or else one of the pairs of nodes in the row's tree and one of the
    -- pairs hashed along the proof's path give SHA-256 different bytes with the same hash.
    pub verify_rekor_inclusion_sound :
        (bundle : AttestationBundle) (r : RekorEntry) (entry : TlogEntry)
        → verify_rekor_inclusion services bundle ≡ ok r
        → bundle.tlog_entries ≡ entry ∷ []
        → (row : List Bytes) (root : Bytes) → All IsHash row
        → root_of services.crypto.sha256 (length row) row ≡ some root
        → length row ≡ entry.inclusion_proof.tree_size
        → services.crypto.base64_decode entry.inclusion_proof.root_hash_b64 ≡ ok root
        → Includes entry entry.inclusion_proof row
    verify_rekor_inclusion_sound bundle r entry h only row root sized is_root size decoded =
        let a = verify_rekor_inclusion-Accepted bundle r h in
        let listed : a.entry ∷ [] ≡ entry ∷ [] = sym a.only ∙ only in
        let same : a.entry ≡ entry = ground arith in
        inclusion_sound entry entry.inclusion_proof (rw (sym same) (a.included)) row root sized size
          decoded is_root

  abbrev pub with_entry : TlogEntry → AttestationBundle → AttestationBundle
  with_entry entry bundle = record bundle { tlog_entries = entry ∷ [] }

  abbrev pub at_time : ℤ → TlogEntry → TlogEntry
  at_time time entry = record entry { integrated_time = time }

  -- A proof of an entry of kind dsse 0.0.1 in a tree of its own: one leaf, no audit path, no signed
  -- tree head.
  pub record OwnTree (entry : TlogEntry) : Type 0 where
    pub kind : entry.kind_version ≡ record { kind = "dsse"; version = "0.0.1" }
    pub index : entry.inclusion_proof.log_index ≡ 0
    pub size : entry.inclusion_proof.tree_size ≡ 1
    pub path : entry.inclusion_proof.hashes_b64 ≡ []
    pub unsigned : entry.inclusion_proof.checkpoint ≡ none
    pub root :
        services.crypto.base64_decode entry.inclusion_proof.root_hash_b64
        ≡ ok (rfc6962_leaf_hash services.crypto.sha256 entry.canonicalized_body)

  own_kind : (entry : TlogEntry) → OwnTree entry → check_supported_kind entry.kind_version ≡ ok tt
  unfolding check_supported_kind
  own_kind entry own = ap check_supported_kind (own.kind)

  own_signed :
      (entry : TlogEntry) → OwnTree entry → check_checkpoint services entry.inclusion_proof ≡ ok tt
  unfolding check_checkpoint
  own_signed entry own = ground (arith, own.unsigned)

  own_included :
      (hash_length : (b : Bytes) → length (services.crypto.sha256 b) ≡ 32) (entry : TlogEntry)
      → OwnTree entry
      → verify_merkle_inclusion services entry entry.inclusion_proof ≡ ok tt
  unfolding verify_merkle_inclusion verify_merkle_path decode_path rfc6962_leaf_hash
  own_included hash_length entry own = ground (
    arith,
    own.index,
    own.size,
    own.path,
    own.root,
    hash_length (0 ∷ entry.canonicalized_body),
    bytes_eq_iff (services.crypto.sha256 (0 ∷ entry.canonicalized_body))
        (services.crypto.sha256 (0 ∷ entry.canonicalized_body)),
  )

  -- Where a hash has 32 bytes, an entry of kind dsse 0.0.1 without a signed tree head needs no log:
  -- whatever its body and its time, a body that passes the check of its payload hash is accepted in
  -- a tree of one leaf whose root is the hash of that body.
  pub verify_rekor_inclusion-OwnTree :
      (hash_length : (b : Bytes) → length (services.crypto.sha256 b) ≡ 32)
      (bundle : AttestationBundle) (entry : TlogEntry)
      → OwnTree entry
      → check_binding services entry bundle ≡ ok tt
      → verify_rekor_inclusion services (with_entry entry bundle)
        ≡ ok (record { integrated_time = entry.integrated_time; log_id = entry.log_id })
  unfolding verify_rekor_inclusion
  verify_rekor_inclusion-OwnTree hash_length bundle entry own bound =
      let kind : check_supported_kind entry.kind_version ≡ ok tt = own_kind entry own in
      let included : verify_merkle_inclusion services entry entry.inclusion_proof ≡ ok tt =
        own_included hash_length entry own in
      let signed : check_checkpoint services entry.inclusion_proof ≡ ok tt = own_signed entry own in
      ground (arith, kind, bound, included, signed)
