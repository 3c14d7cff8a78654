-- ===== src/SignedNote/Laws.antt =====
-- src/signed_note.rs: what a note that verifies carries.
use dep_scan.Prelude.{
  some, String, true, length, take, drop, any-In, any-of_In, In, eq_iff, ◌≡◌, ◌↔◌, arith,
  Option-cases, inl, inr, ◌∙◌, ap,
}
use dep_scan.Prelude.Results.{ok, Result-cases, Bytes, bytes_eq_iff, is_ok_iff}
use dep_scan.Prelude.Lines.{as_bytes}
use dep_scan.SignedNote.{valid, NoteSignature, ParsedNote, parse}
use dep_scan.SignedNote.Verify.{
  NoteCrypto, ed25519_key_id, ed25519_line, verify_ed25519, p256_line, verify_ecdsa_p256,
  pem_to_spki_der, extract_ec_point_p256, key_fields, first_or_zero,
}

module _ {Ed25519Key P256Key P256Signature : Type 0}
    (crypto : NoteCrypto Ed25519Key P256Key P256Signature) where
  -- A parsed note with a line under the name and the id of the key of `key_str` whose 64 bytes are a
  -- signature of the text.
  pub record Ed25519Signed (signed_note key_str : String) : Type 0 where
    pub fields : String × String × String
    pub key_bytes : Bytes
    pub key : Ed25519Key
    pub parsed : ParsedNote
    pub sig : NoteSignature
    pub key_has_fields : key_fields key_str ≡ some fields
    pub decoded : crypto.base64_decode fields.2 ≡ ok key_bytes
    pub long : length key_bytes ≡ 33
    pub tagged : first_or_zero key_bytes ≡ 1
    pub is_key : crypto.ed25519_key (drop 1 key_bytes) ≡ ok key
    pub is_note : parse crypto.base64_decode signed_note ≡ ok parsed
    pub carries : In sig parsed.signatures
    pub same_name : sig.key_name ≡ fields.0
    pub same_id : sig.key_id ≡ ed25519_key_id crypto fields.0 key_bytes
    pub whole : length sig.sig_bytes ≡ 64
    pub verified : crypto.ed25519_verify key (as_bytes parsed.note_text) sig.sig_bytes ≡ true

  ed25519_line_iff :
      (name : String) (id : Bytes) (key : Ed25519Key) (text : String) (sig : NoteSignature)
      → (ed25519_line crypto name id key text sig ≡ true) ↔ (
          (sig.key_name ≡ name)
          × (sig.key_id ≡ id)
          × (length sig.sig_bytes ≡ 64)
          × (crypto.ed25519_verify key (as_bytes text) sig.sig_bytes ≡ true))
  unfolding ed25519_line
  ed25519_line_iff name id key text sig =
      ground (arith, eq_iff sig.key_name name, bytes_eq_iff sig.key_id id)

  -- A note is valid for an Ed25519 key exactly when the whole note parses and one of its signature
  -- lines is signed by that key; what verifies nothing among the other parsed lines does no harm.
  pub verify_ed25519-valid_iff :
      (signed_note key_str : String)
      → (verify_ed25519 crypto signed_note key_str ≡ valid) ↔ Ed25519Signed signed_note key_str
  unfolding verify_ed25519
  verify_ed25519-valid_iff signed_note key_str = (
    (λ h. elim (Option-cases (key_fields key_str)) [
      | inl malformed ↦ absurd (ground arith)
      | inr (fields, key_has_fields) ↦ elim (Result-cases (crypto.base64_decode fields.2)) [
        | inr (e, undecoded) ↦ absurd (ground arith)
        | inl (key_bytes, decoded) ↦ elim (Result-cases (crypto.ed25519_key (drop 1 key_bytes))) [
          | inr (e, no_key) ↦ absurd (ground arith)
          | inl (key, is_key) ↦ elim (Result-cases (parse crypto.base64_decode signed_note)) [
            | inr (e, no_note) ↦ absurd (ground arith)
            | inl (parsed, is_note) ↦
                let line =
                  ed25519_line crypto fields.0 (ed25519_key_id crypto fields.0 key_bytes) key
                    parsed.note_text in
                let (sig, carries, accepted) = any-In line parsed.signatures (ground arith) in
                let (same_name, same_id, whole, verified) =
                  (ed25519_line_iff fields.0 (ed25519_key_id crypto fields.0 key_bytes) key
                      parsed.note_text sig).0
                    accepted in
                record {
                  fields = fields;
                  key_bytes = key_bytes;
                  key = key;
                  parsed = parsed;
                  sig = sig;
                  key_has_fields = key_has_fields;
                  decoded = decoded;
                  long = ground arith;
                  tagged = ground arith;
                  is_key = is_key;
                  is_note = is_note;
                  carries = carries;
                  same_name = same_name;
                  same_id = same_id;
                  whole = whole;
                  verified = verified;
                }
          ]
        ]
      ]
    ]),
    λ s.
        let line =
          ed25519_line crypto s.fields.0 (ed25519_key_id crypto s.fields.0 s.key_bytes) s.key
            s.parsed.note_text in
        let accepted : line s.sig ≡ true =
          (ed25519_line_iff s.fields.0 (ed25519_key_id crypto s.fields.0 s.key_bytes) s.key
              s.parsed.note_text s.sig).1
            (s.same_name, s.same_id, s.whole, s.verified) in
        let found = any-of_In line s.parsed.signatures s.sig s.carries accepted in
        ground (arith, s.key_has_fields, s.decoded, s.long, s.tagged, s.is_key, s.is_note, found),
  )

  -- A line of the parsed note under the name and the id of the pinned key that is a signature of the
  -- text by that key.
  pub record P256Signed (signed_note key_name pem : String) (parsed : ParsedNote) : Type 0 where
    pub spki_der : Bytes
    pub ec_point : Bytes
    pub key : P256Key
    pub sig : NoteSignature
    pub signature : P256Signature
    pub is_pem : pem_to_spki_der crypto.base64_decode pem ≡ ok spki_der
    pub has_point : extract_ec_point_p256 spki_der ≡ some ec_point
    pub is_key : crypto.p256_key ec_point ≡ ok key
    pub is_note : parse crypto.base64_decode signed_note ≡ ok parsed
    pub carries : In sig parsed.signatures
    pub same_name : sig.key_name ≡ key_name
    pub same_id : sig.key_id ≡ take 4 (crypto.sha256 spki_der)
    pub is_der : crypto.p256_from_der sig.sig_bytes ≡ ok signature
    pub verified : crypto.p256_verify key (as_bytes parsed.note_text) signature ≡ ok tt

  p256_line_iff :
      (name : String) (id : Bytes) (key : P256Key) (text : String) (sig : NoteSignature)
      → (p256_line crypto name id key text sig ≡ true) ↔ (
          (sig.key_name ≡ name)
          × (sig.key_id ≡ id)
          × ((signature : P256Signature) × (crypto.p256_from_der sig.sig_bytes ≡ ok signature)
              × (crypto.p256_verify key (as_bytes text) signature ≡ ok tt)))
  unfolding p256_line
  p256_line_iff name id key text sig = elim (Result-cases (crypto.p256_from_der sig.sig_bytes)) [
    | inr (e, not_der) ↦ (
      (λ h. absurd (ground arith)),
      λ h. let (same_name, same_id, (s, is_der, verified)) = h in absurd (ground arith),
    )
    | inl (s, is_der) ↦ (
      (λ h. (
        ground (arith, eq_iff sig.key_name name),
        ground (arith, bytes_eq_iff sig.key_id id),
        (
          s,
          is_der,
          ground (
            arith,
            eq_iff sig.key_name name,
            bytes_eq_iff sig.key_id id,
            is_ok_iff (crypto.p256_verify key (as_bytes text) s),
          ),
        ),
      )),
      λ h.
          let (same_name, same_id, (t, is_t, verified)) = h in
          ground (
            arith,
            eq_iff sig.key_name name,
            bytes_eq_iff sig.key_id id,
            is_ok_iff (crypto.p256_verify key (as_bytes text) t),
          ),
    )
  ]

  -- A note verifies against a pinned P-256 key, with its parsed form as the result, exactly when the
  -- whole note parses to that form and one of its signature lines is signed by that key; what verifies
  -- nothing among the other parsed lines does no harm.
  pub verify_ecdsa_p256-ok_iff :
      (signed_note key_name pem : String) (parsed : ParsedNote)
      → (verify_ecdsa_p256 crypto signed_note key_name pem ≡ ok parsed)
        ↔ P256Signed signed_note key_name pem parsed
  unfolding verify_ecdsa_p256
  verify_ecdsa_p256-ok_iff signed_note key_name pem parsed = (
    (λ h. elim (Result-cases (pem_to_spki_der crypto.base64_decode pem)) [
      | inr (e, no_pem) ↦ absurd (ground arith)
      | inl (spki_der, is_pem) ↦ elim (Option-cases (extract_ec_point_p256 spki_der)) [
        | inl pointless ↦ absurd (ground arith)
        | inr (ec_point, has_point) ↦ elim (Result-cases (crypto.p256_key ec_point)) [
          | inr (e, no_key) ↦ absurd (ground arith)
          | inl (key, is_key) ↦ elim (Result-cases (parse crypto.base64_decode signed_note)) [
            | inr (e, no_note) ↦ absurd (ground arith)
            | inl (note, is_note) ↦
                let same : note ≡ parsed = ground arith in
                let line =
                  p256_line crypto key_name (take 4 (crypto.sha256 spki_der)) key
                    parsed.note_text in
                let (sig, carries, accepted) = any-In line parsed.signatures (ground arith) in
                let (same_name, same_id, (signature, is_der, verified)) =
                  (p256_line_iff key_name (take 4 (crypto.sha256 spki_der)) key parsed.note_text
                      sig).0
                    accepted in
                record {
                  spki_der = spki_der;
                  ec_point = ec_point;
                  key = key;
                  sig = sig;
                  signature = signature;
                  is_pem = is_pem;
                  has_point = has_point;
                  is_key = is_key;
                  is_note = is_note ∙ ap ok same;
                  carries = carries;
                  same_name = same_name;
                  same_id = same_id;
                  is_der = is_der;
                  verified = verified;
                }
          ]
        ]
      ]
    ]),
    λ s.
        let line =
          p256_line crypto key_name (take 4 (crypto.sha256 s.spki_der)) s.key parsed.note_text in
        let accepted : line s.sig ≡ true =
          (p256_line_iff key_name (take 4 (crypto.sha256 s.spki_der)) s.key parsed.note_text
              s.sig).1
            (s.same_name, s.same_id, (s.signature, s.is_der, s.verified)) in
        let found = any-of_In line parsed.signatures s.sig s.carries accepted in
        ground (arith, s.is_pem, s.has_point, s.is_key, s.is_note, found),
  )
