-- ===== src/SignedNote/Examples.antt =====
-- src/signed_note.rs on a note whose first line is signed by another key.
use dep_scan.Prelude.Text.{has_prefix, join, split_once}
use dep_scan.Prelude.Lines.{split, trim, drop_chars, split_at_text, filter_chars, is_whitespace}
use dep_scan.Prelude.{
  ℕ, zero, suc, [], ◌∷◌, if◌then◌else◌, String, str_eq, ◌≡◌, refl, inl, inr, true,
}
use dep_scan.Prelude.Results.{Result, ok, err, Bytes}
use dep_scan.SignedNote.{valid, NoteSignature, ParsedNote, parse}
use dep_scan.SignedNote.Verify.{
  NoteCrypto, verify_ed25519, verify_ecdsa_p256, ed25519_key_id, pem_to_spki_der,
  extract_ec_point_p256,
}
use dep_scan.SignedNote.Laws.{
  Ed25519Signed, P256Signed, verify_ed25519-valid_iff, verify_ecdsa_p256-ok_iff,
}

abbrev zeros : ℕ → Bytes
zeros zero = []
zeros (suc n) = 0 ∷ zeros n

abbrev decode : String → Result Bytes String
decode s =
    if str_eq s "sig"
    then ok (zeros 68)
    else if str_eq s "other"
    then ok (9 ∷ zeros 67)
    else if str_eq s "key"
    then ok (1 ∷ zeros 32)
    else if str_eq s "pem"
    then ok (4 ∷ zeros 64)
    else err "not base64"

abbrev crypto : NoteCrypto Bytes Bytes Bytes
crypto = record {
  sha256 = λ b. zeros 32;
  base64_decode = decode;
  ed25519_key = λ b. ok b;
  ed25519_verify = λ k text sig. true;
  p256_key = λ b. ok b;
  p256_from_der = λ b. ok b;
  p256_verify = λ k text sig. ok tt;
}

abbrev note : String
note = "log\n2\nroot\n\n— name other\n— name sig\n"

abbrev parsed_note : ParsedNote
parsed_note = record {
  note_text = "log\n2\nroot\n";
  signatures =
      record { key_name = "name"; key_id = 9 ∷ zeros 3; sig_bytes = zeros 64 }
      ∷ record { key_name = "name"; key_id = zeros 4; sig_bytes = zeros 64 }
      ∷ [];
}

note_parses : parse decode note ≡ ok parsed_note
unfolding parse split has_prefix join trim split_once drop_chars
note_parses = refl

abbrev own_line : NoteSignature
own_line = record { key_name = "name"; key_id = zeros 4; sig_bytes = zeros 64 }

ed25519_signed : Ed25519Signed crypto note "name+00000000+key"
unfolding parse split_once ed25519_key_id
ed25519_signed = record {
  fields = ("name", "00000000", "key");
  key_bytes = 1 ∷ zeros 32;
  key = zeros 32;
  parsed = parsed_note;
  sig = own_line;
  key_has_fields = refl;
  decoded = refl;
  long = refl;
  tagged = refl;
  is_key = refl;
  is_note = note_parses;
  carries = inr (inl refl);
  same_name = refl;
  same_id = refl;
  whole = refl;
  verified = refl;
}

verify_ed25519-valid_iff_example : verify_ed25519 crypto note "name+00000000+key" ≡ valid
verify_ed25519-valid_iff_example =
    (verify_ed25519-valid_iff crypto note "name+00000000+key").1 ed25519_signed

abbrev pem : String
pem = "-----BEGIN PUBLIC KEY-----\npem\n-----END PUBLIC KEY-----\n"

p256_signed : P256Signed crypto note "name" pem parsed_note
unfolding parse pem_to_spki_der split_at_text filter_chars is_whitespace extract_ec_point_p256
p256_signed = record {
  spki_der = 4 ∷ zeros 64;
  ec_point = 4 ∷ zeros 64;
  key = 4 ∷ zeros 64;
  sig = own_line;
  signature = zeros 64;
  is_pem = refl;
  has_point = refl;
  is_key = refl;
  is_note = note_parses;
  carries = inr (inl refl);
  same_name = refl;
  same_id = refl;
  is_der = refl;
  verified = refl;
}

verify_ecdsa_p256-ok_iff_example : verify_ecdsa_p256 crypto note "name" pem ≡ ok parsed_note
verify_ecdsa_p256-ok_iff_example =
    (verify_ecdsa_p256-ok_iff crypto note "name" pem parsed_note).1 p256_signed
