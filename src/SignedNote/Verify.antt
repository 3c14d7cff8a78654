-- ===== src/SignedNote/Verify.antt =====
-- src/signed_note.rs: the two verifiers. The signature schemes are given.
use dep_scan.Prelude.{
  ℕ, [], ◌∷◌, ◌++◌, Option, none, some, if◌then◌else◌, String, Bool, false, not, ◌||◌, ◌==◌, ltb,
  length, take, drop, any, str_eq, ◌-◌, ◌/◌, ◌%◌,
}
use dep_scan.Prelude.Results.{Result, ok, err, Bytes, bytes_eq, is_ok}
use dep_scan.Prelude.Text.{◌+++◌, split_once, show}
use dep_scan.Prelude.Lines.{split_at_text, filter_chars, is_whitespace, as_bytes}
use dep_scan.SignedNote.{NoteVerifyOutcome, valid, invalid, NoteSignature, ParsedNote, parse}

-- What the verifiers call: hashing, decoding, the keys of each scheme, and their checks.
pub record NoteCrypto (Ed25519Key P256Key P256Signature : Type 0) : Type 0 where
  pub sha256 : Bytes → Bytes
  pub base64_decode : String → Result Bytes String
  pub ed25519_key : Bytes → Result Ed25519Key String
  pub ed25519_verify : Ed25519Key → Bytes → Bytes → Bool
  pub p256_key : Bytes → Result P256Key String
  pub p256_from_der : Bytes → Result P256Signature String
  pub p256_verify : P256Key → Bytes → P256Signature → Result Unit String

abbrev hex_digit : ℕ → String
hex_digit d =
    if ltb d 10
    then show d
    else if d == 10
    then "a"
    else if d == 11
    then "b"
    else if d == 12
    then "c"
    else if d == 13
    then "d"
    else if d == 14
    then "e"
    else "f"

-- `{:02x}` of a byte.
abbrev pub hex_byte : ℕ → String
hex_byte b = hex_digit (b / 16) +++ hex_digit (b % 16)

abbrev pub first_or_zero : Bytes → ℕ
first_or_zero [] = 0
first_or_zero (b ∷ bs) = b

-- `splitn(3, '+')`, when it gives three parts.
abbrev pub key_fields : String → Option (String × String × String)
key_fields key_str = elim (split_once b'+' key_str) [
  | none ↦ none
  | some (name, rest) ↦ elim (split_once b'+' rest) [
    | none ↦ none
    | some (id, key) ↦ some (name, id, key)
  ]
]

unfoldable pub pem_to_spki_der : (String → Result Bytes String) → String → Result Bytes String
pem_to_spki_der base64_decode pem = elim (split_at_text "-----BEGIN PUBLIC KEY-----" pem) [
  | none ↦ err "PEM missing BEGIN PUBLIC KEY marker"
  | some (before, body) ↦ elim (split_at_text "-----END PUBLIC KEY-----" body) [
    | none ↦ err "PEM missing END PUBLIC KEY marker"
    | some (b64, after) ↦ elim (base64_decode (filter_chars (λ c. not (is_whitespace c)) b64)) [
      | err e ↦ err ("PEM base64 decode failed: " +++ e)
      | ok der ↦ ok der
    ]
  ]
]

unfoldable pub extract_ec_point_p256 : Bytes → Option Bytes
extract_ec_point_p256 spki_der =
    let tail = drop (length spki_der - 65) spki_der in
    if ltb (length spki_der) 65 then none else if first_or_zero tail == 4 then some tail else none

module _ {Ed25519Key P256Key P256Signature : Type 0}
    (crypto : NoteCrypto Ed25519Key P256Key P256Signature) where
  unfoldable pub ed25519_key_id : String → Bytes → Bytes
  ed25519_key_id key_name key_bytes =
      take 4 (crypto.sha256 (as_bytes key_name ++ b'\n' ∷ key_bytes))

  -- The body of the loop over the signatures: whether this one ends it.
  unfoldable pub ed25519_line : String → Bytes → Ed25519Key → String → NoteSignature → Bool
  ed25519_line key_name expected_key_id key note_text sig =
      if not (str_eq sig.key_name key_name)
      then false
      else if not (bytes_eq sig.key_id expected_key_id)
      then false
      else if not (length sig.sig_bytes == 64)
      then false
      else crypto.ed25519_verify key (as_bytes note_text) sig.sig_bytes

  unfoldable pub verify_ed25519 : String → String → NoteVerifyOutcome
  unfolding ed25519_line
  verify_ed25519 signed_note key_str = elim (key_fields key_str) [
    | none ↦ invalid ("malformed key string: expected 3 '+'-separated fields, got " +++ key_str)
    | some (key_name, id, key_b64) ↦ elim (crypto.base64_decode key_b64) [
      | err e ↦ invalid ("failed to decode public key base64: " +++ e)
      | ok key_bytes ↦
          if not (length key_bytes == 33) || not (first_or_zero key_bytes == 1)
          then invalid (
              "public key has unexpected format (expected 33 bytes with 0x01 prefix, got "
              +++ show (length key_bytes)
              +++ " bytes with prefix 0x"
              +++ hex_byte (first_or_zero key_bytes)
              +++ ")")
          else (elim (crypto.ed25519_key (drop 1 key_bytes)) [
            | err e ↦ invalid ("invalid Ed25519 public key: " +++ e)
            | ok key ↦ elim (parse crypto.base64_decode signed_note) [
              | err e ↦ invalid e
              | ok parsed ↦
                  if any
                    (ed25519_line key_name (ed25519_key_id key_name key_bytes) key parsed.note_text)
                    parsed.signatures
                  then valid
                  else invalid ("no signature line found for key '" +++ key_name +++ "'")
            ]
          ])
    ]
  ]

  unfoldable pub p256_line : String → Bytes → P256Key → String → NoteSignature → Bool
  p256_line key_name expected_key_id key note_text sig =
      if not (str_eq sig.key_name key_name)
      then false
      else if not (bytes_eq sig.key_id expected_key_id)
      then false
      else (elim (crypto.p256_from_der sig.sig_bytes) [
        | err e ↦ false
        | ok signature ↦ is_ok (crypto.p256_verify key (as_bytes note_text) signature)
      ])

  unfoldable pub verify_ecdsa_p256 : String → String → String → Result ParsedNote NoteVerifyOutcome
  unfolding p256_line
  verify_ecdsa_p256 signed_note expected_key_name pem_pubkey =
      elim (pem_to_spki_der crypto.base64_decode pem_pubkey) [
        | err e ↦ err (invalid e)
        | ok spki_der ↦ elim (extract_ec_point_p256 spki_der) [
          | none ↦
              err (invalid "PEM key did not look like a P-256 SPKI (no uncompressed point found)")
          | some ec_point ↦ elim (crypto.p256_key ec_point) [
            | err e ↦ err (invalid ("invalid P-256 public key: " +++ e))
            | ok key ↦ elim (parse crypto.base64_decode signed_note) [
              | err e ↦ err (invalid e)
              | ok parsed ↦
                  if any
                    (p256_line expected_key_name (take 4 (crypto.sha256 spki_der)) key
                      parsed.note_text)
                    parsed.signatures
                  then ok parsed
                  else err
                      (invalid ("no signature line found for key '" +++ expected_key_name +++ "'"))
            ]
          ]
        ]
      ]
