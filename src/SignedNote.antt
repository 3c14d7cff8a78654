-- ===== src/SignedNote.antt =====
-- src/signed_note.rs: signed notes, as the Go checksum database and Rekor publish them. Base64 and
-- SHA-256 are given.
pub mod Verify
pub mod Laws
mod Examples
use dep_scan.Prelude.{
  ℕ, List, [], ◌∷◌, Option, none, some, if◌then◌else◌, String, Bool, true, false, not, ltb, length,
  take, drop,
}
use dep_scan.Prelude.Results.{Result, ok, err, and_then, Bytes}
use dep_scan.Prelude.Text.{◌+++◌, is_empty_text, has_prefix, split_once, join, show}
use dep_scan.Prelude.Lines.{split, trim, drop_chars}

pub data NoteVerifyOutcome : Type 0 where
  valid : NoteVerifyOutcome
  invalid : String → NoteVerifyOutcome

pub record NoteSignature : Type 0 where
  pub key_name : String
  pub key_id : Bytes
  pub sig_bytes : Bytes

pub record ParsedNote : Type 0 where
  pub note_text : String
  pub signatures : List NoteSignature

-- The walk to the first line that starts with an em dash: whether the line before it was blank, the
-- lines before it, and the lines from it on.
unfoldable pub find_signatures : Bool → List String → Option (Bool × List String × List String)
find_signatures prev_was_blank [] = none
find_signatures prev_was_blank (line ∷ lines) =
    let rest = find_signatures (is_empty_text line) lines in
    if has_prefix "—" line
    then some (prev_was_blank, [], line ∷ lines)
    else (elim rest [ none ↦ none | some found ↦ some (found.0, line ∷ found.1, found.2) ])

module _ (base64_decode : String → Result Bytes String) where
  -- The body of the loop over the signature lines, for a trimmed line.
  unfoldable pub parse_signature : String → Result NoteSignature String
  parse_signature line =
      if not (has_prefix "—" line)
      then err ("signature line does not start with em-dash: " +++ line)
      else (elim (split_once b' ' (trim (drop_chars 1 line))) [
        | none ↦ err ("malformed signature line: " +++ line)
        | some (key_name, sig_b64) ↦ elim (base64_decode sig_b64) [
          | err e ↦ err ("signature base64 decode failed: " +++ e)
          | ok raw ↦
              if ltb (length raw) 5
              then err (
                  "signature payload too short ("
                  +++ show (length raw)
                  +++ " bytes; need at least 5 for key-id + signature)")
              else ok (record { key_name = key_name; key_id = take 4 raw; sig_bytes = drop 4 raw })
        ]
      ])

  -- The loop; the lines that are blank once trimmed are passed over, those at the end included.
  unfoldable pub parse_signatures : List String → Result (List NoteSignature) String
  unfolding parse_signature
  parse_signatures [] = ok []
  parse_signatures (line ∷ lines) =
      let rest = parse_signatures lines in
      if is_empty_text (trim line)
      then rest
      else and_then (parse_signature (trim line)) (λ s. and_then rest (λ more. ok (s ∷ more)))

  abbrev with_text : String → List NoteSignature → Result ParsedNote String
  with_text note_text [] = err "signed note has no signature lines"
  with_text note_text (s ∷ signatures) =
      ok (record { note_text = note_text; signatures = s ∷ signatures })

  unfoldable pub parse : String → Result ParsedNote String
  unfolding find_signatures parse_signatures
  parse signed_note = elim (find_signatures false (split b'\n' signed_note)) [
    | none ↦ err "signed note has no signature lines"
    | some (prev_was_blank, before, lines) ↦
        if not prev_was_blank
        then err "signed note missing blank-line separator before signatures"
        else if is_empty_text (join "\n" before)
        then err
            "signed note has empty note_text: at least one byte of text is required before the signature block"
        else and_then (parse_signatures lines) (with_text (join "\n" before))
  ]
