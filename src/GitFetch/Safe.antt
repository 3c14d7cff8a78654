-- ===== src/GitFetch/Safe.antt =====
-- src/vcs/fetch.rs: the names that `validate_component` accepts, and the bytes in a list of files.
use dep_scan.Prelude.{
  ℕ, ◌+◌, String, List, [], ◌∷◌, ◌++◌, ◌≡◌, ◌≢◌, ◌↔◌, arith, false, length, eq_iff,
}
use dep_scan.Prelude.Results.{ok}
use dep_scan.Prelude.Text.{contains_char, is_empty_text_iff}
use dep_scan.GitFetch.{FetchedFileOwned, validate_component, is_windows_drive_prefix}

-- One name: no directory itself, no separator, no NUL and no drive.
abbrev pub SafeName : String → Type 0
SafeName s =
    (s ≢ "")
    × (s ≢ ".")
    × (s ≢ "..")
    × (contains_char b'/' s ≡ false)
    × (contains_char b'\\' s ≡ false)
    × (contains_char 0 s ≡ false)
    × (is_windows_drive_prefix s ≡ false)

pub validate_component-ok_iff : (s : String) → (validate_component s ≡ ok tt) ↔ SafeName s
unfolding validate_component
validate_component-ok_iff s = ground (arith, is_empty_text_iff s, eq_iff s ".", eq_iff s "..")

abbrev pub content_bytes : List FetchedFileOwned → ℕ
content_bytes [] = 0
content_bytes (f ∷ fs) = length f.content + content_bytes fs

pub content_bytes-append :
    (xs ys : List FetchedFileOwned) → content_bytes (xs ++ ys) ≡ content_bytes xs + content_bytes ys
content_bytes-append [] ys = omega arith
content_bytes-append (x ∷ xs) ys = omega (arith, content_bytes-append xs ys)
