-- ===== src/PackageNames.antt =====
-- src/validation.rs, src/registry/go.rs and src/main.rs: which package names from the command
-- line are scanned, and how a Go module path becomes part of a URL.
mod Encoding
mod Laws
mod Examples
use Prim.Native.Char.{code}
use Prim.Native.String.{◌∷◌}
use dep_scan.Prelude.{
  ℕ, String, List, Option, none, some, true, false, Bool, ◌||◌, not, ◌==◌, leb, str_eq,
  if◌then◌else◌,
}
use dep_scan.Transitive.Graph.{RegistryType, npm, pypi, crates, go}
use dep_scan.Prelude.Results.{Result, ok, err, and_then}
use dep_scan.Prelude.Text.{has_prefix, is_empty_text}
use dep_scan.Prelude.Lines.{split, trim}

pub data ValidationError : Type 0 where
  flag_like : String → ValidationError
  empty : ValidationError

-- The registry is not looked at.
unfoldable pub validate_package_name : String → RegistryType → Result Unit ValidationError
unfolding trim has_prefix
validate_package_name name _ =
    if is_empty_text (trim name)
    then err empty
    else if has_prefix "-" name
    then err (flag_like name)
    else ok tt

unfoldable pub validate_package_names : List String → RegistryType → Result Unit ValidationError
validate_package_names List.[] registry = ok tt
validate_package_names (List.◌∷◌ name names) registry =
    and_then (validate_package_name name registry) (λ _. validate_package_names names registry)

-- A forbidden character is given by its code point.
pub data GoPathError : Type 0 where
  empty : GoPathError
  leading_slash : GoPathError
  trailing_slash : GoPathError
  dot_dot_segment : GoPathError
  dot_segment : GoPathError
  empty_segment : GoPathError
  forbidden_character : ℕ → GoPathError

unfoldable pub is_special : ℕ → Bool
is_special c =
    c == b'?' || c == b'#' || c == b'%' || c == b' ' || c == b'@' || c == b'\n' || c == b'\r'

-- `s.ends_with(c)`
unfoldable pub ends_with : ℕ → String → Bool
ends_with k String.[] = false
ends_with k (c ∷ s) = let rest = ends_with k s in if is_empty_text s then code c == k else rest

unfoldable pub check_characters : String → Result Unit GoPathError
unfolding is_special
check_characters String.[] = ok tt
check_characters (c ∷ s) =
    let rest = check_characters s in
    if leb 128 (code c)
    then err (forbidden_character (code c))
    else if is_special (code c)
    then err (forbidden_character (code c))
    else rest

unfoldable pub check_segments : List String → Result Unit GoPathError
check_segments List.[] = ok tt
check_segments (List.◌∷◌ segment rest) =
    let later = check_segments rest in
    if is_empty_text segment
    then err empty_segment
    else if str_eq segment ".."
    then err dot_dot_segment
    else if str_eq segment "."
    then err dot_segment
    else later

unfoldable pub validate_go_module_path : String → Result Unit GoPathError
unfolding has_prefix ends_with check_characters check_segments split
validate_go_module_path path =
    if is_empty_text path
    then err empty
    else if has_prefix "/" path
    then err leading_slash
    else if ends_with b'/' path
    then err trailing_slash
    else and_then (check_characters path) (λ _. check_segments (split b'/' path))

unfoldable pub check_go_paths : List String → Option ℕ
check_go_paths List.[] = none
check_go_paths (List.◌∷◌ pkg rest) = elim (validate_go_module_path pkg) [
  | err e ↦ some 2
  | ok _ ↦ check_go_paths rest
]

unfoldable pub is_go : RegistryType → Bool
is_go go = true
is_go npm = false
is_go pypi = false
is_go crates = false

-- The exit code with which `run_check` ends before anything is scanned, if it does.
unfoldable pub check_packages : List String → RegistryType → Option ℕ
check_packages packages registry = elim (validate_package_names packages registry) [
  | err e ↦ some 2
  | ok _ ↦ if is_go registry then check_go_paths packages else none
]
