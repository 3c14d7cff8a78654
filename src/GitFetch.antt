-- ===== src/GitFetch.antt =====
-- src/vcs/fetch.rs: the tree of a fetched repository, written out under a root directory within
-- caps. gix and the file system are given. A relative path is the list of the names that were joined
-- to it; an error is named by the statement that returns it, without its wording.
pub mod Materialise
mod Safe
mod Laws
mod Examples
use Prim.Native.String
use dep_scan.Prelude.{
  ℕ, zero, suc, ◌+◌, min, String, List, [], ◌∷◌, ◌++◌, Option, none, some, true, false, Bool, ◌&&◌,
  ◌||◌, not, ◌==◌, leb, ltb, str_eq, if◌then◌else◌, length, any,
}
use dep_scan.Prelude.Results.{Result, ok, err, and_then, map_err, Bytes}
use dep_scan.Prelude.Text.{contains_char, is_empty_text, has_prefix, join}
use dep_scan.Prelude.Lines.{as_bytes}

abbrev pub RelPath : Type 0
RelPath = List String

pub data NameError : Type 0 where
  empty_name : NameError
  traversal : NameError
  separator : NameError
  nul : NameError
  absolute_name : NameError

pub data FetchError : Type 0 where
  given : String → FetchError
  unsafe_name : String → NameError → FetchError
  too_deep : RelPath → FetchError
  too_many_files : RelPath → FetchError
  too_many_bytes : RelPath → FetchError
  absolute_path : RelPath → FetchError
  unsafe_component : RelPath → FetchError
  outside_root : RelPath → FetchError

pub data FetchDiagnostic : Type 0 where
  symlink_not_followed : String → FetchDiagnostic
  submodule_not_recursed : String → FetchDiagnostic
  -- path, size and cap
  blob_too_large : String → ℕ → ℕ → FetchDiagnostic

pub record MaterialiseCaps : Type 0 where
  pub max_blob_bytes : ℕ
  pub max_total_bytes : ℕ
  pub max_total_files : ℕ

pub record FetchedFileOwned : Type 0 where
  pub path : RelPath
  pub content : Bytes

-- `MaterialiseState`, with the two lists and the disk that are passed beside it.
pub record MaterialiseState (Disk : Type 0) : Type 0 where
  pub total_bytes : ℕ
  pub total_files : ℕ
  pub files : List FetchedFileOwned
  pub diagnostics : List FetchDiagnostic
  pub disk : Disk

pub data EntryKind : Type 0 where
  tree blob blob_executable link commit : EntryKind

pub record TreeEntry (Oid : Type 0) : Type 0 where
  pub filename : String
  pub kind : EntryKind
  pub oid : Oid

-- What the code uses of `gix`.
pub record Repository (Tree Oid Object : Type 0) : Type 0 where
  pub iter : Tree → List (Result (TreeEntry Oid) String)
  pub find_header : Oid → Result ℕ String
  pub find_object : Oid → Result Object String
  pub peel_to_tree : Object → Result Tree String
  pub detach : Object → Bytes

-- What the code uses of `std::fs` and of full paths.
pub record FileSystem (Disk FullPath : Type 0) : Type 0 where
  pub join : FullPath → RelPath → FullPath
  pub parent : FullPath → Option FullPath
  pub create_dir_all : FullPath → Disk → Result Disk String
  pub canonicalize : Disk → FullPath → Result FullPath String
  pub starts_with : FullPath → FullPath → Bool
  pub write : FullPath → Bytes → Disk → Result Disk String

abbrev pub u64_max : ℕ
u64_max = 18446744073709551615

abbrev pub saturating_add : ℕ → ℕ → ℕ
saturating_add a b = min (a + b) u64_max

abbrev pub max_tree_depth : ℕ
max_tree_depth = 100

abbrev pub is_ascii_alphabetic : ℕ → Bool
is_ascii_alphabetic c = (leb b'A' c && leb c b'Z') || (leb b'a' c && leb c b'z')

abbrev drive_bytes : Bytes → Bool
drive_bytes [] = false
drive_bytes (a ∷ []) = false
drive_bytes (a ∷ b ∷ rest) = is_ascii_alphabetic a && b == b':'

unfoldable pub is_windows_drive_prefix : String → Bool
unfolding as_bytes
is_windows_drive_prefix s = drive_bytes (as_bytes s)

unfoldable pub validate_component : String → Result Unit NameError
validate_component name =
    if is_empty_text name
    then err empty_name
    else if str_eq name "." || str_eq name ".."
    then err traversal
    else if contains_char b'/' name || contains_char b'\\' name
    then err separator
    else if contains_char 0 name
    then err nul
    else if is_windows_drive_prefix name
    then err absolute_name
    else ok tt

-- `rel_path.is_absolute()`, and whether a name is a component other than `Component::Normal`.
unfoldable pub is_absolute : RelPath → Bool
unfolding has_prefix
is_absolute [] = false
is_absolute (name ∷ rest) = has_prefix "/" name

unfoldable pub is_other_component : String → Bool
is_other_component name = is_empty_text name || str_eq name "." || str_eq name ".."
