-- ===== src/GitFetch/Examples.antt =====
-- The materialisation of a small tree, with a list of written files for the disk.
use dep_scan.Prelude.{
  ℕ, zero, suc, String, List, [], ◌∷◌, ◌++◌, some, ◌≡◌, refl, arith, Bool, true, false, ◌&&◌,
  str_eq, length, subst,
}
use dep_scan.Prelude.Results.{Result, ok, err, Bytes, ok-injective}
use dep_scan.GitFetch.{
  RelPath, traversal, separator, MaterialiseCaps, MaterialiseState, EntryKind, tree, blob, link,
  TreeEntry, Repository, FileSystem, too_many_files, symlink_not_followed, validate_component,
  is_windows_drive_prefix, is_absolute, is_other_component,
}
use dep_scan.Prelude.Text.{contains_char, has_prefix, join}
use dep_scan.Prelude.Lines.{as_bytes}
use dep_scan.GitFetch.Materialise.{
  materialise, materialise_tree, entries_loop, enter_entry, visit_entry, visit_blob,
  materialise_blob, write_blob, write_materialised_file, prepare_parent, charge, push_diagnostic,
  path_text,
}
use dep_scan.GitFetch.Laws.{Within, materialise-Within}

abbrev Written : Type 0
Written = List (RelPath × Bytes)

abbrev all_but_last : RelPath → RelPath
all_but_last [] = []
all_but_last (n ∷ []) = []
all_but_last (n ∷ m ∷ rest) = n ∷ all_but_last (m ∷ rest)

abbrev lies_under : RelPath → RelPath → Bool
lies_under path [] = true
lies_under [] (m ∷ top) = false
lies_under (n ∷ path) (m ∷ top) = str_eq n m && lies_under path top

abbrev list_disk : FileSystem Written RelPath
list_disk = record {
  join = λ top path. top ++ path;
  parent = λ path. some (all_but_last path);
  create_dir_all = λ path disk. ok disk;
  canonicalize = λ disk path. ok path;
  starts_with = lies_under;
  write = λ path content disk. ok (disk ++ (path, content) ∷ []);
}

abbrev entry : String → EntryKind → ℕ → Result (TreeEntry ℕ) String
entry name kind oid = ok (record { filename = name; kind = kind; oid = oid })

-- Tree 0 holds a directory, a file and a link, every other tree one file.
abbrev entries_of : ℕ → List (Result (TreeEntry ℕ) String)
entries_of zero = entry "src" tree 1 ∷ entry "README" blob 2 ∷ entry "latest" link 3 ∷ []
entries_of (suc n) = entry "main.py" blob 2 ∷ []

abbrev small_repo : Repository ℕ ℕ Bytes
small_repo = record {
  iter = entries_of;
  find_header = λ oid. ok 3;
  find_object = λ oid. ok (7 ∷ 8 ∷ 9 ∷ []);
  peel_to_tree = λ object. ok 1;
  detach = λ object. object;
}

abbrev two_files : MaterialiseCaps
two_files = record { max_blob_bytes = 10; max_total_bytes = 100; max_total_files = 2 }

abbrev one_file : MaterialiseCaps
one_file = record { max_blob_bytes = 10; max_total_bytes = 100; max_total_files = 1 }

abbrev written_tree : MaterialiseState Written
written_tree = record {
  total_bytes = 6;
  total_files = 2;
  files =
      record { path = "src" ∷ "main.py" ∷ []; content = 7 ∷ 8 ∷ 9 ∷ [] }
      ∷ record { path = "README" ∷ []; content = 7 ∷ 8 ∷ 9 ∷ [] }
      ∷ [];
  diagnostics = symlink_not_followed "latest" ∷ [];
  disk =
      ("tmp" ∷ "src" ∷ "main.py" ∷ [], 7 ∷ 8 ∷ 9 ∷ [])
      ∷ ("tmp" ∷ "README" ∷ [], 7 ∷ 8 ∷ 9 ∷ [])
      ∷ [];
}

small_tree : materialise small_repo list_disk ("tmp" ∷ []) two_files 0 [] ≡ ok written_tree
unfolding materialise materialise_tree entries_loop enter_entry validate_component contains_char
    is_windows_drive_prefix visit_entry visit_blob materialise_blob write_blob
    write_materialised_file is_absolute is_other_component prepare_parent charge push_diagnostic
    path_text as_bytes has_prefix join
small_tree = refl

over_the_cap :
    materialise small_repo list_disk ("tmp" ∷ []) one_file 0 []
    ≡ err (too_many_files ("README" ∷ []))
unfolding materialise materialise_tree entries_loop enter_entry validate_component contains_char
    is_windows_drive_prefix visit_entry visit_blob materialise_blob write_blob
    write_materialised_file is_absolute is_other_component prepare_parent charge push_diagnostic
    path_text as_bytes has_prefix join
over_the_cap = refl

parent_name : validate_component ".." ≡ err traversal
unfolding validate_component
parent_name = refl

backslash_name : validate_component "..\\evil" ≡ err separator
unfolding validate_component contains_char
backslash_name = refl

materialise-Within_example : Within small_repo list_disk ("tmp" ∷ []) two_files written_tree
materialise-Within_example =
    materialise-Within small_repo list_disk ("tmp" ∷ []) two_files
      (λ oid size object h k. subst (λ o. length o ≡ size) (ok-injective k) (ok-injective h))
      (omega arith) 0 [] written_tree small_tree
