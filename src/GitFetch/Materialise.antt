-- ===== src/GitFetch/Materialise.antt =====
-- src/vcs/fetch.rs: `materialise_tree` and `write_materialised_file`. The recursion counts the levels
-- that are left below the depth limit: the depth of the code is the limit less that number.
use dep_scan.Prelude.{
  ℕ, zero, suc, ◌+◌, String, List, [], ◌∷◌, ◌++◌, none, some, leb, ltb, if◌then◌else◌, length, any,
}
use dep_scan.Prelude.Results.{Result, ok, err, and_then, map_err, Bytes}
use dep_scan.Prelude.Text.{join}
use dep_scan.GitFetch.{
  RelPath, FetchError, given, unsafe_name, too_deep, too_many_files, too_many_bytes, absolute_path,
  unsafe_component, outside_root, FetchDiagnostic, symlink_not_followed, submodule_not_recursed,
  blob_too_large, MaterialiseCaps, MaterialiseState, EntryKind, tree, blob, blob_executable, link,
  commit, TreeEntry, Repository, FileSystem, saturating_add, max_tree_depth, validate_component,
  is_absolute, is_other_component,
}

-- `rel_path.to_string_lossy()`
unfoldable pub path_text : RelPath → String
path_text path = join "/" path

module _ {Disk FullPath : Type 0} (fs : FileSystem Disk FullPath) (root : FullPath) where
  -- The directory of a target is made, and must lie under the root when links are resolved.
  unfoldable pub prepare_parent : RelPath → FullPath → Disk → Result Disk FetchError
  prepare_parent rel_path parent disk =
      and_then (map_err given (fs.create_dir_all parent disk)) (λ made.
        and_then (map_err given (fs.canonicalize made root)) (λ canon_root.
          and_then (map_err given (fs.canonicalize made parent)) (λ canon_parent.
            if fs.starts_with canon_parent canon_root
            then ok made
            else err (outside_root rel_path))))

  unfoldable pub write_materialised_file : RelPath → Bytes → Disk → Result Disk FetchError
  write_materialised_file rel_path content disk =
      if is_absolute rel_path
      then err (absolute_path rel_path)
      else if any is_other_component rel_path
      then err (unsafe_component rel_path)
      else (let target = fs.join root rel_path in
          let prepared : Result Disk FetchError = elim (fs.parent target) [
            | none ↦ ok disk
            | some parent ↦ prepare_parent rel_path parent disk
          ] in
          and_then prepared (λ made. map_err given (fs.write target content made)))

module _ {Tree Oid Object Disk FullPath : Type 0} (repo : Repository Tree Oid Object)
    (fs : FileSystem Disk FullPath) (root : FullPath) (caps : MaterialiseCaps) where
  unfoldable pub push_diagnostic : FetchDiagnostic → MaterialiseState Disk → MaterialiseState Disk
  push_diagnostic d s = record s { diagnostics = s.diagnostics ++ d ∷ [] }

  -- The totals and the list of files after a blob was written.
  unfoldable pub charge : RelPath → Bytes → MaterialiseState Disk → Disk → MaterialiseState Disk
  charge rel_path content s disk = record s {
    total_bytes = saturating_add s.total_bytes (length content);
    total_files = s.total_files + 1;
    files = s.files ++ record { path = rel_path; content = content } ∷ [];
    disk = disk;
  }

  unfoldable pub write_blob :
      RelPath → MaterialiseState Disk → Object → Result (MaterialiseState Disk) FetchError
  write_blob rel_path s object =
      let content = repo.detach object in
      and_then (write_materialised_file fs root rel_path content s.disk)
        (λ disk. ok (charge rel_path content s disk))

  -- A blob whose header gives a size.
  unfoldable pub materialise_blob :
      RelPath → Oid → MaterialiseState Disk → ℕ → Result (MaterialiseState Disk) FetchError
  materialise_blob rel_path oid s size =
      if ltb caps.max_blob_bytes size
      then ok (push_diagnostic (blob_too_large (path_text rel_path) size caps.max_blob_bytes) s)
      else if leb caps.max_total_files s.total_files
      then err (too_many_files rel_path)
      else if ltb caps.max_total_bytes (saturating_add s.total_bytes size)
      then err (too_many_bytes rel_path)
      else and_then (map_err given (repo.find_object oid)) (write_blob rel_path s)

  unfoldable pub visit_blob :
      RelPath → Oid → MaterialiseState Disk → Result (MaterialiseState Disk) FetchError
  visit_blob rel_path oid s =
      and_then (map_err given (repo.find_header oid)) (materialise_blob rel_path oid s)

  -- One entry whose name is accepted; `recurse` is the call on a subtree.
  unfoldable pub visit_entry :
      (Tree → RelPath → MaterialiseState Disk → Result (MaterialiseState Disk) FetchError)
      → RelPath
      → EntryKind
      → Oid
      → MaterialiseState Disk
      → Result (MaterialiseState Disk) FetchError
  visit_entry recurse rel_path kind oid s = elim kind [
    | tree ↦ and_then (map_err given (repo.find_object oid)) (λ object.
        and_then (map_err given (repo.peel_to_tree object)) (λ subtree. recurse subtree rel_path s))
    | blob ↦ visit_blob rel_path oid s
    | blob_executable ↦ visit_blob rel_path oid s
    | link ↦ ok (push_diagnostic (symlink_not_followed (path_text rel_path)) s)
    | commit ↦ ok (push_diagnostic (submodule_not_recursed (path_text rel_path)) s)
  ]

  unfoldable pub enter_entry :
      (Tree → RelPath → MaterialiseState Disk → Result (MaterialiseState Disk) FetchError)
      → RelPath
      → MaterialiseState Disk
      → TreeEntry Oid
      → Result (MaterialiseState Disk) FetchError
  enter_entry recurse rel_prefix s entry =
      and_then (map_err (unsafe_name entry.filename) (validate_component entry.filename))
        (λ _. visit_entry recurse (rel_prefix ++ entry.filename ∷ []) entry.kind entry.oid s)

  unfoldable pub entries_loop :
      (Tree → RelPath → MaterialiseState Disk → Result (MaterialiseState Disk) FetchError)
      → RelPath
      → List (Result (TreeEntry Oid) String)
      → MaterialiseState Disk
      → Result (MaterialiseState Disk) FetchError
  entries_loop recurse rel_prefix [] s = ok s
  entries_loop recurse rel_prefix (e ∷ rest) s =
      and_then (and_then (map_err given e) (enter_entry recurse rel_prefix s))
        (entries_loop recurse rel_prefix rest)

  unfoldable pub materialise_tree :
      ℕ → Tree → RelPath → MaterialiseState Disk → Result (MaterialiseState Disk) FetchError
  materialise_tree zero t rel_prefix s = err (too_deep rel_prefix)
  materialise_tree (suc levels) t rel_prefix s =
      entries_loop (materialise_tree levels) rel_prefix (repo.iter t) s

  -- The walk from the root tree, as `fetch_blocking` starts it.
  unfoldable pub materialise : Tree → Disk → Result (MaterialiseState Disk) FetchError
  materialise t disk =
      materialise_tree max_tree_depth t []
        (record { total_bytes = 0; total_files = 0; files = []; diagnostics = []; disk = disk })
