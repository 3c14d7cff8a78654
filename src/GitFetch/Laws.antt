-- ===== src/GitFetch/Laws.antt =====
-- src/vcs/fetch.rs: what `materialise_tree` writes.
use dep_scan.Prelude.{
  ℕ, zero, suc, ◌≤◌, ◌<◌, String, List, [], ◌∷◌, ◌++◌, ◌≡◌, refl, arith, All, All-append, length,
  length-append, leb, ltb, Bool-cases, inl, inr, subst,
}
use dep_scan.Prelude.Results.{
  Result, ok, and_then, map_err, and_then-eq-ok, map_err-eq-ok, ok-injective, Bytes,
}
use dep_scan.GitFetch.{
  RelPath, FetchError, given, unsafe_name, MaterialiseCaps, FetchedFileOwned, MaterialiseState,
  TreeEntry, EntryKind, tree, blob, blob_executable, link, commit, Repository, FileSystem,
  saturating_add, max_tree_depth, u64_max, validate_component,
}
use dep_scan.GitFetch.Safe.{
  SafeName, validate_component-ok_iff, content_bytes, content_bytes-append,
}
use dep_scan.GitFetch.Materialise.{
  write_materialised_file, push_diagnostic, charge, write_blob, enter_entry, materialise_blob,
  visit_blob, visit_entry, entries_loop, materialise_tree, materialise,
}

module _ {Tree Oid Object Disk FullPath : Type 0} (repo : Repository Tree Oid Object)
    (fs : FileSystem Disk FullPath) (root : FullPath) (caps : MaterialiseCaps) where
  -- The size in the header of a blob is the length of its content.
  abbrev pub HeaderAgrees : Type 0
  HeaderAgrees =
      (oid : Oid) (size : ℕ) (object : Object)
      → repo.find_header oid ≡ ok size
      → repo.find_object oid ≡ ok object
      → length (repo.detach object) ≡ size

  abbrev pub SafeFile : FetchedFileOwned → Type 0
  SafeFile f = All SafeName f.path × (length f.content ≤ caps.max_blob_bytes)

  abbrev pub Within : MaterialiseState Disk → Type 0
  Within s =
      All SafeFile s.files
      × (s.total_files ≡ length s.files)
      × (length s.files ≤ caps.max_total_files)
      × (s.total_bytes ≡ content_bytes s.files)
      × (content_bytes s.files ≤ caps.max_total_bytes)

  -- A walk of a subtree that leaves the state within the caps.
  abbrev Keeps :
      (Tree → RelPath → MaterialiseState Disk → Result (MaterialiseState Disk) FetchError) → Type 0
  Keeps recurse =
      (r : Tree) (path : RelPath) (s t : MaterialiseState Disk)
      → All SafeName path
      → Within s
      → recurse r path s ≡ ok t
      → Within t

  module _ (agrees : HeaderAgrees) (below : caps.max_total_bytes < u64_max) where
    charge-Within :
        (path : RelPath) (content : Bytes) (s : MaterialiseState Disk) (disk : Disk)
        → All SafeName path
        → Within s
        → length content ≤ caps.max_blob_bytes
        → length s.files < caps.max_total_files
        → saturating_add s.total_bytes (length content) ≤ caps.max_total_bytes
        → Within (charge repo fs root caps path content s disk)
    unfolding charge
    charge-Within path content s disk safe (good, counted, few, summed, small) fits room within =
        let one : List FetchedFileOwned = record { path = path; content = content } ∷ [] in
        let longer = length-append s.files one in
        let more = content_bytes-append s.files one in
        (
          All-append SafeFile s.files one good ((safe, fits), tt),
          omega (arith, longer, counted),
          omega (arith, longer, room),
          omega (arith, more, summed, within, below),
          omega (arith, more, summed, within, below),
        )

    write_blob-Within :
        (path : RelPath) (s t : MaterialiseState Disk) (object : Object)
        → All SafeName path
        → Within s
        → length (repo.detach object) ≤ caps.max_blob_bytes
        → length s.files < caps.max_total_files
        → saturating_add s.total_bytes (length (repo.detach object)) ≤ caps.max_total_bytes
        → write_blob repo fs root caps path s object ≡ ok t
        → Within t
    unfolding write_blob
    write_blob-Within path s t object safe w fits room within h =
        let content = repo.detach object in
        let (disk, e, same) =
          and_then-eq-ok (write_materialised_file fs root path content s.disk)
            (λ disk. ok (charge repo fs root caps path content s disk)) h in
        subst Within (ok-injective same) (charge-Within path content s disk safe w fits room within)

    materialise_blob-Within :
        (path : RelPath) (oid : Oid) (s t : MaterialiseState Disk) (size : ℕ)
        → repo.find_header oid ≡ ok size
        → All SafeName path
        → Within s
        → materialise_blob repo fs root caps path oid s size ≡ ok t
        → Within t
    unfolding materialise_blob push_diagnostic
    materialise_blob-Within path oid s t size header safe w h =
        elim (Bool-cases (ltb caps.max_blob_bytes size)) [
          | inl large ↦ let skipped = rw large at h in subst Within (ok-injective skipped) w
          | inr fits ↦ elim (Bool-cases (leb caps.max_total_files s.total_files)) [
            | inl full ↦ let refused = rw (fits, full) at h in absurd (cc)
            | inr room ↦
                elim (Bool-cases (ltb caps.max_total_bytes (saturating_add s.total_bytes size))) [
                  | inl over ↦ let refused = rw (fits, room, over) at h in absurd (cc)
                  | inr within ↦
                      let after : and_then (map_err given (repo.find_object oid))
                            (write_blob repo fs root caps path s)
                          ≡ ok t =
                        rw (fits, room, within) at h in
                      let (object, e, written) =
                        and_then-eq-ok (map_err given (repo.find_object oid))
                          (write_blob repo fs root caps path s) after in
                      let same = agrees oid size object header (map_err-eq-ok _ _ e) in
                      write_blob-Within path s t object safe w (ground (arith, same, fits))
                        (ground (arith, room, w.1)) (rw same (ground (arith, within))) written
                ]
          ]
        ]

    visit_blob-Within :
        (path : RelPath) (oid : Oid) (s t : MaterialiseState Disk)
        → All SafeName path
        → Within s
        → visit_blob repo fs root caps path oid s ≡ ok t
        → Within t
    unfolding visit_blob
    visit_blob-Within path oid s t safe w h =
        let (size, e, after) =
          and_then-eq-ok (map_err given (repo.find_header oid))
            (materialise_blob repo fs root caps path oid s) h in
        materialise_blob-Within path oid s t size (map_err-eq-ok _ _ e) safe w after

    visit_entry-Within :
        (recurse : Tree
          → RelPath
          → MaterialiseState Disk
          → Result (MaterialiseState Disk) FetchError)
        → Keeps recurse
        → (path : RelPath) (kind : EntryKind) (oid : Oid) (s t : MaterialiseState Disk)
        → All SafeName path
        → Within s
        → visit_entry repo fs root caps recurse path kind oid s ≡ ok t
        → Within t
    unfolding visit_entry push_diagnostic
    visit_entry-Within recurse keeps path tree oid s t safe w h =
        let (object, e, after) =
          and_then-eq-ok (map_err given (repo.find_object oid))
            (λ object.
              and_then (map_err given (repo.peel_to_tree object))
                (λ subtree. recurse subtree path s))
            h in
        let (subtree, f, call) =
          and_then-eq-ok (map_err given (repo.peel_to_tree object))
            (λ subtree. recurse subtree path s) after in
        keeps subtree path s t safe w call
    visit_entry-Within recurse keeps path blob oid s t safe w h =
        visit_blob-Within path oid s t safe w h
    visit_entry-Within recurse keeps path blob_executable oid s t safe w h =
        visit_blob-Within path oid s t safe w h
    visit_entry-Within recurse keeps path link oid s t safe w h = subst Within (ok-injective h) w
    visit_entry-Within recurse keeps path commit oid s t safe w h = subst Within (ok-injective h) w

    enter_entry-Within :
        (recurse : Tree
          → RelPath
          → MaterialiseState Disk
          → Result (MaterialiseState Disk) FetchError)
        → Keeps recurse
        → (prefix : RelPath) (entry : TreeEntry Oid) (s t : MaterialiseState Disk)
        → All SafeName prefix
        → Within s
        → enter_entry repo fs root caps recurse prefix s entry ≡ ok t
        → Within t
    unfolding enter_entry
    enter_entry-Within recurse keeps prefix entry s t safe w h =
        let name = entry.filename in
        let (u, e, after) =
          and_then-eq-ok (map_err (unsafe_name name) (validate_component name))
            (λ _.
              visit_entry repo fs root caps recurse (prefix ++ name ∷ []) entry.kind entry.oid s)
            h in
        let accepted = (validate_component-ok_iff name).0 (map_err-eq-ok _ _ e) in
        visit_entry-Within recurse keeps (prefix ++ name ∷ []) entry.kind entry.oid s t
          (All-append SafeName prefix (name ∷ []) safe (accepted, tt)) w after

    entries_loop-Within :
        (recurse : Tree
          → RelPath
          → MaterialiseState Disk
          → Result (MaterialiseState Disk) FetchError)
        → Keeps recurse
        → (prefix : RelPath) (entries : List (Result (TreeEntry Oid) String))
          (s t : MaterialiseState Disk)
        → All SafeName prefix
        → Within s
        → entries_loop repo fs root caps recurse prefix entries s ≡ ok t
        → Within t
    unfolding entries_loop
    entries_loop-Within recurse keeps prefix [] s t safe w h = subst Within (ok-injective h) w
    entries_loop-Within recurse keeps prefix (e ∷ rest) s t safe w h =
        let step = enter_entry repo fs root caps recurse prefix s in
        let (next, entered, after) =
          and_then-eq-ok (and_then (map_err given e) step)
            (entries_loop repo fs root caps recurse prefix rest) h in
        let (entry, read, visited) = and_then-eq-ok (map_err given e) step entered in
        entries_loop-Within recurse keeps prefix rest next t safe
          (enter_entry-Within recurse keeps prefix entry s next safe w visited) after

    materialise_tree-Within : (levels : ℕ) → Keeps (materialise_tree repo fs root caps levels)
    unfolding materialise_tree
    materialise_tree-Within zero r path s t safe w h = absurd (cc)
    materialise_tree-Within (suc levels) r path s t safe w h =
        entries_loop-Within (materialise_tree repo fs root caps levels)
          (materialise_tree-Within levels) path (repo.iter r) s t safe w h

    -- If the size in the header of a blob is the length of its content and the cap on all bytes is
    -- below the largest 64-bit number, then in a tree that is written out every file has a path of
    -- names that are no directory themselves and hold no separator, no NUL and no drive, no file is
    -- larger than the cap on a blob, and the files are no more in number and in bytes than the caps
    -- on a tree, which the totals of the walk count exactly.
    pub materialise-Within :
        (r : Tree) (disk : Disk) (t : MaterialiseState Disk)
        → materialise repo fs root caps r disk ≡ ok t
        → Within t
    unfolding materialise
    materialise-Within r disk t h =
        materialise_tree-Within max_tree_depth r [] _ t tt
          (tt, refl, omega arith, refl, omega arith) h
