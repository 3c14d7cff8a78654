-- ===== src/Sigstore/Merkle/Complete.antt =====
-- src/sigstore_verify.rs: audit paths, as the siblings of a leaf and of the nodes above it.
use dep_scan.Prelude.{
  ℕ, zero, suc, ◌/◌, ◌%◌, ◌+◌, ◌-◌, ◌≤◌, ◌<◌, List, [], ◌∷◌, none, some, ◌≡◌, refl, arith, length,
  if◌then◌else◌, ◌==◌, inl, inr, ◌∙◌, sym, ap,
}
use dep_scan.Prelude.Results.{ok, Bytes, bytes_eq_iff, get_elem?}
use dep_scan.Sigstore.Merkle.{path_loop, verify_merkle_path, rfc6962_internal_hash}
use dep_scan.Sigstore.Merkle.Loop.{
  path_loop-promoted, path_loop-right, path_loop-left, path_loop-done,
}
use dep_scan.Sigstore.Merkle.Layers.{
  next_level, root_of, length-next_level, get_within, right_parent, left_parent, last_parent,
}
use dep_scan.Sigstore.Merkle.Sound.{position-cases, root_of-row, root_of-one, root_of-zero}

abbrev pub sibling : ℕ → ℕ
sibling fan = if fan % 2 == 0 then fan + 1 else fan - 1

sibling-right : (fan : ℕ) → fan % 2 ≡ 1 → sibling fan ≡ fan - 1
sibling-right fan odd = ground arith

sibling-left : (fan : ℕ) → fan % 2 ≡ 0 → sibling fan ≡ suc fan
sibling-left fan even = ground arith

get_beyond : (row : List Bytes) (i : ℕ) → length row ≤ i → get_elem? row i ≡ none
get_beyond [] i h = refl
get_beyond (x ∷ row) zero h = absurd (omega arith)
get_beyond (x ∷ row) (suc i) h = get_beyond row i (omega arith)

index_within :
    {A : Type 0} (row : List A) (i : ℕ) (a : A) → get_elem? row i ≡ some a → i < length row
index_within [] i a h = absurd (ground arith)
index_within (x ∷ row) zero a h = omega arith
index_within (x ∷ row) (suc i) a h = omega (arith, index_within row i a h)

module _ (sha256 : Bytes → Bytes) where
  -- The siblings on the way from a position to the root.
  unfoldable pub audit_path : ℕ → List Bytes → ℕ → List Bytes
  audit_path zero row fan = []
  audit_path (suc levels) row fan =
      let above = audit_path levels (next_level sha256 row) (fan / 2) in
      elim (get_elem? row (sibling fan)) [ none ↦ above | some p ↦ p ∷ above ]

  abbrev node : Bytes → Bytes → Bytes
  node = rfc6962_internal_hash sha256

  abbrev rest : ℕ → List Bytes → ℕ → List Bytes
  rest levels row fan = audit_path levels (next_level sha256 row) (fan / 2)

  audit_path-some :
      (levels : ℕ) (row : List Bytes) (fan : ℕ) (p : Bytes)
      → get_elem? row (sibling fan) ≡ some p
      → audit_path (suc levels) row fan ≡ p ∷ audit_path levels (next_level sha256 row) (fan / 2)
  unfolding audit_path
  audit_path-some levels row fan p found = rw (found, audit_path) refl

  audit_path-none :
      (levels : ℕ) (row : List Bytes) (fan : ℕ)
      → get_elem? row (sibling fan) ≡ none
      → audit_path (suc levels) row fan ≡ audit_path levels (next_level sha256 row) (fan / 2)
  unfolding audit_path
  audit_path-none levels row fan missing = rw (missing, audit_path) refl

  audit_path-one : (levels : ℕ) (row : List Bytes) → length row ≡ 1 → audit_path levels row 0 ≡ []
  unfolding audit_path
  audit_path-one zero row len = refl
  audit_path-one (suc levels) row len =
      audit_path-none levels row 0 (get_beyond row 1 (omega arith))
      ∙ audit_path-one levels (next_level sha256 row) (omega (arith, length-next_level sha256 row))

  -- As many levels as there are leaves are enough.
  root_of-returns :
      (levels : ℕ) (row : List Bytes) (sn : ℕ)
      → length row ≡ suc sn
      → sn ≤ levels
      → (root : Bytes) × (root_of sha256 levels row ≡ some root)
  root_of-returns levels row zero len enough =
      let (a, found) = get_within row 0 (omega arith) in
      (a, root_of-one sha256 levels row len ∙ found)
  root_of-returns zero row (suc sn) len enough = absurd (omega arith)
  root_of-returns (suc levels) row (suc sn) len enough =
      let (root, e) =
        root_of-returns levels (next_level sha256 row) (suc sn / 2)
          (omega (arith, length-next_level sha256 row)) (omega arith) in
      (root, root_of-row sha256 levels row (suc sn) len (omega arith) ∙ e)

  path_loop-audit_path :
      (levels : ℕ) (row : List Bytes) (sn fan : ℕ) (r root : Bytes)
      → length row ≡ suc sn
      → fan ≤ sn
      → get_elem? row fan ≡ some r
      → root_of sha256 levels row ≡ some root
      → path_loop sha256 fan sn r (audit_path levels row fan) ≡ ok root
  path_loop-audit_path levels row zero fan r root len within found is_root =
      let first : fan ≡ 0 = omega arith in
      let same : get_elem? row 0 ≡ some r = rw (sym first) found in
      let r_root : r ≡ root = ground (arith, root_of-one sha256 levels row len, same, is_root) in
      rw (first, audit_path-one levels row len, sym r_root) (path_loop-done sha256 r)
  path_loop-audit_path zero row (suc sn) fan r root len within found is_root =
      absurd (root_of-zero sha256 row (suc sn) root len (omega arith) is_root)
  path_loop-audit_path (suc levels) row (suc sn) fan r root len within found is_root =
      let above = path_loop-audit_path levels (next_level sha256 row) (suc sn / 2) (fan / 2) in
      let len' : length (next_level sha256 row) ≡ suc (suc sn / 2) =
        omega (arith, length-next_level sha256 row) in
      let is_root' = sym (root_of-row sha256 levels row (suc sn) len (omega arith)) ∙ is_root in
      elim (position-cases fan (suc sn)) [
        | inl right ↦
            let (a, b, at_sibling, at_fan, parent) =
              right_parent sha256 row fan right (omega arith) in
            let same : b ≡ r = cc in
            rw
              (audit_path-some levels row fan a
                (ap (get_elem? row) (sibling-right fan right) ∙ at_sibling))
              (path_loop-right sha256 fan (suc sn) r a (rest levels row fan) right (omega arith)
                ∙ above _ root len' (omega arith) (parent ∙ ap (λ x. some (node a x)) same)
                    is_root')
        | inr (inl (even, before)) ↦
            let (a, b, at_fan, at_sibling, parent) =
              left_parent sha256 row fan even (omega arith) in
            let same : a ≡ r = cc in
            rw
              (audit_path-some levels row fan b
                (ap (get_elem? row) (sibling-left fan even) ∙ at_sibling))
              (path_loop-left sha256 fan (suc sn) r b (rest levels row fan) even before
                  (omega arith)
                ∙ above _ root len' (omega arith) (parent ∙ ap (λ x. some (node x b)) same)
                    is_root')
        | inr (inr (even, last)) ↦
            let missing : get_elem? row (sibling fan) ≡ none =
              ap (get_elem? row) (sibling-left fan even) ∙ get_beyond row (suc fan) (omega arith) in
            rw (audit_path-none levels row fan missing) (
              rw (sym last) (
                path_loop-promoted sha256 fan r (rest levels row fan) even (omega arith)
                ∙ ap (λ m. path_loop sha256 (fan / 2) (m / 2) r (rest levels row fan)) last
                ∙ above r root len' (omega arith)
                    (last_parent sha256 row fan even (omega arith) ∙ found) is_root'))
      ]

  -- The audit path of every leaf of a row is accepted against the row's root, and every row that is
  -- not empty has one.
  pub verify_merkle_path-audit_path :
      (row : List Bytes) (leaf_index : ℕ) (leaf_hash : Bytes)
      → get_elem? row leaf_index ≡ some leaf_hash
      → (root : Bytes) × (root_of sha256 (length row) row ≡ some root)
        × (verify_merkle_path sha256 leaf_index
              (length row)
              leaf_hash
              (audit_path (length row) row leaf_index)
              root
            ≡ ok tt)
  unfolding verify_merkle_path
  verify_merkle_path-audit_path row leaf_index leaf_hash found =
      let within = index_within row leaf_index leaf_hash found in
      let sn = length row - 1 in
      let (root, is_root) = root_of-returns (length row) row sn (omega arith) (omega arith) in
      let run =
        path_loop-audit_path (length row) row sn leaf_index leaf_hash root (omega arith)
          (omega arith) found is_root in
      (root, is_root, ground (arith, run, bytes_eq_iff root root))
