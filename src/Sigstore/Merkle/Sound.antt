-- ===== src/Sigstore/Merkle/Sound.antt =====
-- src/sigstore_verify.rs: `verify_merkle_path` against the tree, and collisions of its hash.
use dep_scan.Prelude.{
  ℕ, zero, suc, ◌/◌, ◌%◌, ◌-◌, ◌≤◌, List, [], ◌∷◌, some, ◌≡◌, ◌≢◌, refl, arith, length, ◌⊎◌, inl,
  inr, ◌∙◌, sym, ℕ_discrete, ap, ◌++◌, All,
}
use dep_scan.Prelude.Results.{ok, Bytes, bytes_eq_iff, get_elem?, Result-cases}
use dep_scan.Sigstore.Merkle.{path_loop, verify_merkle_path, rfc6962_internal_hash}
use dep_scan.Sigstore.Merkle.Loop.{path_loop-promoted, path_loop-right, path_loop-left}
use dep_scan.Sigstore.Merkle.Collision.{Collision, Collision-above, Collision-row, node-cases}
use dep_scan.Sigstore.Merkle.Pairs.{
  IsHash, row_pairs, row_pairs-right, row_pairs-left, All-get, tree_pairs, All-next_level,
  path_pairs, path_pairs-promoted, path_pairs-right, path_pairs-left,
}
use dep_scan.Sigstore.Merkle.Layers.{
  next_level, root_of, length-next_level, right_parent, left_parent, last_parent,
}

-- A position within its level: a right child, a left child with a sibling, or the last one alone.
pub position-cases :
    (fan sn : ℕ) → (fan % 2 ≡ 1) ⊎ (((fan % 2 ≡ 0) × (fan ≢ sn)) ⊎ ((fan % 2 ≡ 0) × (fan ≡ sn)))
position-cases fan sn = elim (ℕ_discrete (fan % 2) 0) [
  | no odd ↦ inl (omega arith)
  | yes even ↦ elim (ℕ_discrete fan sn) [
    | yes last ↦ inr (inr (even, last))
    | no before ↦ inr (inl (even, before))
  ]
]

odd_positive : (n : ℕ) → n % 2 ≡ 1 → n ≢ 0
odd_positive n odd = omega arith

module _ (sha256 : Bytes → Bytes) where
  pub root_of-row :
      (levels : ℕ) (row : List Bytes) (sn : ℕ)
      → length row ≡ suc sn
      → sn ≢ 0
      → root_of sha256 (suc levels) row ≡ root_of sha256 levels (next_level sha256 row)
  unfolding root_of
  root_of-row levels [] sn len more = absurd (ground arith)
  root_of-row levels (a ∷ []) sn len more = absurd (ground arith)
  root_of-row levels (a ∷ b ∷ rest) sn len more = refl

  pub root_of-zero :
      (row : List Bytes) (sn : ℕ) (h : Bytes)
      → length row ≡ suc sn
      → sn ≢ 0
      → root_of sha256 0 row ≢ some h
  unfolding root_of
  root_of-zero [] sn h len more root = ground arith
  root_of-zero (a ∷ []) sn h len more root = ground arith
  root_of-zero (a ∷ b ∷ rest) sn h len more root = ground arith

  pub root_of-one :
      (levels : ℕ) (row : List Bytes) → length row ≡ 1 → root_of sha256 levels row ≡ get_elem? row 0
  unfolding root_of
  root_of-one levels [] len = absurd (ground arith)
  root_of-one levels (a ∷ []) len = refl
  root_of-one levels (a ∷ b ∷ rest) len = absurd (ground arith)

  path_loop-top :
      (fan : ℕ) (r : Bytes) (path : List Bytes) (h : Bytes)
      → path_loop sha256 fan 0 r path ≡ ok h
      → h ≡ r
  unfolding path_loop
  path_loop-top fan r [] h e = ground arith
  path_loop-top fan r (p ∷ path) h e = absurd (ground arith)

  path_loop-short : (fan sn : ℕ) (r h : Bytes) → sn ≢ 0 → path_loop sha256 fan sn r [] ≢ ok h
  unfolding path_loop
  path_loop-short fan sn r h more e = ground arith

  -- What stands in a row at a position, or a collision between the pairs of a tree and of a walk.
  abbrev Stands : List Bytes → ℕ → Bytes → List (Bytes × Bytes) → List (Bytes × Bytes) → Type 0
  Stands row fan r tree walk = (get_elem? row fan ≡ some r) ⊎ Collision sha256 tree walk

  module _ (hash_length : (b : Bytes) → IsHash (sha256 b)) where
    node-IsHash : (a b : Bytes) → IsHash (rfc6962_internal_hash sha256 a b)
    unfolding rfc6962_internal_hash
    node-IsHash a b = hash_length _

    -- One level: what holds of the position above holds of the position.
    level_sound :
        (row : List Bytes) (sn fan : ℕ) (r : Bytes) (path : List Bytes) (h : Bytes)
        (tree : List (Bytes × Bytes))
        → length row ≡ suc sn
        → fan ≤ sn
        → sn ≢ 0
        → All IsHash row
        → IsHash r
        → All IsHash path
        → path_loop sha256 fan sn r path ≡ ok h
        → ((r' : Bytes) (path' : List Bytes)
            → IsHash r'
            → All IsHash path'
            → path_loop sha256 (fan / 2) (sn / 2) r' path' ≡ ok h
            → Stands
                (next_level sha256 row)
                (fan / 2)
                r'
                tree
                (path_pairs sha256 (fan / 2) (sn / 2) r' path'))
        → Stands row fan r (row_pairs row ++ tree) (path_pairs sha256 fan sn r path)
    level_sound row sn fan r [] h tree len within more sized r_sized p_sized run above =
        absurd (path_loop-short fan sn r h more run)
    level_sound row sn fan r (p ∷ path) h tree len within more sized r_sized p_sized run above =
        elim (position-cases fan sn) [
          | inl right ↦
              let (a, b, at_sibling, at_fan, parent) =
                right_parent sha256 row fan right (omega arith) in
              let next = rfc6962_internal_hash sha256 p r in
              let walk = path_pairs sha256 (fan / 2) (sn / 2) next path in
              let seen =
                above next path (node-IsHash p r) p_sized.1
                  (sym (path_loop-right sha256 fan sn r p path right more) ∙ run) in
              rw (path_pairs-right sha256 fan sn r p path right) (elim seen [
                | inr collision ↦
                    inr (Collision-above sha256 (row_pairs row) tree walk (p, r) collision)
                | inl found ↦
                    elim (node-cases sha256 (row_pairs row) tree walk a b p r
                      (row_pairs-right row fan a b right at_sibling at_fan)
                      (All-get IsHash row (fan - 1) a sized at_sibling ∙ sym (p_sized.0)) (cc)) [
                        | inl (left, same) ↦ inl (at_fan ∙ ap some same)
                        | inr collision ↦ inr collision
                      ]
              ])
          | inr (inl (even, before)) ↦
              let (a, b, at_fan, at_sibling, parent) =
                left_parent sha256 row fan even (omega arith) in
              let next = rfc6962_internal_hash sha256 r p in
              let walk = path_pairs sha256 (fan / 2) (sn / 2) next path in
              let seen =
                above next path (node-IsHash r p) p_sized.1
                  (sym (path_loop-left sha256 fan sn r p path even before more) ∙ run) in
              rw (path_pairs-left sha256 fan sn r p path even before) (elim seen [
                | inr collision ↦
                    inr (Collision-above sha256 (row_pairs row) tree walk (r, p) collision)
                | inl found ↦
                    elim (node-cases sha256 (row_pairs row) tree walk a b r p
                      (row_pairs-left row fan a b even at_fan at_sibling)
                      (All-get IsHash row fan a sized at_fan ∙ sym r_sized) (cc)) [
                        | inl (same, sibling) ↦ inl (at_fan ∙ ap some same)
                        | inr collision ↦ inr collision
                      ]
              ])
          | inr (inr (even, last)) ↦
              let nonzero : fan ≢ 0 = λ z. more (sym last ∙ z) in
              let same : path_loop sha256 fan sn r (p ∷ path)
                  ≡ path_loop sha256 (fan / 2) (sn / 2) r (p ∷ path) =
                rw (sym last) (path_loop-promoted sha256 fan r (p ∷ path) even nonzero) in
              let walks : path_pairs sha256 fan sn r (p ∷ path)
                  ≡ path_pairs sha256 (fan / 2) (sn / 2) r (p ∷ path) =
                rw (sym last) (path_pairs-promoted sha256 fan r (p ∷ path) even nonzero) in
              rw walks (elim (above r (p ∷ path) r_sized p_sized (sym same ∙ run)) [
                | inr collision ↦ inr (Collision-row sha256 (row_pairs row) tree _ collision)
                | inl found ↦ inl (sym (last_parent sha256 row fan even (omega arith)) ∙ found)
              ])
        ]

    -- What the loop accepts against the root stands in the row, or there is a collision.
    path_loop_sound :
        (levels : ℕ) (row : List Bytes) (sn fan : ℕ) (r : Bytes) (path : List Bytes) (h : Bytes)
        → length row ≡ suc sn
        → fan ≤ sn
        → All IsHash row
        → IsHash r
        → All IsHash path
        → path_loop sha256 fan sn r path ≡ ok h
        → root_of sha256 levels row ≡ some h
        → Stands row fan r (tree_pairs sha256 levels row) (path_pairs sha256 fan sn r path)
    unfolding tree_pairs
    path_loop_sound levels row zero fan r path h len within sized r_sized p_sized run root =
        let first : fan ≡ 0 = omega arith in
        let same : h ≡ r = path_loop-top fan r path h run in
        inl (rw (first, sym same) (sym (root_of-one levels row len) ∙ root))
    path_loop_sound zero row (suc sn) fan r path h len within sized r_sized p_sized run root =
        absurd (root_of-zero row (suc sn) h len (omega arith) root)
    path_loop_sound (suc levels) row (suc sn) fan r path h len within sized r_sized p_sized run
          root =
        level_sound row (suc sn) fan r path h (tree_pairs sha256 levels (next_level sha256 row)) len
          within (omega arith) sized r_sized p_sized run
          (λ r' path' r_sized' p_sized' run'.
            path_loop_sound levels (next_level sha256 row) (suc sn / 2) (fan / 2) r' path' h
              (omega (arith, length-next_level sha256 row)) (omega arith)
              (All-next_level sha256 hash_length row sized) r_sized' p_sized' run'
              (sym (root_of-row levels row (suc sn) len (omega arith)) ∙ root))

    -- Where hashes have 32 bytes: a proof that is accepted against the root of a tree's row of leaf
    -- hashes, with that row's length as the tree size, has its leaf at its index in the row, or else
    -- one of the pairs of nodes in that tree and one of the pairs that this walk hashed give SHA-256
    -- different bytes with the same hash.
    pub verify_merkle_path_sound :
        (row : List Bytes) (root : Bytes) (leaf_index : ℕ) (leaf_hash : Bytes) (path : List Bytes)
        → All IsHash row
        → IsHash leaf_hash
        → All IsHash path
        → root_of sha256 (length row) row ≡ some root
        → verify_merkle_path sha256 leaf_index (length row) leaf_hash path root ≡ ok tt
        → (get_elem? row leaf_index ≡ some leaf_hash)
          ⊎ Collision sha256
              (tree_pairs sha256 (length row) row)
              (path_pairs sha256 leaf_index (length row - 1) leaf_hash path)
    unfolding verify_merkle_path
    verify_merkle_path_sound row root leaf_index leaf_hash path sized l_sized p_sized is_root
          accepted =
        elim (Result-cases (path_loop sha256 leaf_index (length row - 1) leaf_hash path)) [
          | inr (e, refused) ↦ absurd (ground arith)
          | inl (h, run) ↦
              let same : h ≡ root = ground (arith, bytes_eq_iff h root) in
              path_loop_sound (length row) row (length row - 1) leaf_index leaf_hash path h
                (ground arith) (ground arith) sized l_sized p_sized run
                (is_root ∙ ap some (sym same))
        ]
