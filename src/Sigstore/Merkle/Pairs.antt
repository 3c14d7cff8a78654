-- ===== src/Sigstore/Merkle/Pairs.antt =====
-- src/sigstore_verify.rs: the pairs of nodes that are hashed, in a tree and by `verify_merkle_path`.
use dep_scan.Prelude.{
  ℕ, zero, suc, ◌/◌, ◌%◌, ◌-◌, List, [], ◌∷◌, ◌++◌, some, ◌≡◌, ◌≢◌, refl, arith, length, inl, inr,
  if◌then◌else◌, not, ◌==◌, ◌||◌, In, All, sym, subst,
}
use dep_scan.Prelude.Results.{Bytes, get_elem?}
use dep_scan.Sigstore.Merkle.{path_step, rfc6962_internal_hash}
use dep_scan.Sigstore.Merkle.Loop.{path_step-promoted, path_step-right, path_step-left}
use dep_scan.Sigstore.Merkle.Layers.{next_level, double, half_even, half_odd}

-- A hash of the source: `[u8; 32]`.
abbrev pub IsHash : Bytes → Type 0
IsHash b = length b ≡ 32

abbrev pub row_pairs : List Bytes → List (Bytes × Bytes)
row_pairs [] = []
row_pairs (a ∷ []) = []
row_pairs (a ∷ b ∷ rest) = (a, b) ∷ row_pairs rest

row_pairs-at :
    (row : List Bytes) (i : ℕ) (a b : Bytes)
    → get_elem? row (double i) ≡ some a
    → get_elem? row (suc (double i)) ≡ some b
    → In (a, b) (row_pairs row)
row_pairs-at [] i a b h k = absurd (ground arith)
row_pairs-at (x ∷ []) i a b h k = absurd (ground arith)
row_pairs-at (x ∷ y ∷ rest) zero a b h k = inl (cc)
row_pairs-at (x ∷ y ∷ rest) (suc i) a b h k = inr (row_pairs-at rest i a b h k)

-- A right child with its sibling, and a left one.
pub row_pairs-right :
    (row : List Bytes) (fan : ℕ) (a b : Bytes)
    → fan % 2 ≡ 1
    → get_elem? row (fan - 1) ≡ some a
    → get_elem? row fan ≡ some b
    → In (a, b) (row_pairs row)
row_pairs-right row fan a b odd h k =
    let below : fan - 1 ≡ double (fan / 2) = omega (arith, half_odd fan odd) in
    row_pairs-at row (fan / 2) a b (rw (sym below) h) (rw (half_odd fan odd) k)

pub row_pairs-left :
    (row : List Bytes) (fan : ℕ) (a b : Bytes)
    → fan % 2 ≡ 0
    → get_elem? row fan ≡ some a
    → get_elem? row (suc fan) ≡ some b
    → In (a, b) (row_pairs row)
row_pairs-left row fan a b even h k =
    row_pairs-at row (fan / 2) a b (rw (half_even fan even) h) (rw (half_even fan even) k)

pub All-get :
    (P : Bytes → Type 0) (row : List Bytes) (i : ℕ) (a : Bytes)
    → All P row
    → get_elem? row i ≡ some a
    → P a
All-get P [] i a h e = absurd (ground arith)
All-get P (x ∷ row) zero a h e = subst P (ground arith) (h.0)
All-get P (x ∷ row) (suc i) a h e = All-get P row i a h.1 e

-- Lists put together from parts of the same lengths are equal only if their parts are.
pub append-injective :
    (a b p q : Bytes) → length a ≡ length p → (a ++ b) ≡ (p ++ q) → (a ≡ p) × (b ≡ q)
append-injective [] b [] q len e = (refl, e)
append-injective [] b (y ∷ p) q len e = absurd (omega arith)
append-injective (x ∷ a) b [] q len e = absurd (omega arith)
append-injective (x ∷ a) b (y ∷ p) q len e =
    let (same, rest) = append-injective a b p q (omega arith) (cc) in
    let first : x ≡ y = cc in (cc, rest)

module _ (sha256 : Bytes → Bytes) where
  -- All pairs in the levels above a row.
  unfoldable pub tree_pairs : ℕ → List Bytes → List (Bytes × Bytes)
  tree_pairs zero row = []
  tree_pairs (suc levels) row = row_pairs row ++ tree_pairs levels (next_level sha256 row)

  pub All-next_level :
      (hash_length : (b : Bytes) → IsHash (sha256 b)) (row : List Bytes)
      → All IsHash row
      → All IsHash (next_level sha256 row)
  unfolding next_level rfc6962_internal_hash
  All-next_level hash_length [] h = tt
  All-next_level hash_length (a ∷ []) h = h
  All-next_level hash_length (a ∷ b ∷ rest) h =
      (hash_length _, All-next_level hash_length rest h.1.1)

  abbrev step_pair : ℕ → ℕ → Bytes → Bytes → Bytes × Bytes
  step_pair fan sn r p = if not (fan % 2 == 0) || fan == sn then (p, r) else (r, p)

  -- The pairs that a walk along a path hashes.
  unfoldable pub path_pairs : ℕ → ℕ → Bytes → List Bytes → List (Bytes × Bytes)
  path_pairs fan sn r [] = []
  path_pairs fan sn r (p ∷ path) =
      let (f, s, h) = path_step sha256 fan sn r p in
      let rest = path_pairs f s h path in step_pair fan sn r p ∷ rest

  pub path_pairs-promoted :
      (n : ℕ) (r : Bytes) (path : List Bytes)
      → n % 2 ≡ 0
      → n ≢ 0
      → path_pairs n n r path ≡ path_pairs (n / 2) (n / 2) r path
  unfolding path_pairs
  path_pairs-promoted n r [] even nonzero = refl
  path_pairs-promoted n r (p ∷ path) even nonzero =
      ground (arith, path_step-promoted sha256 n r p even nonzero)

  pub path_pairs-right :
      (fan sn : ℕ) (r p : Bytes) (path : List Bytes)
      → fan % 2 ≡ 1
      → path_pairs fan sn r (p ∷ path)
        ≡ (p, r) ∷ path_pairs (fan / 2) (sn / 2) (rfc6962_internal_hash sha256 p r) path
  unfolding path_pairs
  path_pairs-right fan sn r p path odd = ground (arith, path_step-right sha256 fan sn r p odd)

  pub path_pairs-left :
      (fan sn : ℕ) (r p : Bytes) (path : List Bytes)
      → fan % 2 ≡ 0
      → fan ≢ sn
      → path_pairs fan sn r (p ∷ path)
        ≡ (r, p) ∷ path_pairs (fan / 2) (sn / 2) (rfc6962_internal_hash sha256 r p) path
  unfolding path_pairs
  path_pairs-left fan sn r p path even other =
      ground (arith, path_step-left sha256 fan sn r p even other)
