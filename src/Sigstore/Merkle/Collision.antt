-- ===== src/Sigstore/Merkle/Collision.antt =====
-- src/sigstore_verify.rs: pairs of nodes with one hash.
use dep_scan.Prelude.{
  List, ◌∷◌, ◌++◌, ◌≡◌, ◌≢◌, refl, arith, length, ◌⊎◌, inl, inr, Bool-cases, In, In-append_left,
  In-append_right,
}
use dep_scan.Prelude.Results.{Bytes, bytes_eq, bytes_eq_iff}
use dep_scan.Sigstore.Merkle.{rfc6962_internal_hash}
use dep_scan.Sigstore.Merkle.Pairs.{append-injective}

module _ (sha256 : Bytes → Bytes) where
  -- A pair of nodes in one list and a pair in the other that have the same hash, although the bytes
  -- that are hashed differ.
  pub record Collision (tree walk : List (Bytes × Bytes)) : Type 0 where
    pub left : Bytes
    pub right : Bytes
    pub other_left : Bytes
    pub other_right : Bytes
    pub in_tree : In (left, right) tree
    pub in_walk : In (other_left, other_right) walk
    pub different : (left ++ right) ≢ (other_left ++ other_right)
    pub collide :
        rfc6962_internal_hash sha256 left right
        ≡ rfc6962_internal_hash sha256 other_left other_right

  pub Collision-above :
      (here tree walk : List (Bytes × Bytes)) (pair : Bytes × Bytes)
      → Collision tree walk
      → Collision (here ++ tree) (pair ∷ walk)
  Collision-above here tree walk pair c = record {
    left = c.left;
    right = c.right;
    other_left = c.other_left;
    other_right = c.other_right;
    in_tree = In-append_right (c.left, c.right) here tree c.in_tree;
    in_walk = inr (c.in_walk);
    different = c.different;
    collide = c.collide;
  }

  pub Collision-row :
      (here tree walk : List (Bytes × Bytes)) → Collision tree walk → Collision (here ++ tree) walk
  Collision-row here tree walk c = record {
    left = c.left;
    right = c.right;
    other_left = c.other_left;
    other_right = c.other_right;
    in_tree = In-append_right (c.left, c.right) here tree c.in_tree;
    in_walk = c.in_walk;
    different = c.different;
    collide = c.collide;
  }

  -- Two pairs of hashes with one hash are the same pair or collide.
  pub node-cases :
      (here tree walk : List (Bytes × Bytes)) (a b p q : Bytes)
      → In (a, b) here
      → length a ≡ length p
      → rfc6962_internal_hash sha256 a b ≡ rfc6962_internal_hash sha256 p q
      → ((a ≡ p) × (b ≡ q)) ⊎ Collision (here ++ tree) ((p, q) ∷ walk)
  node-cases here tree walk a b p q m sized same = elim (Bool-cases (bytes_eq (a ++ b) (p ++ q))) [
    | inl equal ↦ inl (append-injective a b p q sized ((bytes_eq_iff (a ++ b) (p ++ q)).0 equal))
    | inr other ↦ inr (record {
      left = a;
      right = b;
      other_left = p;
      other_right = q;
      in_tree = In-append_left (a, b) here tree m;
      in_walk = inl refl;
      different = λ e. ground (arith, (bytes_eq_iff (a ++ b) (p ++ q)).1 e);
      collide = same;
    })
  ]
