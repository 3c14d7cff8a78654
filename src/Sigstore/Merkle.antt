-- ===== src/Sigstore/Merkle.antt =====
-- src/sigstore_verify.rs: the hashes of RFC 6962 and the walk along an audit path. SHA-256 is given.
-- A hash is an array of 32 bytes in the source and a list of bytes here: that it has 32 of them is a
-- hypothesis where a theorem needs it, and decode_path refuses any other.
pub mod Loop
pub mod Layers
pub mod Pairs
pub mod Collision
pub mod Sound
pub mod Complete
use dep_scan.Prelude.{
  ℕ, zero, suc, ◌/◌, ◌%◌, ◌-◌, List, [], ◌∷◌, ◌++◌, if◌then◌else◌, Bool, true, false, not, ◌&&◌,
  ◌||◌, ◌==◌, leb, String,
}
use dep_scan.Prelude.Results.{Result, ok, err, and_then, Bytes, bytes_eq}
use dep_scan.Prelude.Text.{◌+++◌, show}
use dep_scan.Sigstore.{RekorError, malformed_proof, inclusion_proof_invalid}

-- `while fan.is_multiple_of(2) && fan != 0`, which halves both; `fan` itself is fuel enough.
unfoldable pub promote : ℕ → ℕ → ℕ → ℕ × ℕ
promote zero fan sn = (fan, sn)
promote (suc fuel) fan sn =
    let rest = promote fuel (fan / 2) (sn / 2) in
    if (fan % 2 == 0) && not (fan == 0) then rest else (fan, sn)

module _ (sha256 : Bytes → Bytes) where
  unfoldable pub rfc6962_leaf_hash : Bytes → Bytes
  rfc6962_leaf_hash leaf_bytes = sha256 (0 ∷ leaf_bytes)

  unfoldable pub rfc6962_internal_hash : Bytes → Bytes → Bytes
  rfc6962_internal_hash left right = sha256 (1 ∷ left ++ right)

  -- The loop's body after its guard: the next `fan`, `sn` and `r`.
  unfoldable pub path_step : ℕ → ℕ → Bytes → Bytes → ℕ × ℕ × Bytes
  unfolding promote rfc6962_internal_hash
  path_step fan sn r p =
      if not (fan % 2 == 0) || fan == sn
      then (let (f, s) = promote fan fan sn in (f / 2, s / 2, rfc6962_internal_hash p r))
      else (fan / 2, sn / 2, rfc6962_internal_hash r p)

  -- The loop over the path, with the check behind it.
  unfoldable pub path_loop : ℕ → ℕ → Bytes → List Bytes → Result Bytes RekorError
  unfolding path_step
  path_loop fan sn r [] =
      if sn == 0 then ok r else err (malformed_proof "audit path is shorter than the tree depth")
  path_loop fan sn r (p ∷ path) =
      let (f, s, h) = path_step fan sn r p in
      let rest = path_loop f s h path in
      if sn == 0 then err (malformed_proof "audit path is longer than the tree depth") else rest

  unfoldable pub verify_merkle_path : ℕ → ℕ → Bytes → List Bytes → Bytes → Result Unit RekorError
  unfolding path_loop
  verify_merkle_path leaf_index tree_size leaf_hash path root_hash =
      if tree_size == 0
      then err (malformed_proof "tree_size is zero")
      else if leb tree_size leaf_index
      then err (
          malformed_proof (
            "leaf_index "
            +++ show leaf_index
            +++ " is out of range for tree_size "
            +++ show tree_size))
      else and_then (path_loop leaf_index (tree_size - 1) leaf_hash path)
          (λ r. if bytes_eq r root_hash then ok tt else err inclusion_proof_invalid)
