-- ===== src/Sigstore/Merkle/Loop.antt =====
-- src/sigstore_verify.rs: the steps of `verify_merkle_path`, one level of the tree at a time.
use dep_scan.Prelude.{ℕ, zero, suc, ◌/◌, ◌%◌, ◌≤◌, List, [], ◌∷◌, ◌≡◌, ◌≢◌, refl, arith, ◌⊎◌}
use dep_scan.Prelude.Results.{Bytes, ok}
use dep_scan.Sigstore.Merkle.{promote, path_step, path_loop, rfc6962_internal_hash}

-- The loop has stopped: `fan` is odd or zero.
promote_ends :
    (fuel fan sn : ℕ)
    → fan ≤ fuel
    → ((promote fuel fan sn).0 % 2 ≡ 1) ⊎ ((promote fuel fan sn).0 ≡ 0)
unfolding promote
promote_ends zero fan sn bound = ground arith
promote_ends (suc fuel) fan sn bound = ground (arith, promote_ends fuel (fan / 2) (sn / 2))

-- More fuel than `fan` changes nothing.
promote_fuel :
    (fuel more fan sn : ℕ) → fan ≤ fuel → fan ≤ more → promote fuel fan sn ≡ promote more fan sn
unfolding promote
promote_fuel zero zero fan sn b c = refl
promote_fuel zero (suc more) fan sn b c = ground arith
promote_fuel (suc fuel) zero fan sn b c = ground arith
promote_fuel (suc fuel) (suc more) fan sn b c =
    ground (arith, promote_fuel fuel more (fan / 2) (sn / 2))

promote_odd : (fuel fan sn : ℕ) → fan % 2 ≡ 1 → promote fuel fan sn ≡ (fan, sn)
unfolding promote
promote_odd zero fan sn odd = refl
promote_odd (suc fuel) fan sn odd = ground arith

promote_even :
    (fan sn : ℕ) → fan % 2 ≡ 0 → fan ≢ 0 → promote fan fan sn ≡ promote (fan / 2) (fan / 2) (sn / 2)
unfolding promote
promote_even zero sn even nonzero = absurd (nonzero refl)
promote_even (suc fan) sn even nonzero =
    ground (arith, promote_fuel fan (suc fan / 2) (suc fan / 2) (sn / 2))

module _ (sha256 : Bytes → Bytes) where
  pub path_step-promoted :
      (n : ℕ) (r p : Bytes)
      → n % 2 ≡ 0
      → n ≢ 0
      → path_step sha256 n n r p ≡ path_step sha256 (n / 2) (n / 2) r p
  unfolding path_step
  path_step-promoted n r p even nonzero = ground (arith, promote_even n n even nonzero)

  -- The last node of a level, with no sibling, stands unchanged on the next level.
  pub path_loop-promoted :
      (n : ℕ) (r : Bytes) (path : List Bytes)
      → n % 2 ≡ 0
      → n ≢ 0
      → path_loop sha256 n n r path ≡ path_loop sha256 (n / 2) (n / 2) r path
  unfolding path_loop
  path_loop-promoted n r [] even nonzero = ground arith
  path_loop-promoted n r (p ∷ path) even nonzero =
      ground (arith, path_step-promoted n r p even nonzero)

  pub path_step-right :
      (fan sn : ℕ) (r p : Bytes)
      → fan % 2 ≡ 1
      → path_step sha256 fan sn r p ≡ (fan / 2, sn / 2, rfc6962_internal_hash sha256 p r)
  unfolding path_step
  path_step-right fan sn r p odd = ground (arith, promote_odd fan fan sn odd)

  -- A right child takes its sibling from the path.
  pub path_loop-right :
      (fan sn : ℕ) (r p : Bytes) (path : List Bytes)
      → fan % 2 ≡ 1
      → sn ≢ 0
      → path_loop sha256 fan sn r (p ∷ path)
        ≡ path_loop sha256 (fan / 2) (sn / 2) (rfc6962_internal_hash sha256 p r) path
  unfolding path_loop
  path_loop-right fan sn r p path odd nonzero = ground (arith, path_step-right fan sn r p odd)

  pub path_step-left :
      (fan sn : ℕ) (r p : Bytes)
      → fan % 2 ≡ 0
      → fan ≢ sn
      → path_step sha256 fan sn r p ≡ (fan / 2, sn / 2, rfc6962_internal_hash sha256 r p)
  unfolding path_step
  path_step-left fan sn r p even other = ground arith

  -- So does a left child.
  pub path_loop-left :
      (fan sn : ℕ) (r p : Bytes) (path : List Bytes)
      → fan % 2 ≡ 0
      → fan ≢ sn
      → sn ≢ 0
      → path_loop sha256 fan sn r (p ∷ path)
        ≡ path_loop sha256 (fan / 2) (sn / 2) (rfc6962_internal_hash sha256 r p) path
  unfolding path_loop
  path_loop-left fan sn r p path even other nonzero =
      ground (arith, path_step-left fan sn r p even other)

  pub path_loop-done : (r : Bytes) → path_loop sha256 0 0 r [] ≡ ok r
  unfolding path_loop
  path_loop-done r = refl
