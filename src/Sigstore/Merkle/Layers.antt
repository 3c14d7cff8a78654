-- ===== src/Sigstore/Merkle/Layers.antt =====
-- src/sigstore_verify.rs: the hash tree as the levels above a row of leaf hashes: neighbours are hashed in
-- pairs, and a last one without a neighbour moves up as it is.
use dep_scan.Prelude.{
  ℕ, zero, suc, ◌/◌, ◌%◌, ◌+◌, ◌*◌, ◌-◌, ◌<◌, List, [], ◌∷◌, Option, none, some, ◌≡◌, refl, arith,
  length, sym, ap, ◌∙◌,
}
use dep_scan.Prelude.Results.{Bytes, get_elem?}
use dep_scan.Sigstore.Merkle.{rfc6962_internal_hash}

abbrev pub double : ℕ → ℕ
double zero = zero
double (suc i) = suc (suc (double i))

double_eq : (i : ℕ) → double i ≡ 2 * i
double_eq zero = refl
double_eq (suc i) = omega (arith, double_eq i)

pub half_even : (n : ℕ) → n % 2 ≡ 0 → double (n / 2) ≡ n
half_even n even = omega (arith, double_eq (n / 2))

pub half_odd : (n : ℕ) → n % 2 ≡ 1 → suc (double (n / 2)) ≡ n
half_odd n odd = omega (arith, double_eq (n / 2))

pub get_within :
    {A : Type 0} (row : List A) (i : ℕ) → i < length row → (a : A) × (get_elem? row i ≡ some a)
get_within [] i h = absurd (omega arith)
get_within (x ∷ row) zero h = (x, refl)
get_within (x ∷ row) (suc i) h = get_within row i (omega arith)

module _ (sha256 : Bytes → Bytes) where
  abbrev node : Bytes → Bytes → Bytes
  node = rfc6962_internal_hash sha256

  unfoldable pub next_level : List Bytes → List Bytes
  next_level [] = []
  next_level (a ∷ []) = a ∷ []
  next_level (a ∷ b ∷ rest) = node a b ∷ next_level rest

  -- The root of a tree with at most `levels` levels above its leaves.
  unfoldable pub root_of : ℕ → List Bytes → Option Bytes
  unfolding next_level
  root_of levels [] = none
  root_of levels (a ∷ []) = some a
  root_of zero (a ∷ b ∷ rest) = none
  root_of (suc levels) (a ∷ b ∷ rest) = root_of levels (next_level (a ∷ b ∷ rest))

  pub length-next_level : (row : List Bytes) → length (next_level row) ≡ (length row + 1) / 2
  unfolding next_level
  length-next_level [] = refl
  length-next_level (a ∷ []) = refl
  length-next_level (a ∷ b ∷ rest) = omega (arith, length-next_level rest)

  -- The node above two neighbours.
  pub next_level-pair :
      (row : List Bytes) (i : ℕ) (a b : Bytes)
      → get_elem? row (double i) ≡ some a
      → get_elem? row (suc (double i)) ≡ some b
      → get_elem? (next_level row) i ≡ some (node a b)
  unfolding next_level
  next_level-pair [] i a b h k = absurd (ground arith)
  next_level-pair (x ∷ []) i a b h k = absurd (ground arith)
  next_level-pair (x ∷ y ∷ rest) zero a b h k = ground arith
  next_level-pair (x ∷ y ∷ rest) (suc i) a b h k = next_level-pair rest i a b h k

  -- The last one of an odd number.
  pub next_level-last :
      (row : List Bytes) (i : ℕ)
      → length row ≡ suc (double i)
      → get_elem? (next_level row) i ≡ get_elem? row (double i)
  unfolding next_level
  next_level-last [] i h = absurd (omega arith)
  next_level-last (x ∷ []) zero h = refl
  next_level-last (x ∷ []) (suc i) h = absurd (omega arith)
  next_level-last (x ∷ y ∷ rest) zero h = absurd (omega arith)
  next_level-last (x ∷ y ∷ rest) (suc i) h = next_level-last rest i (omega arith)

  -- A right child, its sibling and the node above them.
  pub right_parent :
      (row : List Bytes) (fan : ℕ)
      → fan % 2 ≡ 1
      → fan < length row
      → (a b : Bytes) × (get_elem? row (fan - 1) ≡ some a)
        × (get_elem? row fan ≡ some b)
        × (get_elem? (next_level row) (fan / 2) ≡ some (node a b))
  right_parent row fan odd within =
      let (a, at_sibling) = get_within row (fan - 1) (omega arith) in
      let (b, at_fan) = get_within row fan within in
      let below : fan - 1 ≡ double (fan / 2) = omega (arith, half_odd fan odd) in
      (
        a,
        b,
        at_sibling,
        at_fan,
        next_level-pair row (fan / 2) a b (rw (sym below) at_sibling)
            (rw (half_odd fan odd) at_fan),
      )

  -- A left child, its sibling and the node above them.
  pub left_parent :
      (row : List Bytes) (fan : ℕ)
      → fan % 2 ≡ 0
      → suc fan < length row
      → (a b : Bytes) × (get_elem? row fan ≡ some a)
        × (get_elem? row (suc fan) ≡ some b)
        × (get_elem? (next_level row) (fan / 2) ≡ some (node a b))
  left_parent row fan even within =
      let (a, at_fan) = get_within row fan (omega arith) in
      let (b, at_sibling) = get_within row (suc fan) within in
      (
        a,
        b,
        at_fan,
        at_sibling,
        next_level-pair row (fan / 2) a b (rw (half_even fan even) at_fan)
            (rw (half_even fan even) at_sibling),
      )

  -- The last one alone stands in the level above too.
  pub last_parent :
      (row : List Bytes) (fan : ℕ)
      → fan % 2 ≡ 0
      → length row ≡ suc fan
      → get_elem? (next_level row) (fan / 2) ≡ get_elem? row fan
  last_parent row fan even len =
      next_level-last row (fan / 2) (omega (arith, half_even fan even))
      ∙ ap (get_elem? row) (half_even fan even)
