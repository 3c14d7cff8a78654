-- ===== src/Typosquat.antt =====
-- src/typosquat.rs: the edit distance, on the code points of two names.
pub mod Script
pub mod Laws
pub mod Closest
mod Examples
use dep_scan.Prelude.{
  ℕ, zero, suc, ◌+◌, min, List, [], ◌∷◌, Option, none, some, if◌then◌else◌, ◌==◌, ltb, length,
  String, ◌||◌, true, false,
}
use dep_scan.Prelude.Results.{get_elem?}
use dep_scan.Prelude.Text.{codes}

abbrev pub cost : ℕ → ℕ → ℕ
cost x y = if x == y then 0 else 1

-- The inner loop from a column on: the entry to the left, the one diagonally above, and what is left
-- of the previous row and of the second name.
unfoldable pub row_loop : ℕ → ℕ → ℕ → List ℕ → List ℕ → List ℕ
row_loop x left diagonal [] b = []
row_loop x left diagonal (above ∷ prev_row) [] = []
row_loop x left diagonal (above ∷ prev_row) (y ∷ b) =
    let v = min (min (above + 1) (left + 1)) (diagonal + cost x y) in
    v ∷ row_loop x v above prev_row b

-- One pass of the outer loop, for its index and character.
unfoldable pub next_row : ℕ → ℕ → List ℕ → List ℕ → List ℕ
unfolding row_loop
next_row i x [] b = []
next_row i x (first ∷ prev_row) b = i ∷ row_loop x i first prev_row b

-- The outer loop.
unfoldable pub rows_loop : ℕ → List ℕ → List ℕ → List ℕ → List ℕ
unfolding next_row
rows_loop i [] prev_row b = prev_row
rows_loop i (x ∷ a) prev_row b = rows_loop (suc i) a (next_row i x prev_row b) b

-- `(n..=n + k).collect()`
unfoldable pub counting : ℕ → ℕ → List ℕ
counting n zero = n ∷ []
counting n (suc k) = n ∷ counting (suc n) k

abbrev pub max_name_chars : ℕ
max_name_chars = 256

abbrev pub usize_max : ℕ
usize_max = 18446744073709551615

abbrev entry_at : List ℕ → ℕ → ℕ
entry_at row j = elim (get_elem? row j) [ none ↦ 0 | some v ↦ v ]

unfoldable pub distance : List ℕ → List ℕ → ℕ
unfolding rows_loop counting
distance a b =
    if ltb max_name_chars (length a) || ltb max_name_chars (length b)
    then usize_max
    else if length a == 0
    then length b
    else if length b == 0
    then length a
    else entry_at (rows_loop 1 a (counting 0 (length b)) b) (length b)

unfoldable pub levenshtein : String → String → ℕ
unfolding distance
levenshtein a b = distance (codes a) (codes b)
