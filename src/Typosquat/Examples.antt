-- ===== src/Typosquat/Examples.antt =====
-- src/typosquat.rs on concrete names.
use dep_scan.Prelude.{ℕ, ◌≤◌, ◌≡◌, ◌*◌, ◌/◌, min, ltb, leb, refl, arith, [], ◌∷◌, some}
use dep_scan.Prelude.Text.{codes, show, to_ascii_lowercase}
use dep_scan.Typosquat.Closest.{
  Floats, find_closest_match, normalized_levenshtein, normalize_package_name,
}
use dep_scan.Typosquat.Closest.Laws.{FloatOrder, IsClosest, find_closest_match-IsClosest}
use dep_scan.Typosquat.{levenshtein}
use dep_scan.Typosquat.Script.{Script}
use dep_scan.Typosquat.Laws.{levenshtein-Script}

lodahs : levenshtein "lodahs" "lodash" ≡ 2
unfolding levenshtein
lodahs = refl

levenshtein-Script_example :
    Script (levenshtein "lodahs" "lodash") (codes "lodahs") (codes "lodash")
    × ((n : ℕ) → Script n (codes "lodahs") (codes "lodash") → levenshtein "lodahs" "lodash" ≤ n)
levenshtein-Script_example = levenshtein-Script "lodahs" "lodash" (omega arith) (omega arith)

-- Thousandths in place of `f64`.
abbrev thousandths : Floats ℕ
thousandths = record {
  zero = 0;
  one = 1000;
  of_usize = λ n. n;
  div = λ a b. a * 1000 / b;
  min = min;
  lt = ltb;
  le = leb;
  show = show;
}

thousandths_order : FloatOrder thousandths
thousandths_order = record {
  lt_irreflexive = λ a. ground arith;
  lt_trans = λ a b c h k. ground arith;
  lt_le_trans = λ a b c h k. ground arith;
}

find_closest_match-IsClosest_example :
    IsClosest thousandths to_ascii_lowercase "Lodahs-js" 400 ("express" ∷ "lodash" ∷ []) (
      find_closest_match thousandths to_ascii_lowercase "Lodahs-js" ("express" ∷ "lodash" ∷ []) 400)
find_closest_match-IsClosest_example =
    find_closest_match-IsClosest thousandths to_ascii_lowercase thousandths_order "Lodahs-js" 400
      ("express" ∷ "lodash" ∷ [])

lodash_is_closest :
    find_closest_match thousandths to_ascii_lowercase "Lodahs-js" ("express" ∷ "lodash" ∷ []) 400
    ≡ some ("lodash", 333)
unfolding find_closest_match normalized_levenshtein normalize_package_name to_ascii_lowercase
lodash_is_closest = refl
