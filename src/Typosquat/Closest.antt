-- ===== src/Typosquat/Closest.antt =====
-- src/typosquat.rs and src/policy/typosquatting.rs: the closest popular name and the policy on it. The
-- operations on `f64` and Unicode lower-casing are given, as are the lists of popular names.
pub mod Laws
use dep_scan.Prelude.{
  ℕ, zero, suc, ◌-◌, ltb, max, List, [], ◌∷◌, Option, none, some, if◌then◌else◌, Bool, true, false,
  ◌==◌, ◌||◌, not, any, length, String, str_eq, List-cases,
}
use Prim.Native.String
use dep_scan.Prelude.Text.{◌+++◌, codes, has_prefix, text_length}
use dep_scan.Prelude.Lines.{split, drop_chars}
use dep_scan.Policy.{PolicyResult, pass, warn, block}
use dep_scan.Policy.Context.{ScanContext}
use dep_scan.Typosquat.{levenshtein}

-- What the code does with `f64`; `show` is `{:.2}`.
pub record Floats (F : Type 0) : Type 0 where
  pub zero : F
  pub one : F
  pub of_usize : ℕ → F
  pub div : F → F → F
  pub min : F → F → F
  pub lt : F → F → Bool
  pub le : F → F → Bool
  pub show : F → String

abbrev take_chars : ℕ → String → String
take_chars zero s = ""
take_chars (suc n) String.[] = ""
take_chars (suc n) (String.◌∷◌ c s) = String.◌∷◌ c (take_chars n s)

-- `strip_prefix`
unfoldable pub strip_prefix : String → String → Option String
unfolding has_prefix drop_chars
strip_prefix p s = if has_prefix p s then some (drop_chars (text_length p) s) else none

-- `strip_suffix`
unfoldable pub strip_suffix : String → String → Option String
unfolding drop_chars
strip_suffix p s =
    let front = text_length s - text_length p in
    if ltb (text_length s) (text_length p)
    then none
    else if str_eq (drop_chars front s) p
    then some (take_chars front s)
    else none

-- A loop over affixes that ends at the first one that fits.
unfoldable pub strip_first : (String → String → Option String) → List String → String → String
strip_first strip [] s = s
strip_first strip (affix ∷ affixes) s = elim (strip affix s) [
  | some stripped ↦ stripped
  | none ↦ strip_first strip affixes s
]

-- The last part, after the last slash.
abbrev last_part : String → List String → String
last_part otherwise [] = otherwise
last_part otherwise (s ∷ parts) = last_part s parts

unfoldable pub extract_go_module_name : String → String
unfolding split
extract_go_module_name module_path = last_part module_path (split b'/' module_path)

pub record TyposquattingPolicy (F : Type 0) : Type 0 where
  pub warn_threshold : F
  pub block_threshold : F
  pub popular_npm : List String
  pub popular_pypi : List String
  pub popular_crates : List String
  pub popular_go : List String

module _ {F : Type 0} (floats : Floats F) (to_lowercase : String → String) where
  unfoldable pub normalized_levenshtein : String → String → F
  unfolding levenshtein
  normalized_levenshtein a b =
      let max_len = max (length (codes a)) (length (codes b)) in
      if max_len == 0
      then floats.zero
      else floats.min (floats.div (floats.of_usize (levenshtein a b)) (floats.of_usize max_len))
          floats.one

  unfoldable pub normalize_package_name : String → String
  unfolding strip_first strip_prefix strip_suffix
  normalize_package_name name = strip_first strip_prefix ("python-" ∷ "py-" ∷ []) (
      strip_first strip_suffix ("-python" ∷ "-node" ∷ ".js" ∷ "-js" ∷ "-py" ∷ [])
        (to_lowercase name))

  -- The distance of two names once their affixes are gone.
  abbrev pub name_distance : String → String → F
  name_distance name pkg =
      normalized_levenshtein (normalize_package_name name) (normalize_package_name pkg)

  -- The body of the loop over the popular names, on the best so far.
  unfoldable pub next_best : String → F → String → Option (String × F) → Option (String × F)
  next_best name threshold pkg none =
      let dist = name_distance name pkg in
      if floats.le dist threshold then some (pkg, dist) else none
  next_best name threshold pkg (some best) =
      let dist = name_distance name pkg in
      if floats.le dist threshold
      then (if floats.lt dist best.1 then some (pkg, dist) else some best)
      else some best

  unfoldable pub closest_loop : String → F → Option (String × F) → List String → Option (String × F)
  unfolding next_best
  closest_loop name threshold best [] = best
  closest_loop name threshold best (pkg ∷ packages) =
      closest_loop name threshold (next_best name threshold pkg best) packages

  unfoldable pub find_closest_match : String → List String → F → Option (String × F)
  unfolding closest_loop
  find_closest_match name popular_packages threshold =
      closest_loop name threshold none popular_packages

  abbrev lists : String → List String → Bool
  lists lower names = any (λ p. str_eq (to_lowercase p) lower) names

  unfoldable pub is_popular : TyposquattingPolicy F → String → Bool
  unfolding extract_go_module_name
  is_popular policy name =
      let lower = to_lowercase name in
      lists lower policy.popular_npm
      || lists lower policy.popular_pypi
      || lists lower policy.popular_crates
      || lists (extract_go_module_name lower) policy.popular_go

  -- `flatten` and `min_by`, which keeps the first of equal ones.
  unfoldable pub closest_of : Option (String × F) → List (Option (String × F)) → Option (String × F)
  closest_of best [] = best
  closest_of none (candidate ∷ candidates) = closest_of candidate candidates
  closest_of (some best) (none ∷ candidates) = closest_of (some best) candidates
  closest_of (some best) (some other ∷ candidates) =
      closest_of (some (if floats.lt other.1 best.1 then other else best)) candidates

  unfoldable pub closest_candidate : TyposquattingPolicy F → String → Option (String × F)
  unfolding find_closest_match closest_of extract_go_module_name
  closest_candidate policy name =
      let t = policy.warn_threshold in
      closest_of none (
        find_closest_match name policy.popular_npm t
        ∷ find_closest_match name policy.popular_pypi t
        ∷ find_closest_match name policy.popular_crates t
        ∷ find_closest_match (extract_go_module_name name) policy.popular_go t
        ∷ [])

  unfoldable pub typosquatting_evaluate :
      {Bundle : Type 0} → TyposquattingPolicy F → ScanContext Bundle → PolicyResult
  unfolding is_popular closest_candidate
  typosquatting_evaluate policy ctx =
      let name = ctx.metadata.name in
      elim ctx.git_source [
        | some source ↦ pass
        | none ↦ if is_popular policy name then pass else (elim (closest_candidate policy name) [
          | none ↦ pass
          | some (popular_name, dist) ↦
              if not (floats.lt floats.zero dist)
              then pass
              else if floats.le dist policy.block_threshold
              then block (
                  "Package '"
                  +++ name
                  +++ "' is suspiciously similar to popular package '"
                  +++ popular_name
                  +++ "' (distance: "
                  +++ floats.show dist
                  +++ ")")
              else warn (
                  "Package '"
                  +++ name
                  +++ "' is similar to popular package '"
                  +++ popular_name
                  +++ "' (distance: "
                  +++ floats.show dist
                  +++ ")")
        ])
      ]
