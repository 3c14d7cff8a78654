-- ===== src/Transitive/Rollup.antt =====
-- src/transitive/rollup.rs, with `verdict_from_result_str` of src/transitive/scanner.rs: verdicts
-- are folded by the flat scan's `aggregate_results`.
use dep_scan.Prelude.{
  String, List, [], ◌∷◌, ◌≡◌, refl, arith, str_eq, leb, map, none, some, if◌then◌else◌, ◌≤◌, ◌++◌,
  max, ℕ, dec_lt,
}
use dep_scan.Policy.{PolicyDetail, aggregate_results, first_with}
use dep_scan.Transitive.Types.{Verdict, pass, worst, rank}
use dep_scan.Policy.Aggregate.{aggregate-of_block, aggregate-of_warn, aggregate-of_pass}

unfoldable pub verdict_result_str : Verdict → String
verdict_result_str pass = "pass"
verdict_result_str Verdict.warn = "warn"
verdict_result_str Verdict.block = "block"

unfoldable pub verdict_from_result_str : String → Verdict
verdict_from_result_str result =
    if str_eq result "pass"
    then pass
    else if str_eq result "block"
    then Verdict.block
    else Verdict.warn

-- The synthetic detail that stands for one contribution.
abbrev rollup_detail : Verdict → PolicyDetail
rollup_detail v = record {
  policy_name = "transitive_rollup";
  result = verdict_result_str v;
  reason = none;
}

unfoldable pub combine_verdicts : List Verdict → Verdict
unfolding verdict_result_str verdict_from_result_str aggregate_results
combine_verdicts verdicts =
    verdict_from_result_str (aggregate_results (map rollup_detail verdicts)).0

-- Printing a verdict and reading it back gives the verdict.
pub verdict_from_result_str-verdict_result_str :
    (v : Verdict) → verdict_from_result_str (verdict_result_str v) ≡ v
unfolding verdict_from_result_str verdict_result_str
verdict_from_result_str-verdict_result_str pass = refl
verdict_from_result_str-verdict_result_str Verdict.warn = refl
verdict_from_result_str-verdict_result_str Verdict.block = refl

first_block :
    (vs : List Verdict)
    → first_with "block" (map rollup_detail vs)
      ≡ (if leb 2 (worst vs) then some (rollup_detail Verdict.block) else none)
unfolding first_with verdict_result_str
first_block [] = refl
first_block (pass ∷ vs) = ground (arith, first_block vs)
first_block (Verdict.warn ∷ vs) = ground (arith, first_block vs)
first_block (Verdict.block ∷ vs) = ground arith

first_warn :
    (vs : List Verdict)
    → worst vs ≤ 1
    → first_with "warn" (map rollup_detail vs)
      ≡ (if leb 1 (worst vs) then some (rollup_detail Verdict.warn) else none)
unfolding first_with verdict_result_str
first_warn [] h = refl
first_warn (pass ∷ vs) h = ground (arith, first_warn vs)
first_warn (Verdict.warn ∷ vs) h = ground arith
first_warn (Verdict.block ∷ vs) h = absurd (omega arith)

pub worst-le : (vs : List Verdict) → worst vs ≤ 2
worst-le [] = omega arith
worst-le (pass ∷ vs) = omega (arith, worst-le vs)
worst-le (Verdict.warn ∷ vs) = omega (arith, worst-le vs)
worst-le (Verdict.block ∷ vs) = omega (arith, worst-le vs)

pub worst-append : (vs ws : List Verdict) → worst (vs ++ ws) ≡ max (worst vs) (worst ws)
worst-append [] ws = omega arith
worst-append (v ∷ vs) ws = omega (arith, worst-append vs ws)

verdict_of_rank : ℕ → Verdict
verdict_of_rank n = if leb 2 n then Verdict.block else if leb 1 n then Verdict.warn else pass

aggregate-rollup_detail :
    (vs : List Verdict)
    → (aggregate_results (map rollup_detail vs)).0 ≡ verdict_result_str (verdict_of_rank (worst vs))
unfolding verdict_result_str verdict_of_rank
aggregate-rollup_detail vs = elim (dec_lt (worst vs) 2) [
  | no blocked ↦
      rw
        (aggregate-of_block (map rollup_detail vs) (rollup_detail Verdict.block)
          (ground (arith, first_block vs)))
        (ground arith)
  | yes small ↦ elim (dec_lt (worst vs) 1) [
    | no warned ↦
        rw
          (aggregate-of_warn (map rollup_detail vs) (rollup_detail Verdict.warn)
            (ground (arith, first_block vs)) (ground (arith, first_warn vs)))
          (ground arith)
    | yes clean ↦
        rw
          (aggregate-of_pass (map rollup_detail vs) (ground (arith, first_block vs))
            (ground (arith, first_warn vs)))
          (ground arith)
  ]
]

-- The fold through the textual details is the maximum of the contributions in the derived order.
pub rank-combine_verdicts : (vs : List Verdict) → rank (combine_verdicts vs) ≡ worst vs
unfolding combine_verdicts verdict_of_rank
rank-combine_verdicts vs =
    rw (aggregate-rollup_detail vs, verdict_from_result_str-verdict_result_str)
      (ground (arith, worst-le vs))
