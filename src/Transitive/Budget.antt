-- ===== src/Transitive/Budget.antt =====
-- src/transitive/budget.rs: the ceiling on the distinct nodes of one scan, and the loop of
-- src/transitive/scan.rs that charges a list of nodes and stops at the first breach.
pub mod Laws
use dep_scan.Prelude.{
  ℕ, ◌+◌, ◌%◌, List, [], ◌∷◌, Option, none, some, ltb, if◌then◌else◌, contains, set_insert, length,
}
use dep_scan.Transitive.Types.{NodeId, Verdict, node_id_eq}

pub record NodeBudgetExceeded : Type 0 where
  pub count : ℕ
  pub limit : ℕ

pub data BudgetCharge : Type 0 where
  counted : BudgetCharge
  exceeded : NodeBudgetExceeded → BudgetCharge

pub record NodeBudget : Type 0 where
  pub limit : ℕ
  pub counted : List NodeId

-- `u32`
abbrev pub wrap : ℕ → ℕ
wrap n = n % 4294967296

unfoldable pub fail_closed_verdict : NodeBudgetExceeded → Verdict
fail_closed_verdict breach = Verdict.warn

abbrev pub new_budget : ℕ → NodeBudget
new_budget max_total_nodes = record { limit = max_total_nodes; counted = [] }

-- `NodeBudget::charge`; the count wraps as `u32` does.
unfoldable pub charge : NodeId → NodeBudget → BudgetCharge × NodeBudget
charge node b =
    let would_be = wrap (wrap (length b.counted) + 1) in
    if contains b.counted node
    then (BudgetCharge.counted, b)
    else if ltb b.limit would_be
    then (BudgetCharge.exceeded (record { count = would_be; limit = b.limit }), b)
    else (BudgetCharge.counted, record b { counted = set_insert node b.counted })

-- The loop with its `break`: the breach, if there is one, and the budget it leaves.
unfoldable pub charge_all : List NodeId → NodeBudget → Option NodeBudgetExceeded × NodeBudget
unfolding charge
charge_all [] b = (none, b)
charge_all (node ∷ nodes) b =
    let (outcome, b') = charge node b in
    let rest = charge_all nodes b' in
    elim outcome [ BudgetCharge.counted ↦ rest | BudgetCharge.exceeded breach ↦ (some breach, b') ]
