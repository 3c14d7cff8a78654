-- ===== src/Transitive/Budget/Laws.antt =====
-- src/transitive/budget.rs: the budget and the number of distinct nodes.
use dep_scan.Prelude.{
  ℕ, ◌+◌, ◌≤◌, ◌<◌, List, [], ◌∷◌, contains, set_insert, length, In, Unique, arith, inl, inr, ◌≡◌,
  Unique-set_insert, In-set_insert, ◌⊎◌, ◌↔◌, true, false, if◌then◌else◌, ltb, some, none, dec_lt,
  Bool-cases, refl,
}
use dep_scan.Transitive.Types.{NodeId, node_id_eq}
use dep_scan.Transitive.Budget.{
  BudgetCharge, NodeBudget, charge, NodeBudgetExceeded, charge_all, new_budget,
}

-- The distinct nodes of a list, added to those of another.
unfoldable pub distinct : List NodeId → List NodeId → List NodeId
distinct [] known = known
distinct (node ∷ nodes) known = distinct nodes (set_insert node known)

-- The distinct nodes of a list are the list without its repetitions.
pub In-distinct :
    (nodes known : List NodeId) (n : NodeId)
    → In n (distinct nodes known) ↔ (In n nodes ⊎ In n known)
unfolding distinct
In-distinct [] known n = ((λ m. inr m), λ m. elim m [ inl e ↦ absurd e | inr m' ↦ m' ])
In-distinct (node ∷ nodes) known n =
    ground (arith, In-distinct nodes (set_insert node known) n, In-set_insert node n known)

pub Unique-distinct : (nodes known : List NodeId) → Unique known → Unique (distinct nodes known)
unfolding distinct
Unique-distinct [] known u = u
Unique-distinct (node ∷ nodes) known u =
    Unique-distinct nodes (set_insert node known) (Unique-set_insert node known u)

length-distinct : (nodes known : List NodeId) → length known ≤ length (distinct nodes known)
unfolding distinct set_insert
length-distinct [] known = omega arith
length-distinct (node ∷ nodes) known = ground (arith, length-distinct nodes (set_insert node known))

set_insert-known :
    (node : NodeId) (known : List NodeId)
    → contains known node ≡ true
    → set_insert node known ≡ known
unfolding set_insert
set_insert-known node known old = rw old

set_insert-new :
    (node : NodeId) (known : List NodeId)
    → contains known node ≡ false
    → set_insert node known ≡ node ∷ known
unfolding set_insert
set_insert-new node known new = rw new

charge_all-none : (b : NodeBudget) → charge_all [] b ≡ (none, b)
unfolding charge_all
charge_all-none b = refl

charge_all-counted :
    (node : NodeId) (nodes : List NodeId) (b b' : NodeBudget)
    → charge node b ≡ (BudgetCharge.counted, b')
    → charge_all (node ∷ nodes) b ≡ charge_all nodes b'
unfolding charge_all
charge_all-counted node nodes b b' e = ground arith

charge_all-exceeded :
    (node : NodeId) (nodes : List NodeId) (b b' : NodeBudget) (x : NodeBudgetExceeded)
    → charge node b ≡ (BudgetCharge.exceeded x, b')
    → charge_all (node ∷ nodes) b ≡ (some x, b')
unfolding charge_all
charge_all-exceeded node nodes b b' x e = ground arith

module _ (limit : ℕ) (small : limit + 1 < 4294967296) where
  abbrev budget : List NodeId → NodeBudget
  budget known = record { limit = limit; counted = known }

  charge-known :
      (node : NodeId) (known : List NodeId)
      → contains known node ≡ true
      → charge node (budget known) ≡ (BudgetCharge.counted, budget known)
  unfolding charge
  charge-known node known old = rw old

  charge-new :
      (node : NodeId) (known : List NodeId)
      → contains known node ≡ false
      → length known < limit
      → charge node (budget known) ≡ (BudgetCharge.counted, budget (set_insert node known))
  unfolding charge
  charge-new node known new near = ground arith

  charge-full :
      (node : NodeId) (known : List NodeId)
      → contains known node ≡ false
      → length known ≡ limit
      → charge node (budget known)
        ≡ (BudgetCharge.exceeded (record { count = limit + 1; limit = limit }), budget known)
  unfolding charge
  charge-full node known new full = ground arith

  abbrev breach : NodeBudgetExceeded
  breach = record { count = limit + 1; limit = limit }

  -- The loop from any budget that is not yet exceeded.
  charge_all-outcome :
      (nodes known : List NodeId)
      → length known ≤ limit
      → (charge_all nodes (budget known)).0
        ≡ (if ltb limit (length (distinct nodes known)) then some breach else none)
  unfolding distinct
  charge_all-outcome [] known within = ground (arith, charge_all-none (budget known))
  charge_all-outcome (node ∷ nodes) known within = elim (Bool-cases (contains known node)) [
    | inl old ↦
        let same : set_insert node known ≡ known = set_insert-known node known old in
        rw (charge_all-counted node nodes _ _ (charge-known node known old), same)
          (charge_all-outcome nodes known within)
    | inr new ↦
        let more : set_insert node known ≡ node ∷ known = set_insert-new node known new in
        elim (dec_lt (length known) limit) [
          | yes near ↦
              rw (charge_all-counted node nodes _ _ (charge-new node known new near))
                (charge_all-outcome nodes (set_insert node known) (rw more (omega (arith, near))))
          | no far ↦
              let full : length known ≡ limit = omega (arith, far, within) in
              let grown = length-distinct nodes (set_insert node known) in
              rw (charge_all-exceeded node nodes _ _ _ (charge-full node known new full))
                (ground (arith, grown, more, full))
        ]
  ]

  -- Charging a list of nodes breaks the budget exactly when the list has more distinct nodes than
  -- the limit, and then reports one more than the limit, wherever in the list that happens and
  -- however often a node comes back; limits up to 2³² - 2.
  pub charge_all_lem :
      (nodes : List NodeId)
      → (charge_all nodes (new_budget limit)).0
        ≡ (if ltb limit (length (distinct nodes [])) then some breach else none)
  charge_all_lem nodes = charge_all-outcome nodes [] (omega arith)
