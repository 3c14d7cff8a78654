-- ===== src/Transitive/Graph.antt =====
-- src/lockfile.rs: the dependency graph of a lockfile and the source of a dependency.
use dep_scan.Prelude.{
  List, [], ◌∷◌, ◌++◌, none, some, if◌then◌else◌, lookup, map_insert, String, map, ◌≡◌, refl, arith,
  lookup-map_insert, Bool-cases, inl, inr, append_assoc, append-nil,
}
use dep_scan.Transitive.Types.{NodeId, node_eq, node_id_eq, node_eq_iff}

pub data RegistryType : Type 0 where
  npm pypi crates go : RegistryType

pub data DependencySource : Type 0 where
  registry : RegistryType → DependencySource
  git : String → String → DependencySource

-- A map from a node to the nodes that it depends on.
pub record DependencyGraph : Type 0 where
  pub edges : List (NodeId × List NodeId)

abbrev pub new_graph : DependencyGraph
new_graph = record { edges = [] }

unfoldable pub edges_from : NodeId → DependencyGraph → List NodeId
edges_from node g = elim (lookup node g.edges) [ some targets ↦ targets | none ↦ [] ]

-- `entry(node).or_default()`
unfoldable pub add_node : NodeId → DependencyGraph → DependencyGraph
add_node node g = elim (lookup node g.edges) [
  | some targets ↦ g
  | none ↦ record { edges = map_insert node [] g.edges }
]

-- `entry(from).or_default().push(to)`
unfoldable pub push_edge : NodeId → NodeId → DependencyGraph → DependencyGraph
unfolding edges_from
push_edge from to g = record { edges = map_insert from (edges_from from g ++ to ∷ []) g.edges }

-- The loop of `from_edges`, from any graph.
unfoldable pub add_edges : List (NodeId × NodeId) → DependencyGraph → DependencyGraph
unfolding add_node push_edge
add_edges [] g = g
add_edges ((from, to) ∷ edges) g = add_edges edges (push_edge from to (add_node to g))

abbrev pub from_edges : List (NodeId × NodeId) → DependencyGraph
from_edges edges = add_edges edges new_graph

abbrev pub nodes : DependencyGraph → List NodeId
nodes g = map (λ (row : NodeId × List NodeId). row.0) g.edges

-- The targets of a node in a list of edges, in their order.
unfoldable pub targets : NodeId → List (NodeId × NodeId) → List NodeId
targets n [] = []
targets n ((from, to) ∷ edges) = if node_eq n from then to ∷ targets n edges else targets n edges

edges_from-add_node :
    (n m : NodeId) (g : DependencyGraph) → edges_from n (add_node m g) ≡ edges_from n g
unfolding edges_from add_node
edges_from-add_node n m g = ground (arith, lookup-map_insert m n [] g.edges, node_eq_iff n m)

edges_from-push_edge :
    (n from to : NodeId) (g : DependencyGraph)
    → edges_from n (push_edge from to g)
      ≡ (if node_eq n from then edges_from n g ++ to ∷ [] else edges_from n g)
unfolding edges_from push_edge
edges_from-push_edge n from to g =
    ground
      (arith, lookup-map_insert from n (edges_from from g ++ to ∷ []) g.edges, node_eq_iff n from)

add_edges-cons :
    (from to : NodeId) (edges : List (NodeId × NodeId)) (g : DependencyGraph)
    → add_edges ((from, to) ∷ edges) g ≡ add_edges edges (push_edge from to (add_node to g))
unfolding add_edges
add_edges-cons from to edges g = refl

add_edges-nil : (g : DependencyGraph) → add_edges [] g ≡ g
unfolding add_edges
add_edges-nil g = refl

edges_from-add_edges :
    (n : NodeId) (edges : List (NodeId × NodeId)) (g : DependencyGraph)
    → edges_from n (add_edges edges g) ≡ edges_from n g ++ targets n edges
unfolding targets
edges_from-add_edges n [] g = rw (add_edges-nil, append-nil) refl
edges_from-add_edges n ((from, to) ∷ edges) g =
    rw
      (
        add_edges-cons,
        edges_from-add_edges n edges (push_edge from to (add_node to g)),
        edges_from-push_edge n from to (add_node to g),
        edges_from-add_node n to g,
      )
      (elim (Bool-cases (node_eq n from)) [
        | inl same ↦ rw same (rw (append_assoc) refl)
        | inr other ↦ rw other refl
      ])

-- The graph built from a list of edges gives for each node exactly the targets of its edges, in
-- the order of the list and with repetitions.
pub edges_from-from_edges :
    (n : NodeId) (edges : List (NodeId × NodeId))
    → edges_from n (from_edges edges) ≡ targets n edges
unfolding edges_from targets lookup
edges_from-from_edges n edges = edges_from-add_edges n edges new_graph
