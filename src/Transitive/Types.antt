-- ===== src/Transitive/Types.antt =====
-- src/lockfile.rs (`NodeId`) and src/transitive/engine.rs: the types that the walk shares.
use dep_scan.Prelude.{
  String, ℕ, Bool, true, false, ◌&&◌, List, ◌≡◌, ◌↔◌, arith, str_eq, eq_iff, Eq, max, [], ◌∷◌,
}

pub data NodeId : Type 0 where
  registry : String → String → String → NodeId
  git : String → String → NodeId

-- The derived `PartialEq` of `NodeId`.
abbrev pub node_eq : NodeId → NodeId → Bool
node_eq (registry n v r) (registry n' v' r') = str_eq n n' && str_eq v v' && str_eq r r'
node_eq (git n c) (git n' c') = str_eq n n' && str_eq c c'
node_eq _ _ = false

pub node_eq_iff : (a b : NodeId) → (node_eq a b ≡ true) ↔ (a ≡ b)
node_eq_iff (registry n v r) (registry n' v' r') =
    ground (arith, eq_iff n n', eq_iff v v', eq_iff r r')
node_eq_iff (git n c) (git n' c') = ground (arith, eq_iff n n', eq_iff c c')
node_eq_iff (registry n v r) (git n' c') = ground arith
node_eq_iff (git n c) (registry n' v' r') = ground arith

instance abbrev pub node_id_eq : Eq NodeId
node_id_eq = record { beq = node_eq; beq_iff = node_eq_iff }

pub data Verdict : Type 0 where
  pass warn block : Verdict

-- The derived `Ord` of `Verdict`: the position of the constructor.
abbrev pub rank : Verdict → ℕ
rank pass = 0
rank warn = 1
rank block = 2

-- The worst rank of a list of verdicts; 0 for the empty list.
abbrev pub worst : List Verdict → ℕ
worst [] = 0
worst (v ∷ vs) = max (rank v) (worst vs)

pub rank-injective : (v w : Verdict) → rank v ≡ rank w → v ≡ w
rank-injective v w h = ground arith

pub data EdgeError : Type 0 where
  unresolved_range : String → String → EdgeError

pub data EdgeResult : Type 0 where
  ok : List NodeId → EdgeResult
  err : EdgeError → EdgeResult

pub data OnDepthLimit : Type 0 where
  warn block : OnDepthLimit

abbrev pub floor : OnDepthLimit → Verdict
floor OnDepthLimit.warn = Verdict.warn
floor OnDepthLimit.block = Verdict.block

pub data Diagnostic : Type 0 where
  depth_limit_reached : NodeId → ℕ → Diagnostic
  cycle_detected : NodeId → NodeId → Diagnostic
  unresolved_range : NodeId → String → String → Diagnostic
  unfetchable : NodeId → String → Diagnostic
