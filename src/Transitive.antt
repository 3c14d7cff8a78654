-- ===== src/Transitive.antt =====
-- src/transitive/: the dependency walk and what it is built from.
pub mod Types
pub mod Rollup
pub mod Engine
pub mod Budget
pub mod Graph
pub mod Report
pub mod Scan
pub mod Scanner
pub mod Pool
