-- ===== src/Graph.antt =====
-- Tasks and their file contracts: packages/graph/src, and the choice of parallel tasks.
pub mod Tasks
pub mod Contract
pub mod Parallel
pub mod Readiness
pub mod Subgraph
pub mod Cycles
pub mod Ready
pub mod Slice
mod Tests
