-- ===== src/Graph.antt =====
-- src/evoci/graph: the supervisor-worker graph, its routing policy and its terminal outcome.
pub mod Scheduler
pub mod Routing
pub mod State
pub mod Outcome
pub mod Nodes
pub mod Edges
mod Samples
