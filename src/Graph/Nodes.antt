-- ===== src/Graph/Nodes.antt =====
-- src/evoci/graph/builder.py: the nodes. What an agent, a human or a subprocess answers is an argument.
pub mod Bootstrap
pub mod Supervise
pub mod Prepare
pub mod Worker
pub mod Approval
pub mod Apply
pub mod Verify
pub mod Rollback
pub mod Terminal
