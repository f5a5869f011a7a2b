-- ===== src/Agents.antt =====
-- src/evoci/agents: the leaf agents.
pub mod ToolLoop
mod Samples
