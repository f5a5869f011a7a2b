-- ===== src/Memory.antt =====
-- src/evoci/memory: what the runs leave for later runs.
pub mod Models
pub mod Store
pub mod Retrieval
mod Samples
