-- ===== src/Tools.antt =====
-- src/evoci/tools: paths, permissions, the file tools and the patch engine.
pub mod Paths
pub mod Scope
pub mod Policy
pub mod Filesystem
pub mod Patch
mod Samples
pub mod Registry
pub mod Worker
