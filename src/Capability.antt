-- ===== src/Capability.antt =====
-- src/evoci/capability: the skills that runs leave behind.
pub mod Models
pub mod Registry
pub mod Catalog
mod Samples
