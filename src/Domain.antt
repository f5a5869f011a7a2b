-- ===== src/Domain.antt =====
-- src/evoci/domain/models.py: the values that the components pass to each other, and the checks that
-- their constructors make. Fields that no modelled code reads are left out.
pub mod Commands
pub mod Tasks
pub mod Results
