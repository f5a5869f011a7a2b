-- ===== src/Verification.antt =====
-- src/evoci/verification/service.py: the harness-owned verification of a candidate.
pub mod Plan
pub mod Evaluate
pub mod Service
pub mod Samples
