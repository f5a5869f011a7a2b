-- ===== src/Runtime.antt =====
-- src/evoci/runtime: the event log of a run, its recorder, and the call budgets.
pub mod Events
pub mod Recorder
pub mod Budget
mod Samples
