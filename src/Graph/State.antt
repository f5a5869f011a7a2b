-- ===== src/Graph/State.antt =====
-- src/evoci/graph/state.py: the state that the nodes pass on, and what they change outside of it.
-- Fields that no modelled node reads or writes are left out. A memory or a skill stands for its id.
pub mod Effects
pub mod Restore
use evo_ci.Prelude.{ℕ, String, Option, List, Bool}
use evo_ci.Runtime.Events.{RunEvent}
use evo_ci.Runtime.Budget.{RunRepairBudget}
use evo_ci.Tools.Filesystem.{Files}
use evo_ci.Tools.Patch.{FileEdit, FileBaseline}
use evo_ci.Domain.Commands.{RawCommand, VerificationResult}
use evo_ci.Domain.Tasks.{SupervisorDecision, WorkerTask}
use evo_ci.Domain.Results.{
  EvidenceItem, WorkerExecutionResult, FixerOutput, ReviewResult, FailedCandidateRef, FailureClass,
}

pub data Status : Type 0 where
  running waiting_approval success failed : Status

pub record EvoCiState : Type 0 where
  pub schema_version : Option ℕ
  -- a checkpoint of the old graph: `investigation_round` or `investigation_plan` is there
  pub is_legacy : Bool
  pub run_id : String
  pub task_id : String
  pub failed_commands : List RawCommand
  pub phase : String
  pub supervisor_batch : ℕ
  pub decision : Option SupervisorDecision
  pub decision_history : List String
  pub worker_task : Option WorkerTask
  pub completed_task_ids : List String
  pub worker_results : List WorkerExecutionResult
  pub evidence : List EvidenceItem
  pub budget_failures : List String
  -- a path ends in the number of its batch, by which it is told apart
  pub batch_snapshot_path : Option ℕ
  pub batch_snapshot_id : Option String
  pub integrated_snapshot_id : Option String
  pub verification_snapshot_id : Option String
  pub worker_baseline_id : Option String
  pub worker_memories : List String
  pub recommended_skills : List String
  pub resume_artifact_ref : Option String
  pub previous_attempt_summary : Option String
  pub fixer_output : Option FixerOutput
  pub verification : Option VerificationResult
  pub verification_history : List VerificationResult
  pub review : Option ReviewResult
  pub approved : Option Bool
  pub attempt_baseline : List (String × FileBaseline)
  pub attempt_written : Option (List (String × Option String))
  pub failed_candidates : List FailedCandidateRef
  pub batch_conflict : Option String
  pub retrieved_memories : List String
  pub skill_catalog : List String
  pub selected_memory_ids : List String
  pub used_memory_ids : List String
  pub used_skill_refs : List String
  pub recommended_skill_ids : List String
  pub status : Status
  pub failure_reason : Option String
  pub failure_class : Option FailureClass
  pub failure_classes : List FailureClass
  pub failure_stage : Option String
  pub learning_deferred : Bool

-- A stored plan of `apply_candidate`: `save_apply_plan` writes it, `load_apply_plan` reads it.
pub record ApplyPlan : Type 0 where
  pub parent_snapshot_id : String
  pub artifact_ref : Option String
  pub edits : List FileEdit
  pub baseline : List (String × FileBaseline)

-- What the nodes share outside the state: the workspace, the snapshots of the batches, the stored
-- plans, the budget of the run, its events, and its row in the run store.
pub record World : Type 0 where
  pub files : Files
  pub snapshots : ℕ → Option Files
  pub plans : List (String × ApplyPlan)
  pub budget : RunRepairBudget
  pub events : List RunEvent
  pub run_status : Option Status

pub record Graph : Type 0 where
  pub state : EvoCiState
  pub world : World

-- The configuration and the outside functions that the nodes use: SHA-256 of a text, and the
-- fingerprint that `workspace_snapshot_id` takes of a workspace by git and SHA-256.
pub record Setting : Type 0 where
  pub root : List String
  pub max_supervisor_batches : ℕ
  pub patch_hash_strict : Bool
  pub defer_success_learning : Bool
  pub digest : String → String
  pub workspace_snapshot_id : Files → String
