-- ===== src/Domain/Results.antt =====
-- src/evoci/domain/models.py: what workers, reviews and proposals hand over.
use evo_ci.Prelude.{
  ℕ, String, Option, List, Bool, false, if◌then◌else◌, Outcome, ok, raise, value_error, map, count,
  ◌==◌, all, eqb, ◌++◌,
}
use evo_ci.Tools.Patch.{FileEdit}
use evo_ci.Domain.Commands.{VerificationCommandSpec}

pub data FailureClass : Type 0 where
  repair model budget policy infrastructure : FailureClass

pub data WorkerTaskStatus : Type 0 where
  completed blocked budget_exhausted : WorkerTaskStatus

pub record EvidenceItem : Type 0 where
  pub id : String
  pub source_agent : String
  pub claim : String

pub record WorkerExecutionResult : Type 0 where
  pub task_id : String
  pub status : WorkerTaskStatus
  pub summary : String
  pub evidence : List EvidenceItem
  pub base_revision : Option String
  pub snapshot_id : Option String
  pub patch_artifact_ref : Option String
  pub changed_files : List String
  pub used_memory_ids : List String
  pub used_skill_refs : List String

pub record FailedCandidateRef : Type 0 where
  pub candidate_id : String
  pub task_id : String
  pub batch : ℕ
  pub baseline_snapshot_id : String
  pub artifact_ref : String
  pub changed_files : List String

pub data Risk : Type 0 where
  low medium high : Risk

pub record PatchProposal : Type 0 where
  pub summary : String
  pub changed_files : List String
  pub commands_run : List String
  pub risk : Risk
  pub verification_plan : List VerificationCommandSpec

pub record FixerOutput : Type 0 where
  pub proposal : PatchProposal
  pub edits : List FileEdit

-- `sorted(xs) == sorted(ys)`: every text is as often in both.
abbrev same_sorted : List String → List String → Bool
same_sorted xs ys = all (λ s. eqb (count (λ t. t == s) xs) (count (λ t. t == s) ys)) (xs ++ ys)

-- `edits_match_changed_files`
unfoldable pub make_fixer_output : PatchProposal → List FileEdit → Outcome FixerOutput
make_fixer_output p edits =
    if same_sorted (map (λ e. e.path) edits) p.changed_files
    then ok (record { proposal = p; edits = edits })
    else raise (value_error "proposal changed_files must exactly match edit paths")

pub data ReviewStatus : Type 0 where
  passed failed not_performed : ReviewStatus

pub record ReviewResult : Type 0 where
  pub accepted : Bool
  pub performed : Bool
  pub status : ReviewStatus
  pub blockers : List String

-- `normalize_review_status`, after which `unperformed_review_is_not_accepted` cannot raise.
unfoldable pub make_review : (accepted performed : Bool) → List String → ReviewResult
make_review accepted performed blockers = record {
  accepted = if performed then accepted else false;
  performed = performed;
  status =
      if performed
      then (if accepted then ReviewStatus.passed else ReviewStatus.failed)
      else ReviewStatus.not_performed;
  blockers = blockers;
}
