-- ===== src/Memory/Models.antt =====
-- src/evoci/memory/models.py, and `MemoryHit` of src/evoci/domain/models.py. Times are texts; a confidence
-- is a number that is only compared.
use evo_ci.Prelude.{ℕ, String, Option, List, Bool}
use evo_ci.Domain.Results.{FailureClass}

pub record Episode : Type 0 where
  pub id : String
  pub run_id : String
  pub repo : String
  pub failure_summary : String
  pub root_cause : Option String
  pub successful_fix_summary : Option String
  pub hypotheses_attempted : List String
  pub verification_failures : List String
  pub failure_reason : Option String
  pub success : Bool
  pub failure_fingerprint : String
  pub failure_class : FailureClass
  pub failure_stage : Option String
  pub attempted_fix_summaries : List String
  pub attempted_files : List String
  pub external_failure_details : List String
  pub created_at : String

pub record LongTermMemory : Type 0 where
  pub id : String
  pub repository : String
  pub content : String
  pub confidence : ℕ
  pub source_run_ids : List String
  pub created_at : String
  pub updated_at : String
  pub last_accessed_at : Option String

-- A hit's score is not kept; its content is a list of code points.
pub record MemoryHit : Type 0 where
  pub memory_id : String
  pub namespace : String
  pub content : List ℕ

pub record RetrievalTelemetry : Type 0 where
  pub retrieved_ids : List String
  pub selected_ids : List String
  pub context_chars : ℕ
