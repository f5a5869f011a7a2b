-- ===== src/Capability/Models.antt =====
-- src/evoci/capability/models.py: a skill, its package, and the counts of its use.
use evo_ci.Prelude.{ℕ, String, Option, List, Bool}

pub record SkillPermissions : Type 0 where
  pub read_workspace : Bool
  pub write_workspace : Bool
  pub execute : Bool
  pub network : Bool

pub record SkillFile : Type 0 where
  pub path : String
  pub sha256 : String
  pub executable : Bool

-- Times are texts.
pub record SkillManifest : Type 0 where
  pub skill_id : String
  pub name : String
  pub description : String
  pub triggers : List String
  pub task_families : List String
  pub permissions : SkillPermissions
  pub source_run_ids : List String
  pub enabled : Bool
  pub files : List SkillFile
  pub created_at : String
  pub updated_at : String

pub record GeneratedFile : Type 0 where
  pub path : String
  pub content : String
  pub executable : Bool

-- A candidate whose `SKILL.md` is rendered and complete.
pub record SkillCandidate : Type 0 where
  pub name : String
  pub description : String
  pub triggers : List String
  pub task_families : List String
  pub skill_md : String
  pub scripts : List GeneratedFile
  pub references : List GeneratedFile
  pub templates : List GeneratedFile
  pub tests : List GeneratedFile
  pub source_run_ids : List String
  pub permissions : SkillPermissions

pub record RegisteredSkill : Type 0 where
  pub manifest : SkillManifest
  pub package_path : String

pub record SkillStats : Type 0 where
  pub retrieval_count : ℕ
  pub selected_count : ℕ
  pub use_count : ℕ
  pub success_count : ℕ
  pub failure_count : ℕ
  pub patch_count : ℕ
  pub created_at : String
  pub updated_at : String
  pub last_used_at : Option String

pub data MemoryOutcome : Type 0 where
  success failure : MemoryOutcome

pub record SkillMemoryEntry : Type 0 where
  pub run_id : String
  pub repository : String
  pub task_summary : String
  pub outcome : MemoryOutcome
  pub lesson : String
  pub created_at : String
