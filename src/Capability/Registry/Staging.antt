-- ===== src/Capability/Registry/Staging.antt =====
-- src/evoci/capability/registry.py, `_write_staging`: the files of a candidate as a package with its manifest.
use evo_ci.Prelude.Dict
use evo_ci.Prelude.{
  String, Option, none, some, List, [], ◌∷◌, ◌++◌, Bool, true, false, ◌||◌, ◌==◌, if◌then◌else◌,
  Outcome, ok, raise, ◌>>=◌, policy_violation, any, is_empty, map, ◌⧺◌,
}
use evo_ci.Tools.Paths.{parts, is_absolute, join}
use evo_ci.Tools.Scope.{from_keys}
use evo_ci.Capability.Models.{
  SkillManifest, SkillCandidate, SkillFile, GeneratedFile, RegisteredSkill,
}
use evo_ci.Capability.Registry.{Package, Host}

abbrev is_unsafe : String → Bool
is_unsafe path = is_absolute path || any (λ p. p == "..") (parts path) || is_empty (parts path)

-- `_safe_relative(path)` gives the components; a prefix has to be the first of them.
unfoldable pub safe_relative : String → Outcome (List String)
safe_relative path =
    if is_unsafe path
    then raise (policy_violation ("unsafe skill path: " ⧺ path))
    else ok (parts path)

abbrev has_prefix : String → List String → Bool
has_prefix prefix [] = false
has_prefix prefix (p ∷ ps) = p == prefix

unfoldable pub under_prefix : String → String → Outcome (List String)
under_prefix prefix path = safe_relative path >>= λ ps.
    if has_prefix prefix ps
    then ok ps
    else raise (policy_violation (path ⧺ " must be under " ⧺ prefix ⧺ "/"))

unfoldable pub categorized : String → List GeneratedFile → Outcome (List GeneratedFile)
categorized category [] = ok []
categorized category (f ∷ fs) =
    under_prefix category f.path >>= λ _. categorized category fs >>= λ rest. ok (f ∷ rest)

abbrev skill_md_file : SkillCandidate → GeneratedFile
skill_md_file c = record { path = "SKILL.md"; content = c.skill_md; executable = false }

unfoldable pub files_to_write : SkillCandidate → Outcome (List GeneratedFile)
files_to_write c = do
  scripts ← categorized "scripts" c.scripts
  references ← categorized "references" c.references
  templates ← categorized "templates" c.templates
  tests ← categorized "tests" c.tests
  ok (skill_md_file c ∷ (scripts ++ (references ++ (templates ++ tests))))

-- The files one after the other: a later one at the same place replaces the earlier.
unfoldable pub write_files : Package → List GeneratedFile → Outcome Package
write_files staged [] = ok staged
write_files staged (f ∷ fs) =
    safe_relative f.path >>= λ ps. write_files (Dict.insert (join ps) f.content staged) fs

abbrev skill_file : Host → GeneratedFile → SkillFile
skill_file h f = record { path = f.path; sha256 = h.sha256 f.content; executable = f.executable }

-- What an update keeps of the skill before.
pub record Kept : Type 0 where
  pub created_at : Option String
  pub source_run_ids : Option (List String)
  pub enabled : Bool

abbrev pub or_list : Option (List String) → List String → List String
or_list none d = d
or_list (some []) d = d
or_list (some (x ∷ xs)) d = x ∷ xs

abbrev or_now : Option String → String → String
or_now none now = now
or_now (some t) now = t

unfoldable pub make_manifest :
    Host → SkillCandidate → String → Kept → List GeneratedFile → SkillManifest
make_manifest h c id kept files = record {
  skill_id = id;
  name = c.name;
  description = c.description;
  triggers = c.triggers;
  task_families = c.task_families;
  permissions = c.permissions;
  source_run_ids = or_list kept.source_run_ids c.source_run_ids;
  enabled = kept.enabled;
  files = map (skill_file h) files;
  created_at = or_now kept.created_at h.now;
  updated_at = h.now;
}

-- `manifest.json` is part of the staged, but not of its files' list; it is kept as the manifest.
unfoldable pub write_staging :
    Host → SkillCandidate → String → Kept → Outcome (Package × SkillManifest)
write_staging h c id kept = do
  files ← files_to_write c
  staged ← write_files [] files
  ok (staged, make_manifest h c id kept files)

-- What `create_skill` keeps, and what `update_skill` does.
abbrev pub kept_none : Kept
kept_none = record { created_at = none; source_run_ids = none; enabled = true }

unfoldable pub kept_of : RegisteredSkill → SkillCandidate → Kept
kept_of current c = record {
  created_at = some current.manifest.created_at;
  source_run_ids = some (from_keys [] (current.manifest.source_run_ids ++ c.source_run_ids));
  enabled = current.manifest.enabled;
}
