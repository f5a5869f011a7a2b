-- ===== src/Capability/Registry/Install.antt =====
-- src/evoci/capability/registry.py: `create_skill` and `update_skill`, which put a validated package in its
-- place and its rows into the database, or leave both as they were.
pub mod Atomic
pub mod Whole
pub mod Create
pub mod Repeat
use evo_ci.Prelude.Dict
use evo_ci.Prelude.{
  join_with, String, Option, none, some, List, [], ◌∷◌, ◌++◌, Bool, true, false, not, ◌&&◌, ◌==◌,
  if◌then◌else◌, Outcome, ok, raise, Raised, ◌>>=◌, capability_registry_error, is_empty, is_some,
  or_else, or_string, keep, ◌⧺◌,
}
use evo_ci.Capability.Models.{SkillManifest, SkillCandidate, RegisteredSkill, SkillStats}
use evo_ci.Capability.Registry.{
  Package, SkillRoot, SkillRow, for_skill, Registry, Host, Call, get, keyed, note_operation, prior,
}
use evo_ci.Capability.Registry.Moves.{Faults, Moves, renamed, moves, put_back, prepare, clear}
use evo_ci.Capability.Registry.Staging.{Kept, kept_none, kept_of, write_staging}

unfoldable pub fts_content : SkillCandidate → String
fts_content c = join_with " " (c.name ∷ c.description ∷ (c.triggers ++ c.task_families))

abbrev new_stats : String → SkillStats
new_stats now = record {
  retrieval_count = 0;
  selected_count = 0;
  use_count = 0;
  success_count = 0;
  failure_count = 0;
  patch_count = 0;
  created_at = now;
  updated_at = now;
  last_used_at = none;
}

abbrev stats_after : String → Option SkillStats → SkillStats
stats_after now none = new_stats now
stats_after now (some s) = record s { updated_at = now }

-- The rows that the transaction leaves.
unfoldable pub with_rows :
    Host → SkillManifest → SkillCandidate → Option String → Registry → Registry
with_rows h m c key r = note_operation key (for_skill m.skill_id) (record r {
  skills =
      Dict.insert m.skill_id
        (record { enabled = m.enabled; manifest = m; package_path = h.path_of m.skill_id })
        r.skills;
  fts = keep (λ row. not (row.0 == m.skill_id)) r.fts ++ (m.skill_id, fts_content c) ∷ [];
  skill_stats =
      Dict.insert m.skill_id (stats_after h.now (Dict.lookup m.skill_id r.skill_stats))
        r.skill_stats;
})

unfoldable pub upsert_rows :
    Host
    → Option Raised
    → SkillManifest
    → SkillCandidate
    → Option String
    → Registry
    → Call (Unit {0})
upsert_rows h (some e) m c key r = (r, raise e)
upsert_rows h none m c key r = (with_rows h m c key r, ok tt)

abbrev pub set_root : String → SkillRoot → Registry → Registry
set_root id d r = record r { root = λ j. if j == id then d else r.root j }

abbrev pub skill_of : Host → SkillManifest → RegisteredSkill
skill_of h m = record { manifest = m; package_path = h.path_of m.skill_id }

-- The exception that goes on after a recovery: its own, if it raised.
abbrev pub gone_on :
    String → Registry → Raised → SkillRoot × Outcome (Unit {0}) → Call RegisteredSkill
gone_on id r e (d, raise y) = (set_root id d r, raise y)
gone_on id r e (d, ok u) = (set_root id d r, raise e)

abbrev pub committed_update :
    Host
    → Faults
    → String
    → SkillManifest
    → SkillRoot
    → Registry
    → Call (Unit {0})
    → Call RegisteredSkill
committed_update h f id m d r (r', raise e) = gone_on id r e (put_back f true d)
committed_update h f id m d r (r', ok u) =
    (set_root id (record d { old_previous = none }) r', ok (skill_of h m))

abbrev pub moved_update :
    Host
    → Faults
    → String
    → SkillManifest
    → SkillCandidate
    → Option String
    → Registry
    → Moves
    → Call RegisteredSkill
moved_update h f id m c key r (d, moved, raise e) = gone_on id r e (put_back f moved d)
moved_update h f id m c key r (d, moved, ok u) =
    committed_update h f id m d r (upsert_rows h f.transaction m c key r)

abbrev pub update_if_readonly :
    Host
    → Faults
    → String
    → Package × SkillManifest
    → SkillCandidate
    → Option String
    → Registry
    → Option Raised
    → Call RegisteredSkill
update_if_readonly h f id (staged, m) c key r (some e) = (r, raise e)
update_if_readonly h f id (staged, m) c key r none =
    moved_update h f id m c key r (moves f staged (r.root id))

unfoldable pub install_update :
    Host
    → Faults
    → String
    → Package × SkillManifest
    → SkillCandidate
    → Option String
    → Registry
    → Call RegisteredSkill
install_update h f id (staged, m) c key r =
    if is_some ((r.root id).current)
    then update_if_readonly h f id (staged, m) c key r f.make_readonly
    else (r, raise (capability_registry_error ("current package missing for " ⧺ id)))

abbrev pub committed_new :
    Host
    → Faults
    → String
    → SkillManifest
    → Registry
    → SkillRoot
    → Call (Unit {0})
    → Call RegisteredSkill
committed_new h f id m r d (r', raise e) = gone_on id r e (clear f (r.root id) d)
committed_new h f id m r d (r', ok u) = (set_root id d r', ok (skill_of h m))

abbrev pub moved_new :
    Host
    → Faults
    → String
    → SkillManifest
    → SkillCandidate
    → Option String
    → Registry
    → SkillRoot × Outcome (Unit {0})
    → Call RegisteredSkill
moved_new h f id m c key r (d, raise e) = gone_on id r e (clear f (r.root id) d)
moved_new h f id m c key r (d, ok u) =
    committed_new h f id m r d (upsert_rows h f.transaction m c key r)

abbrev pub new_if_prepared :
    Host
    → Faults
    → String
    → Package × SkillManifest
    → SkillCandidate
    → Option String
    → Registry
    → SkillRoot × Outcome (Unit {0})
    → Call RegisteredSkill
new_if_prepared h f id (staged, m) c key r (d, raise e) = (set_root id d r, raise e)
new_if_prepared h f id (staged, m) c key r (d, ok u) =
    moved_new h f id m c key r (renamed f.move_staging (record d { current = some staged }) d)

unfoldable pub install_new :
    Host
    → Faults
    → String
    → Package × SkillManifest
    → SkillCandidate
    → Option String
    → Registry
    → Call RegisteredSkill
install_new h f id (staged, m) c key r =
    if is_some ((r.root id).current)
    then (r, raise (capability_registry_error ("skill package already exists: " ⧺ h.path_of id)))
    else new_if_prepared h f id (staged, m) c key r (prepare f (r.root id))

abbrev pub validated :
    Host
    → Registry
    → (Package × SkillManifest → Call RegisteredSkill)
    → Outcome (Package × SkillManifest)
    → Call RegisteredSkill
validated h r install (raise e) = (r, raise e)
validated h r install (ok (staged, m)) =
    if is_empty (h.validate staged m) then install (staged, m) else (
      r,
      raise (
          capability_registry_error
            ("skill validation failed: " ⧺ join_with "; " (h.validate staged m))),
    )

-- A call whose key was used before gives the skill of that call, and does nothing else.
abbrev pub unless_prior :
    Registry → Option (Outcome RegisteredSkill) → Call RegisteredSkill → Call RegisteredSkill
unless_prior r none call = call
unless_prior r (some result) call = (r, result)

abbrev pub create_as :
    Host
    → Faults
    → SkillCandidate
    → Option String
    → Registry
    → Outcome String
    → Call RegisteredSkill
create_as h f c key r (raise e) = (r, raise e)
create_as h f c key r (ok id) =
    if is_some (get r id)
    then (r, raise (capability_registry_error ("skill already exists: " ⧺ id)))
    else validated h r (λ staged. install_new h f id staged c key r)
        (write_staging h c id kept_none)

-- `create_skill`
unfoldable pub create_skill :
    Host → Faults → SkillCandidate → Option String → Option String → Registry → Call RegisteredSkill
create_skill h f c id key r =
    unless_prior r (prior r (keyed key))
      (create_as h f c (keyed key) r (h.slug (or_string id c.name)))

abbrev pub update_of :
    Host
    → Faults
    → String
    → SkillCandidate
    → Option String
    → Registry
    → Option RegisteredSkill
    → Call RegisteredSkill
update_of h f id c key r none = (r, raise (capability_registry_error ("unknown skill: " ⧺ id)))
update_of h f id c key r (some current) =
    validated h r (λ staged. install_update h f id staged c key r)
      (write_staging h c id (kept_of current c))

-- `update_skill`
unfoldable pub update_skill :
    Host → Faults → String → SkillCandidate → Option String → Registry → Call RegisteredSkill
update_skill h f id c key r =
    unless_prior r (prior r (keyed key)) (update_of h f id c (keyed key) r (get r id))
