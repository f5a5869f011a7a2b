-- ===== src/Capability/Catalog/Samples.antt =====
-- A registry with three skills, of which two are enabled, and a catalog that has room for one.
use evo_ci.Prelude.{
  ◌+◌, ◌≡◌, refl, String, none, List, [], ◌∷◌, ◌++◌, Bool, true, false, ltb, length, is_empty,
  contains, keep, map,
}
use evo_ci.Capability.Models.{SkillManifest, SkillPermissions}
use evo_ci.Capability.Registry.{Registry, SkillRow, enabled_ids, list_enabled}
use evo_ci.Capability.Registry.Moves.{no_root}
use evo_ci.Capability.Catalog.{
  SkillCatalogEntry, total, entry_of, ranked, skill_ids, retrieve, truncate, fit_catalog, pop_while,
}
use evo_ci.Capability.Catalog.Fit.{Fits}
use evo_ci.Capability.Catalog.Listed.{retrieve-Fits}

abbrev permissions : SkillPermissions
permissions = record {
  read_workspace = true;
  write_workspace = false;
  execute = true;
  network = false;
}

abbrev manifest : String → SkillManifest
manifest id = record {
  skill_id = id;
  name = id;
  description = "a rule";
  triggers = [];
  task_families = [];
  permissions = permissions;
  source_run_ids = [];
  enabled = true;
  files = [];
  created_at = "t";
  updated_at = "t";
}

abbrev row : Bool → String → String × SkillRow
row enabled id = (id, record { enabled = enabled; manifest = manifest id; package_path = id })

abbrev registry : Registry
registry = record {
  skills = row true "lint" ∷ row false "old" ∷ row true "format" ∷ [];
  fts = [];
  skill_stats = [];
  operations = [];
  root = λ id. no_root;
}

-- Shorter names rank first.
abbrev shorter : SkillCatalogEntry → SkillCatalogEntry → Bool
shorter e f = ltb (length e.name) (length f.name)

listed : skill_ids ((retrieve shorter 20 none "t" registry).1).entries ≡ "lint" ∷ []
unfolding retrieve fit_catalog pop_while truncate
listed = refl

-- A limit that the id and the name alone exceed.
cut_short : ((retrieve shorter 5 none "t" registry).1).context_chars ≡ 8
unfolding retrieve fit_catalog pop_while truncate
cut_short = refl

retrieve-Fits_example :
    let catalog = (retrieve shorter 20 none "t" registry).1 in
    ((id : String)
      → contains (skill_ids catalog.entries) id ≡ true
      → contains (list_enabled registry) id ≡ true)
    × ((rest : List String) × (skill_ids
            (ranked shorter (map entry_of (keep (λ row. row.1.enabled) registry.skills)))
          ≡ skill_ids catalog.entries ++ rest))
    × (length catalog.entries + catalog.omitted_count ≡ length (enabled_ids registry.skills))
    × (catalog.context_chars ≡ total catalog.entries)
    × Fits 20 catalog.entries
    × (is_empty catalog.entries ≡ true → enabled_ids registry.skills ≡ [])
retrieve-Fits_example = retrieve-Fits shorter 20 none "t" registry
