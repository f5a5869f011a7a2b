-- ===== src/Capability/Catalog.antt =====
-- src/evoci/capability/retrieval.py: the catalog of enabled skills that a run gets, within its characters. Which
-- of two entries ranks before the other is an argument; names and descriptions are held as their codes.
pub mod Fit
pub mod Listed
mod Samples
use mathlib.Core.List.{reverse}
use evo_ci.Prelude.{
  ℕ, zero, suc, ◌+◌, ◌-◌, String, Option, none, some, List, [], ◌∷◌, ◌++◌, Bool, true, false, ◌&&◌,
  ◌==◌, leb, ltb, if◌then◌else◌, length, map, keep, is_empty,
}
use evo_ci.Tools.Paths.{codes, is_space}
use evo_ci.Capability.Registry.{Registry, SkillRow}
use evo_ci.Capability.Registry.Counts.{record_retrieval}

pub record SkillCatalogEntry : Type 0 where
  pub skill_id : String
  pub name : List ℕ
  pub description : List ℕ

pub record SkillCatalog : Type 0 where
  pub entries : List SkillCatalogEntry
  pub omitted_count : ℕ
  pub context_chars : ℕ

-- `text.rstrip()`
unfoldable pub rstrip_codes : List ℕ → List ℕ
rstrip_codes [] = []
rstrip_codes (c ∷ cs) =
    let rest = rstrip_codes cs in if is_space c && is_empty rest then [] else c ∷ rest

-- `text[:n]`
unfoldable pub prefix : ℕ → List ℕ → List ℕ
prefix n [] = []
prefix zero (c ∷ cs) = []
prefix (suc n) (c ∷ cs) = c ∷ prefix n cs

abbrev pub ellipsis : List ℕ
ellipsis = 8230 ∷ []

unfoldable pub truncate : List ℕ → ℕ → List ℕ
truncate text limit =
    if leb limit 0
    then []
    else if leb (length text) limit
    then text
    else if leb limit 1
    then ellipsis
    else rstrip_codes (prefix (limit - 1) text) ++ ellipsis

abbrev pub entry_chars : SkillCatalogEntry → ℕ
entry_chars e = length (codes e.skill_id) + length e.name + length e.description

abbrev pub total : List SkillCatalogEntry → ℕ
total [] = 0
total (e ∷ es) = entry_chars e + total es

abbrev pub max_description_chars : ℕ
max_description_chars = 400

abbrev pub capped : SkillCatalogEntry → SkillCatalogEntry
capped e = record e {
  description =
      if ltb max_description_chars (length e.description)
      then truncate e.description max_description_chars
      else e.description;
}

abbrev pub shortened : ℕ → SkillCatalogEntry → SkillCatalogEntry
shortened limit only = record only {
  description = truncate only.description (limit - length (codes only.skill_id) - length only.name);
}

-- The loop: `fitted` has its last entry first, so that `pop` takes the head.
unfoldable pub pop_while : ℕ → ℕ → List SkillCatalogEntry → List SkillCatalogEntry × ℕ
pop_while limit omitted [] = ([], omitted)
pop_while limit omitted (only ∷ []) =
    if leb (total (only ∷ [])) limit
    then (only ∷ [], omitted)
    else (shortened limit only ∷ [], omitted)
pop_while limit omitted (e ∷ f ∷ es) =
    let rest = pop_while limit (omitted + 1) (f ∷ es) in
    if leb (total (e ∷ f ∷ es)) limit then (e ∷ f ∷ es, omitted) else rest

unfoldable pub fit_catalog : List SkillCatalogEntry → ℕ → SkillCatalog
fit_catalog entries limit =
    let (fitted, omitted) = pop_while limit 0 (reverse (map capped entries)) in
    record {
      entries = reverse fitted;
      omitted_count = omitted;
      context_chars = total (reverse fitted);
    }

-- `str(manifest.get("name") or skill_id)`
abbrev pub entry_of : String × SkillRow → SkillCatalogEntry
entry_of (id, row) = record {
  skill_id = id;
  name = codes (if row.manifest.name == "" then id else row.manifest.name);
  description = codes row.manifest.description;
}

abbrev pub place :
    (SkillCatalogEntry → SkillCatalogEntry → Bool)
    → SkillCatalogEntry
    → List SkillCatalogEntry
    → List SkillCatalogEntry
place before e [] = e ∷ []
place before e (f ∷ fs) =
    let rest = place before e fs in if before f e then f ∷ rest else e ∷ f ∷ fs

-- `ranked.sort(…)`
abbrev pub ranked :
    (SkillCatalogEntry → SkillCatalogEntry → Bool) → List SkillCatalogEntry → List SkillCatalogEntry
ranked before [] = []
ranked before (e ∷ es) = place before e (ranked before es)

abbrev pub skill_ids : List SkillCatalogEntry → List String
skill_ids es = map (λ e. e.skill_id) es

unfoldable pub retrieve :
    (SkillCatalogEntry → SkillCatalogEntry → Bool)
    → ℕ
    → Option String
    → String
    → Registry
    → Registry × SkillCatalog
retrieve before limit key now r =
    let entries = ranked before (map entry_of (keep (λ row. row.1.enabled) r.skills)) in
    let catalog = fit_catalog entries limit in
    ((record_retrieval (skill_ids catalog.entries) false key now r).0, catalog)
