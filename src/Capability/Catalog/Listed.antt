-- ===== src/Capability/Catalog/Listed.antt =====
-- Which skills the catalog of src/evoci/capability/retrieval.py lists, and which it omits.
use evo_ci.Prelude.{
  ℕ, suc, ◌+◌, ◌≡◌, refl, sym, ◌∙◌, ap, String, Option, List, [], ◌∷◌, ◌++◌, Bool, true, arith,
  ◌||◌, ◌==◌, length, map, keep, is_empty, contains, contains-append,
}
use evo_ci.Prelude.Sorted.{sorted_set-contains}
use evo_ci.Capability.Registry.{Registry, SkillRow, enabled_ids, list_enabled}
use evo_ci.Capability.Catalog.{
  SkillCatalogEntry, total, fit_catalog, entry_of, place, ranked, skill_ids, retrieve,
}
use evo_ci.Capability.Catalog.Fit.{Fits, fit_catalog-Holds}

place-contains :
    (before : SkillCatalogEntry → SkillCatalogEntry → Bool) (e : SkillCatalogEntry)
    (es : List SkillCatalogEntry) (id : String)
    → contains (skill_ids (place before e es)) id ≡ (e.skill_id == id || contains (skill_ids es) id)
place-contains before e [] id = refl
place-contains before e (f ∷ fs) id = ground (arith, place-contains before e fs id)

ranked-contains :
    (before : SkillCatalogEntry → SkillCatalogEntry → Bool) (es : List SkillCatalogEntry)
    (id : String)
    → contains (skill_ids (ranked before es)) id ≡ contains (skill_ids es) id
ranked-contains before [] id = refl
ranked-contains before (e ∷ es) id =
    place-contains before e (ranked before es) id
    ∙ ap (λ b. e.skill_id == id || b) (ranked-contains before es id)

skill_ids-entry_of :
    (rows : List (String × SkillRow)) → skill_ids (map entry_of rows) ≡ map (λ row. row.0) rows
skill_ids-entry_of [] = refl
skill_ids-entry_of ((id, row) ∷ rows) = ap (λ xs. id ∷ xs) (skill_ids-entry_of rows)

length-place :
    (before : SkillCatalogEntry → SkillCatalogEntry → Bool) (e : SkillCatalogEntry)
    (es : List SkillCatalogEntry)
    → length (place before e es) ≡ suc (length es)
length-place before e [] = refl
length-place before e (f ∷ fs) = ground (arith, length-place before e fs)

length-ranked :
    (before : SkillCatalogEntry → SkillCatalogEntry → Bool) (rows : List (String × SkillRow))
    → length (ranked before (map entry_of rows)) ≡ length (map (λ row. row.0) rows)
length-ranked before [] = refl
length-ranked before (row ∷ rows) = omega (
  arith,
  length-place before (entry_of row) (ranked before (map entry_of rows)),
  length-ranked before rows,
)

no_entries :
    (ids : List String) (es : List SkillCatalogEntry)
    → length es ≡ length ids
    → is_empty es ≡ true
    → ids ≡ []
no_entries [] es h empty = refl
no_entries (id ∷ ids) [] h empty = ground (arith, h)
no_entries (id ∷ ids) (e ∷ es) h empty = ground (arith, empty)

-- The catalog that a run gets: its skills are enabled, and are the first of the ranking; every other enabled
-- skill is counted as omitted; the characters told are those of its entries, and are within the limit, except for
-- one entry alone that has lost its description; and it is empty only if no skill is enabled.
pub retrieve-Fits :
    (before : SkillCatalogEntry → SkillCatalogEntry → Bool) (limit : ℕ) (key : Option String)
    (now : String) (r : Registry)
    → let catalog = (retrieve before limit key now r).1 in
      ((id : String)
        → contains (skill_ids catalog.entries) id ≡ true
        → contains (list_enabled r) id ≡ true)
      × ((rest : List String) × (skill_ids
              (ranked before (map entry_of (keep (λ row. row.1.enabled) r.skills)))
            ≡ skill_ids catalog.entries ++ rest))
      × (length catalog.entries + catalog.omitted_count ≡ length (enabled_ids r.skills))
      × (catalog.context_chars ≡ total catalog.entries)
      × Fits limit catalog.entries
      × (is_empty catalog.entries ≡ true → enabled_ids r.skills ≡ [])
unfolding retrieve list_enabled
retrieve-Fits before limit key now r =
    let rows = keep (λ (row : String × SkillRow). row.1.enabled) r.skills in
    let ranking = ranked before (map entry_of rows) in
    let catalog = fit_catalog ranking limit in
    let ((rest, is), count, same, chars, fits) = fit_catalog-Holds limit ranking in
    let known : (id : String) → contains (skill_ids ranking) id ≡ contains (list_enabled r) id =
      λ id.
        ranked-contains before (map entry_of rows) id
        ∙ ap (λ xs. contains xs id) (skill_ids-entry_of rows)
        ∙ sym (sorted_set-contains id (enabled_ids r.skills)) in
    (
      (λ id listed.
          sym (known id)
          ∙ ap (λ xs. contains xs id) is
          ∙ contains-append (skill_ids catalog.entries) rest id
          ∙ ap (λ b. b || contains rest id) listed),
      (rest, is),
      count ∙ length-ranked before rows,
      chars,
      fits,
      λ empty.
          no_entries (enabled_ids r.skills) ranking (length-ranked before rows) (sym same ∙ empty),
    )
