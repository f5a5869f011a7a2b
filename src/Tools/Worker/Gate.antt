-- ===== src/Tools/Worker/Gate.antt =====
-- What a worker of src/evoci/tools/registry.py can read of a skill, and when.
use evo_ci.Prelude.{
  ℕ, ◌≡◌, refl, sym, ◌∙◌, ap, String, Option, none, some, Bool, true, false, not, ◌==◌, Outcome, ok,
  raise, Raised, ◌>>◌, raise_if, >>=-ok, ok_inj, arith, contains, if-either, eq_iff, ◌||◌,
  contains_eq, inl, inr, ◌⊎◌,
}
use evo_ci.Tools.Paths.{codes}
use evo_ci.Tools.Registry.Changes.{add-contains}
use evo_ci.Capability.Models.{RegisteredSkill}
use evo_ci.Capability.Registry.{get}
use evo_ci.Agents.ToolLoop.Pages.{take, drop}
use evo_ci.Tools.Worker.{
  Worker, WorkerState, require_available, require_activated, enabled_skill, found_skill,
  package_file, declared, is_declared, checked_file, load_skill, load_found, load_listed, activate,
  LoadResult, Resource, read_skill_resource, recorded, loaded_skill, activated_state,
}

raise_if-ok : (b : Bool) (e : Raised) (u : Unit {0}) → raise_if b e ≡ ok u → b ≡ false
raise_if-ok true e u h = ground arith
raise_if-ok false e u h = refl

known_skill :
    (id reason : String) (o : Option RegisteredSkill) (skill : RegisteredSkill)
    → found_skill id reason o ≡ ok skill
    → (o ≡ some skill) × (skill.manifest.enabled ≡ true)
known_skill id reason none skill h = ground arith
known_skill id reason (some x) skill h =
    let (u, rest, allowed) = >>=-ok (raise_if (not x.manifest.enabled) _) _ h in
    let is = ok_inj x skill rest in
    (ap some is, rw⁻¹ is (ground (arith, raise_if-ok (not x.manifest.enabled) _ u allowed)))

-- The digest of a declared file's text is the declared one, and the text is what the package holds.
abbrev pub Intact : Worker → WorkerState → RegisteredSkill → String → String → Type 0
Intact w s skill path content =
    (declared path skill.manifest.files ≡ some (w.sha256 content))
    × (package_file ((s.skills.root skill.manifest.skill_id).current) path ≡ ok content)

listed_sha :
    (reason sha : String) (o : Option String) → is_declared reason o ≡ ok sha → o ≡ some sha
listed_sha reason sha none h = ground arith
listed_sha reason sha (some x) h = ap some (ok_inj x sha h)

checked :
    (w : Worker) (s : WorkerState) (skill : RegisteredSkill) (path reason content : String)
    → checked_file w s skill path reason ≡ ok content
    → Intact w s skill path content
unfolding checked_file
checked w s skill path reason content h =
    let (sha, next, listed) =
      >>=-ok (is_declared reason (declared path skill.manifest.files)) _ h in
    let (text, last, found) =
      >>=-ok (package_file ((s.skills.root skill.manifest.skill_id).current) path) _ next in
    let (u, same, intact) = >>=-ok (raise_if (not (w.sha256 text == sha)) _) _ last in
    let text_is : text ≡ content = ok_inj text content same in
    let digest : w.sha256 text ≡ sha =
      (eq_iff (w.sha256 text) sha).0
        (ground (arith, raise_if-ok (not (w.sha256 text == sha)) _ u intact)) in
    (
      listed_sha reason sha (declared path skill.manifest.files) listed
          ∙ ap some (sym digest ∙ ap w.sha256 text_is),
      found ∙ ap ok text_is,
    )

activated_only :
    (id : String) (s : WorkerState) (u : Unit {0})
    → require_activated id s ≡ ok u
    → (contains s.available_skill_ids id ≡ true) × (contains s.activated_skill_ids id ≡ true)
unfolding require_activated require_available
activated_only id s u h =
    let (v, rest, first_ok) = >>=-ok (raise_if (not (contains s.available_skill_ids id)) _) _ h in
    (
      ground (arith, raise_if-ok (not (contains s.available_skill_ids id)) _ v first_ok),
      ground (arith, raise_if-ok (not (contains s.activated_skill_ids id)) _ u rest),
    )

-- A resource is only read of a skill of the worker's catalog that was loaded before, and that is still
-- enabled; the file is declared in its manifest, its digest is the declared one, and what is shown is the part
-- of its text that was asked for.
pub read_skill_resource-guarded :
    (w : Worker) (id path : String) (offset limit : ℕ) (s : WorkerState) (x : Resource)
    → read_skill_resource w id path offset limit s ≡ ok x
    → (contains s.available_skill_ids id ≡ true)
      × (contains s.activated_skill_ids id ≡ true)
      × ((skill : RegisteredSkill) × (get s.skills id ≡ some skill)
          × (skill.manifest.enabled ≡ true)
          × ((content : String) × Intact w s skill path content
              × (x.content ≡ take limit (drop offset (codes content)))))
unfolding read_skill_resource enabled_skill
read_skill_resource-guarded w id path offset limit s x h =
    let (skill, next, entered) =
      >>=-ok
        (require_activated id s
          >> found_skill id "only enabled skill resources may be read" (get s.skills id))
        _ h in
    let (u, known, active) = >>=-ok (require_activated id s) _ entered in
    let (content, shown, read) =
      >>=-ok (checked_file w s skill path "resource is not declared in the skill manifest") _
        next in
    let (available, activated) = activated_only id s u active in
    let (found, enabled) =
      known_skill id "only enabled skill resources may be read" (get s.skills id) skill known in
    (
      available,
      activated,
      (
        skill,
        found,
        enabled,
        (
          content,
          checked w s skill path "resource is not declared in the skill manifest" content read,
          sym (ap (λ (y : Resource). y.content) (ok_inj _ x shown)),
        ),
      ),
    )

-- A load that raises changes nothing, but that the skill is activated if the record of the load is what raises;
-- one that returns was of a skill of the catalog, which is activated from then on, with every skill that was
-- activated before, and no other.
abbrev pub Loads : Option Raised → String → WorkerState → WorkerState × Outcome LoadResult → Type 0
Loads locked id s (s', raise e) =
    (s' ≡ s)
    ⊎ ((locked ≡ some e)
        × (contains s.available_skill_ids id ≡ true)
        × (contains s.activated_skill_ids id ≡ false)
        × (s' ≡ activated_state id s))
Loads locked id s (s', ok x) =
    (contains s.available_skill_ids id ≡ true)
    × (s'.available_skill_ids ≡ s.available_skill_ids)
    × ((j : String)
        → contains s'.activated_skill_ids j ≡ (contains s.activated_skill_ids j || id == j))

module _ (w : Worker) (locked : Option Raised) (id now : String) (s : WorkerState) where
  recorded-Loads :
      (x : LoadResult) (o : Option Raised)
      → contains s.available_skill_ids id ≡ true
      → contains s.activated_skill_ids id ≡ false
      → locked ≡ o
      → Loads locked id s (recorded id now s x o)
  recorded-Loads x (some e) there new is = inr (is, there, new, refl)
  recorded-Loads x none there new is = (there, refl, λ j. add-contains id s.activated_skill_ids j)

  activate-Loads :
      (skill : RegisteredSkill) (o : Outcome String)
      → contains s.available_skill_ids id ≡ true
      → contains s.activated_skill_ids id ≡ false
      → Loads locked id s (activate locked id now s skill o)
  activate-Loads skill (raise e) there new = inl refl
  activate-Loads skill (ok content) there new =
      recorded-Loads (loaded_skill s id skill content) locked there new refl

  load_found-Loads :
      (o : Outcome RegisteredSkill)
      → contains s.available_skill_ids id ≡ true
      → contains s.activated_skill_ids id ≡ false
      → Loads locked id s (load_found w locked id now s o)
  load_found-Loads (raise e) there new = inl refl
  load_found-Loads (ok skill) there new = activate-Loads skill _ there new

  load_listed-Loads :
      (o : Outcome (Unit {0}))
      → require_available id s ≡ o
      → Loads locked id s (load_listed w locked id now s o)
  unfolding require_available
  load_listed-Loads (raise e) h = inl refl
  load_listed-Loads (ok u) h =
      let there : contains s.available_skill_ids id ≡ true =
        ground (arith, raise_if-ok (not (contains s.available_skill_ids id)) _ u h) in
      if-either (Loads locked id s) (contains s.activated_skill_ids id) _ _
        (λ before.
          (there, refl, λ j. ground (arith, contains_eq s.activated_skill_ids id j, before)))
        (λ new. load_found-Loads _ there new)

-- Loading a skill: if it raises, nothing changes, except that where recording the load is what raises, a skill of
-- the catalog stays activated; if it returns, the skill is one of the catalog, and it is activated from then on,
-- as is every skill that was before, and no other.
pub load_skill-Loads :
    (w : Worker) (locked : Option Raised) (id now : String) (s : WorkerState)
    → Loads locked id s (load_skill w locked id now s)
unfolding load_skill
load_skill-Loads w locked id now s =
    load_listed-Loads w locked id now s (require_available id s) refl
