-- ===== src/Capability/Registry/Install/Whole.antt =====
-- A call of `create_skill` or `update_skill` of src/evoci/capability/registry.py, from its first test to its end.
use mathlib.Core.Path.{subst}
use evo_ci.Prelude.{
  ◌≡◌, refl, ap, String, Option, none, some, List, [], ◌∷◌, Bool, true, false, Outcome, ok, raise,
  Raised, arith, is_some, is_empty, eq_refl, if-either,
}
use evo_ci.Capability.Models.{SkillManifest, SkillCandidate, RegisteredSkill}
use evo_ci.Capability.Registry.{Package, SkillRoot, Registry, Host, Call, get, keyed, prior}
use evo_ci.Capability.Registry.Staging.{write_staging, kept_of}
use evo_ci.Capability.Registry.Moves.{Faults, moves, Moves, put_back}
use evo_ci.Capability.Registry.Install.{
  set_root, upsert_rows, with_rows, committed_update, moved_update, update_if_readonly,
  install_update, validated, update_skill, skill_of,
}
use evo_ci.Capability.Registry.Install.Atomic.{
  Recovers, Restores, moves-Restores, Returned, write_staging-Returned, Installed, Atomically, same,
  gone_on-Atomically, with_rows-get,
}

empty_list {ℓ} : {A : Type ℓ} (xs : List A) → is_empty xs ≡ true → xs ≡ []
empty_list [] h = refl
empty_list (x ∷ xs) h = ground arith

-- The rows and the directory that a successful call leaves.
pub placed :
    (h : Host) (id : String) (m : SkillManifest) (c : SkillCandidate) (key : Option String)
    (r : Registry) (staged : Package) (d : SkillRoot) (before : Option Package)
    → h.validate staged m ≡ []
    → m.skill_id ≡ id
    → d.current ≡ some staged
    → d.previous ≡ before
    → Installed h id m.enabled before r (set_root id d (with_rows h m c key r)) (skill_of h m)
unfolding get
placed h id m c key r staged d before valid named now was =
    let (found, roots) = with_rows-get h m c key r in
    (
      staged,
      valid,
      named,
      refl,
      subst (λ k. get (with_rows h m c key r) k ≡ some (skill_of h m)) named found,
      rw (eq_refl id) now,
      rw (eq_refl id) was,
      λ j other. rw other (ap (λ f. f j) roots),
    )

committed_update-Atomically :
    (h : Host) (f : Faults) (t : Option Raised) (id : String) (m : SkillManifest)
    (c : SkillCandidate) (key : Option String) (r : Registry) (staged : Package) (d : SkillRoot)
    → h.validate staged m ≡ []
    → m.skill_id ≡ id
    → (Recovers f → put_back f true d ≡ (r.root id, ok tt))
    → d.current ≡ some staged
    → d.previous ≡ (r.root id).current
    → Atomically
        (Recovers f)
        h
        id
        m.enabled
        (r.root id).current
        r
        (committed_update h f id m d r (upsert_rows h t m c key r))
unfolding upsert_rows
committed_update-Atomically h f (some e) id m c key r staged d valid named back now was =
    gone_on-Atomically (Recovers f) h id m.enabled (r.root id).current r e (put_back f true d) back
committed_update-Atomically h f none id m c key r staged d valid named back now was =
    placed h id m c key r staged (record d { old_previous = none }) (r.root id).current valid named
      now was

moved_update-Atomically :
    (h : Host) (f : Faults) (id : String) (m : SkillManifest) (c : SkillCandidate)
    (key : Option String) (r : Registry) (staged : Package) (x : Moves)
    → h.validate staged m ≡ []
    → m.skill_id ≡ id
    → Restores f staged (r.root id) x
    → Atomically (Recovers f) h id m.enabled (r.root id).current r (moved_update h f id m c key r x)
moved_update-Atomically h f id m c key r staged (d, moved, raise e) valid named back =
    gone_on-Atomically (Recovers f) h id m.enabled (r.root id).current r e (put_back f moved d) back
moved_update-Atomically h f id m c key r staged (d, moved, ok u) valid named (back, is) =
    committed_update-Atomically h f f.transaction id m c key r staged d valid named back
      (ap (λ (x : SkillRoot). x.current) is) (ap (λ (x : SkillRoot). x.previous) is)

update_if_readonly-Atomically :
    (h : Host) (f : Faults) (id : String) (m : SkillManifest) (c : SkillCandidate)
    (key : Option String) (r : Registry) (staged : Package) (o : Option Raised)
    → is_some (r.root id).current ≡ true
    → is_some (r.root id).old_previous ≡ false
    → h.validate staged m ≡ []
    → m.skill_id ≡ id
    → Atomically
        (Recovers f)
        h
        id
        m.enabled
        (r.root id).current
        r
        (update_if_readonly h f id (staged, m) c key r o)
update_if_readonly-Atomically h f id m c key r staged (some e) there clean valid named =
    same (Recovers f) id r
update_if_readonly-Atomically h f id m c key r staged none there clean valid named =
    moved_update-Atomically h f id m c key r staged (moves f staged (r.root id)) valid named
      (moves-Restores f staged (r.root id) there clean)

install_update-Atomically :
    (h : Host) (f : Faults) (id : String) (m : SkillManifest) (c : SkillCandidate)
    (key : Option String) (r : Registry) (staged : Package)
    → is_some (r.root id).old_previous ≡ false
    → h.validate staged m ≡ []
    → m.skill_id ≡ id
    → Atomically
        (Recovers f)
        h
        id
        m.enabled
        (r.root id).current
        r
        (install_update h f id (staged, m) c key r)
unfolding install_update
install_update-Atomically h f id m c key r staged clean valid named =
    if-either (Atomically (Recovers f) h id m.enabled (r.root id).current r)
      (is_some (r.root id).current) _ _
      (λ there.
        update_if_readonly-Atomically h f id m c key r staged f.make_readonly there clean valid
          named)
      (λ absent. same (Recovers f) id r)

-- The package is written and validated before it is installed.
pub validated-Atomically :
    (condition : Type 0) (h : Host) (id : String) (enabled : Bool) (before : Option Package)
    (r : Registry) (install : Package × SkillManifest → Call RegisteredSkill)
    (o : Outcome (Package × SkillManifest))
    → Returned (λ (x : Package × SkillManifest). (x.1.skill_id ≡ id) × (x.1.enabled ≡ enabled)) o
    → ((staged : Package) (m : SkillManifest)
        → h.validate staged m ≡ []
        → m.skill_id ≡ id
        → Atomically condition h id m.enabled before r (install (staged, m)))
    → Atomically condition h id enabled before r (validated h r install o)
validated-Atomically condition h id enabled before r install (raise e) x k = same condition id r
validated-Atomically condition h id enabled before r install (ok (staged, m)) (named, is) k =
    if-either (Atomically condition h id enabled before r) (is_empty (h.validate staged m)) _ _
      (λ valid.
        subst (λ b. Atomically condition h id b before r (install (staged, m))) is
          (k staged m (empty_list (h.validate staged m) valid) named))
      (λ invalid. same condition id r)

-- Updating a skill under a new key: it raises, wherever the file system or SQLite fails, and then no row has
-- changed, no other directory has, and the skill's own neither, unless the recovery itself fails; or the new
-- package, which the validator passed, is in place, the package before it is kept as the previous one, the row
-- names the new manifest, whether the skill is enabled stays, and no other directory has changed.
pub update_skill-Atomically :
    (h : Host) (f : Faults) (id : String) (c : SkillCandidate) (key : Option String) (r : Registry)
    (current : RegisteredSkill)
    → is_some (r.root id).old_previous ≡ false
    → prior r (keyed key) ≡ none
    → get r id ≡ some current
    → Atomically
        (Recovers f)
        h
        id
        current.manifest.enabled
        (r.root id).current
        r
        (update_skill h f id c key r)
unfolding update_skill kept_of
update_skill-Atomically h f id c key r current clean fresh found =
    rw (fresh, found)
      (validated-Atomically (Recovers f) h id current.manifest.enabled (r.root id).current r
        (λ staged. install_update h f id staged c (keyed key) r)
        (write_staging h c id (kept_of current c))
        (write_staging-Returned h c id (kept_of current c))
        (λ staged m valid named.
          install_update-Atomically h f id m c (keyed key) r staged clean valid named))
