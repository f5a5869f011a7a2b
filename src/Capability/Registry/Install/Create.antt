-- ===== src/Capability/Registry/Install/Create.antt =====
-- A call of `create_skill` of src/evoci/capability/registry.py, from its first test to its end.
use evo_ci.Prelude.{
  ◌≡◌, refl, sym, ap, String, Option, none, some, List, [], Bool, true, false, Outcome, ok, raise,
  Raised, arith, is_some, if-either, or_string,
}
use evo_ci.Capability.Models.{SkillManifest, SkillCandidate, SkillMemoryEntry}
use evo_ci.Capability.Registry.{Package, SkillRoot, Registry, Host, get, keyed, prior}
use evo_ci.Capability.Registry.Staging.{write_staging, kept_none}
use evo_ci.Capability.Registry.Moves.{
  Faults, renamed, no_root, prepared_root, prepare, clear, written_root,
}
use evo_ci.Capability.Registry.Install.{
  upsert_rows, committed_new, moved_new, new_if_prepared, install_new, create_skill,
}
use evo_ci.Capability.Registry.Install.Atomic.{
  Recovers, write_staging-Returned, Atomically, same, put_root-Unchanged, gone_on-Atomically,
}
use evo_ci.Capability.Registry.Install.Whole.{placed, validated-Atomically}

-- A directory that is not there holds nothing.
abbrev pub IsRoot : SkillRoot → Type 0
IsRoot d = d.is_there ≡ false → d ≡ no_root

-- A creation can take back what it does: its preparation, which nothing takes back, does not fail.
abbrev pub TakesBack : Faults → Type 0
TakesBack f = (f.make_root ≡ none) × (f.write_memory ≡ none) × (f.make_readonly ≡ none) × Recovers f

-- The faults, but for those of the recovery of a creation.
abbrev taking_back : Faults → Option Package → Bool → Option Raised → Faults
taking_back f lp lr rm = record f { left_package = lp; left_root = lr; remove_memory = rm }

-- From a directory that has no package, the recovery brings back what was there before the preparation.
abbrev Clears : Faults → SkillRoot → Option Package → Option Package → Bool → Option Raised → Type 0
Clears f d current lp lr rm =
    clear (taking_back f lp lr rm) d (record (prepared_root d) { current = current }) ≡ (d, ok tt)

clears :
    (f : Faults) (there : Bool) (before previous old : Option Package)
    (memory : Option (List SkillMemoryEntry)) (current : Option Package)
    → is_some before ≡ false
    → let d : SkillRoot = record {
      is_there = there;
      current = before;
      previous = previous;
      old_previous = old;
      memory = memory;
    } in
      IsRoot d → Clears f d current none false none
unfolding clear
clears f there (some p) previous old memory current empty root = ground (arith, empty)
clears f true none previous old none current empty root = refl
clears f true none previous old (some es) current empty root = refl
clears f false none previous old none current empty root =
    ap (λ (x : SkillRoot). (x, ok tt)) (sym (root refl))
clears f false none previous old (some es) current empty root =
    ap (λ (x : SkillRoot). (x, ok tt)) (sym (root refl))

by_clear :
    (P : Option Package → Bool → Option Raised → Type 0) (x : Option Package) (y : Bool)
    (z : Option Raised)
    → P none false none
    → x ≡ none
    → y ≡ false
    → z ≡ none
    → P x y z
by_clear P x y z p hx hy hz = rw (hx, hy, hz) p

cleared :
    (f : Faults) (d : SkillRoot) (current : Option Package)
    → IsRoot d
    → is_some d.current ≡ false
    → Recovers f
    → clear f d (record (prepared_root d) { current = current }) ≡ (d, ok tt)
cleared f d current root empty (left, stays, cur, prev, mem) =
    by_clear (Clears f d current) f.left_package f.left_root f.remove_memory
      (clears f d.is_there d.current d.previous d.old_previous d.memory current empty root) left
      stays mem

committed_new-Atomically :
    (h : Host) (f : Faults) (t : Option Raised) (id : String) (m : SkillManifest)
    (c : SkillCandidate) (key : Option String) (r : Registry) (staged : Package)
    → IsRoot (r.root id)
    → is_some (r.root id).current ≡ false
    → h.validate staged m ≡ []
    → m.skill_id ≡ id
    → Atomically (TakesBack f) h id m.enabled (r.root id).previous r (
        committed_new h f id m r
          (record (prepared_root (r.root id)) { current = some staged })
          (upsert_rows h t m c key r))
unfolding upsert_rows
committed_new-Atomically h f (some e) id m c key r staged root empty valid named =
    gone_on-Atomically (TakesBack f) h id m.enabled (r.root id).previous r e _
      (λ (a, b, d, recovers). cleared f (r.root id) (some staged) root empty recovers)
committed_new-Atomically h f none id m c key r staged root empty valid named =
    placed h id m c key r staged (record (prepared_root (r.root id)) { current = some staged })
      (r.root id).previous valid named refl refl

moved_new-Atomically :
    (h : Host) (f : Faults) (t : Option Raised) (id : String) (m : SkillManifest)
    (c : SkillCandidate) (key : Option String) (r : Registry) (staged : Package)
    → IsRoot (r.root id)
    → is_some (r.root id).current ≡ false
    → h.validate staged m ≡ []
    → m.skill_id ≡ id
    → Atomically (TakesBack f) h id m.enabled (r.root id).previous r (
        moved_new h f id m c key r (
          renamed t
            (record (prepared_root (r.root id)) { current = some staged })
            (prepared_root (r.root id))))
moved_new-Atomically h f none id m c key r staged root empty valid named =
    committed_new-Atomically h f f.transaction id m c key r staged root empty valid named
moved_new-Atomically h f (some e) id m c key r staged root empty valid named =
    gone_on-Atomically (TakesBack f) h id m.enabled (r.root id).previous r e _
      (λ (a, b, d, recovers). cleared f (r.root id) (r.root id).current root empty recovers)

-- The preparation of a creation either leaves the prepared directory, or raises for a fault of its own.
abbrev Prepares : Faults → SkillRoot → SkillRoot × Outcome (Unit {0}) → Type 0
Prepares f d (x, ok u) = x ≡ prepared_root d
Prepares f d (x, raise e) = ¬ TakesBack f

prepare-Prepares : (f : Faults) (d : SkillRoot) → Prepares f d (prepare f d)
unfolding prepare
prepare-Prepares f d = by_faults f.make_root f.write_memory f.make_readonly refl refl refl
  where
    by_faults :
        (a b c : Option Raised)
        → f.make_root ≡ a
        → f.write_memory ≡ b
        → f.make_readonly ≡ c
        → Prepares f d (elim a [ some e ↦ (d, raise e) | none ↦ written_root b c d ])
    by_faults (some e) b c ha hb hc = λ (x, rest1, rest2, rest3). cc (x, ha)
    by_faults none none none ha hb hc = refl
    by_faults none none (some e) ha hb hc = λ (a, b, c, rest). cc (c, hc)
    by_faults none (some x) none ha hb hc =
        if-either (Prepares f d) (is_some d.memory) _ _ (λ there. refl)
          (λ absent (x, y, z, rest). cc (y, hb))
    by_faults none (some x) (some y) ha hb hc =
        if-either (Prepares f d) (is_some d.memory) _ _ (λ there (a, b, c, rest). cc (c, hc))
          (λ absent (x, y, z, rest). cc (y, hb))

new_if_prepared-Atomically :
    (h : Host) (f : Faults) (id : String) (m : SkillManifest) (c : SkillCandidate)
    (key : Option String) (r : Registry) (staged : Package) (x : SkillRoot × Outcome (Unit {0}))
    → IsRoot (r.root id)
    → is_some (r.root id).current ≡ false
    → h.validate staged m ≡ []
    → m.skill_id ≡ id
    → Prepares f (r.root id) x
    → Atomically
        (TakesBack f)
        h
        id
        m.enabled
        (r.root id).previous
        r
        (new_if_prepared h f id (staged, m) c key r x)
new_if_prepared-Atomically h f id m c key r staged (d, raise e) root empty valid named fails =
    put_root-Unchanged (TakesBack f) id d r (λ takes. absurd (fails takes))
new_if_prepared-Atomically h f id m c key r staged (d, ok u) root empty valid named is =
    rw is (moved_new-Atomically h f f.move_staging id m c key r staged root empty valid named)

install_new-Atomically :
    (h : Host) (f : Faults) (id : String) (m : SkillManifest) (c : SkillCandidate)
    (key : Option String) (r : Registry) (staged : Package)
    → IsRoot (r.root id)
    → h.validate staged m ≡ []
    → m.skill_id ≡ id
    → Atomically
        (TakesBack f)
        h
        id
        m.enabled
        (r.root id).previous
        r
        (install_new h f id (staged, m) c key r)
unfolding install_new
install_new-Atomically h f id m c key r staged root valid named =
    if-either (Atomically (TakesBack f) h id m.enabled (r.root id).previous r)
      (is_some (r.root id).current) _ _ (λ there. same (TakesBack f) id r)
      (λ absent.
        new_if_prepared-Atomically h f id m c key r staged (prepare f (r.root id)) root absent valid
          named (prepare-Prepares f (r.root id)))

-- Creating a skill under a new key, with the id that its name gives: it raises, wherever the file system or SQLite
-- fails, and then no row has changed, no other directory has, and the skill's own neither, unless its preparation
-- or the recovery fails; or the package, which the validator passed, is in place and enabled, the row names its
-- manifest, and no other directory has changed.
pub create_skill-Atomically :
    (h : Host) (f : Faults) (c : SkillCandidate) (asked : Option String) (key : Option String)
    (r : Registry) (id : String)
    → IsRoot (r.root id)
    → prior r (keyed key) ≡ none
    → h.slug (or_string asked c.name) ≡ ok id
    → Atomically (TakesBack f) h id true (r.root id).previous r (create_skill h f c asked key r)
unfolding create_skill
create_skill-Atomically h f c asked key r id root fresh named =
    rw (fresh, named)
      (if-either (Atomically (TakesBack f) h id true (r.root id).previous r) (is_some (get r id)) _
        _ (λ there. same (TakesBack f) id r)
        (λ absent.
          validated-Atomically (TakesBack f) h id true (r.root id).previous r
            (λ staged. install_new h f id staged c (keyed key) r) (write_staging h c id kept_none)
            (write_staging-Returned h c id kept_none)
            (λ staged m valid is.
              install_new-Atomically h f id m c (keyed key) r staged root valid is)))
