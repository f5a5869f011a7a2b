-- ===== src/Capability/Registry/Install/Atomic.antt =====
-- A skill of src/evoci/capability/registry.py is created or updated whole, or not at all.
use evo_ci.Prelude.Dict
use evo_ci.Prelude.{
  ◌≡◌, refl, sym, ◌∙◌, ap, String, Option, none, some, List, [], Bool, true, false, ◌==◌, Outcome,
  ok, raise, Raised, arith, is_some, ◌>>=◌, eq_iff, eq_refl, Bool-cases, inl, inr, ◌⊎◌, if-both,
}
use evo_ci.Capability.Models.{SkillManifest, SkillCandidate, RegisteredSkill, SkillMemoryEntry}
use evo_ci.Capability.Registry.{
  Package, SkillRoot, SkillRow, Registry, Host, Call, get, skill_at, note_operation,
  OperationResult, for_skill,
}
use evo_ci.Capability.Registry.Staging.{
  write_staging, Kept, make_manifest, files_to_write, write_files,
}
use evo_ci.Capability.Registry.Moves.{Faults, moves, Moves, put_back}
use evo_ci.Capability.Registry.Install.{set_root, with_rows, skill_of, gone_on}

-- The recovery of a failed installation does its work: nothing stays of what `rmtree` removes, and no rename and
-- no removal raises.
abbrev pub Recovers : Faults → Type 0
Recovers f =
    (f.left_package ≡ none)
    × (f.left_root ≡ false)
    × (f.restore_current ≡ none)
    × (f.restore_previous ≡ none)
    × (f.remove_memory ≡ none)

-- What the moves of an update leave: a directory that the `except` brings back, and where they all
-- succeed, the new package in the place of the current one, and that in the place of the one before.
abbrev pub Restores : Faults → Package → SkillRoot → Moves → Type 0
Restores f staged d (d', moved, raise e) = Recovers f → put_back f moved d' ≡ (d, ok tt)
Restores f staged d (d', moved, ok u) =
    (Recovers f → put_back f true d' ≡ (d, ok tt))
    × (d' ≡ record d { current = some staged; previous = d.current; old_previous = d.previous })

by_recovery :
    (P : Option Package → Option Raised → Option Raised → Type 0) (x : Option Package)
    (y z : Option Raised)
    → P none none none
    → x ≡ none
    → y ≡ none
    → z ≡ none
    → P x y z
by_recovery P x y z p hx hy hz = rw (hx, hy, hz) p

module _ (mr wm ro t rm : Option Raised) (lr : Bool) where
  -- The faults at the three moves and at what takes them back, and any others.
  abbrev at_moves :
      Option Raised
      → Option Raised
      → Option Raised
      → Option Package
      → Option Raised
      → Option Raised
      → Faults
  at_moves a b c lp rc rp = record {
    make_root = mr;
    write_memory = wm;
    make_readonly = ro;
    move_previous = a;
    move_current = b;
    move_staging = c;
    transaction = t;
    left_package = lp;
    left_root = lr;
    restore_current = rc;
    restore_previous = rp;
    remove_memory = rm;
  }

  -- The moves of an update and their recovery give the directory again.
  abbrev Undone :
      Option Raised
      → Option Raised
      → Option Raised
      → Package
      → SkillRoot
      → Option Package
      → Option Raised
      → Option Raised
      → Type 0
  Undone a b c staged d lp rc rp =
      let f = at_moves a b c lp rc rp in
      let (d', moved, done) = moves f staged d in put_back f moved d' ≡ (d, ok tt)

  undone :
      (a b c : Option Raised) (staged : Package) (there : Bool) (p : Package)
      (previous : Option Package) (memory : Option (List SkillMemoryEntry))
      → let d : SkillRoot = record {
        is_there = there;
        current = some p;
        previous = previous;
        old_previous = none;
        memory = memory;
      } in
        Undone a b c staged d none none none
  unfolding moves put_back
  undone a none none staged there p none memory = refl
  undone a none (some e) staged there p none memory = refl
  undone a (some e) c staged there p none memory = refl
  undone none none none staged there p (some q) memory = refl
  undone none none (some e) staged there p (some q) memory = refl
  undone none (some e) c staged there p (some q) memory = refl
  undone (some e) b c staged there p (some q) memory = refl

  recovered :
      (a b c : Option Raised) (staged : Package) (there : Bool) (p : Package)
      (previous : Option Package) (memory : Option (List SkillMemoryEntry)) (lp : Option Package)
      (rc rp : Option Raised)
      → let d : SkillRoot = record {
        is_there = there;
        current = some p;
        previous = previous;
        old_previous = none;
        memory = memory;
      } in
        Recovers (at_moves a b c lp rc rp) → Undone a b c staged d lp rc rp
  recovered a b c staged there p previous memory lp rc rp (left, root, cur, prev, mem) =
      by_recovery (Undone a b c staged _) lp rc rp (undone a b c staged there p previous memory)
        left cur prev

  by_moves :
      (a b c : Option Raised) (lp : Option Package) (rc rp : Option Raised) (staged : Package)
      (there : Bool) (current previous old : Option Package)
      (memory : Option (List SkillMemoryEntry))
      → is_some current ≡ true
      → is_some old ≡ false
      → let d : SkillRoot = record {
        is_there = there;
        current = current;
        previous = previous;
        old_previous = old;
        memory = memory;
      } in
        Restores (at_moves a b c lp rc rp) staged d (moves (at_moves a b c lp rc rp) staged d)
  unfolding moves
  by_moves a b c lp rc rp staged there none previous old memory h k = ground arith
  by_moves a b c lp rc rp staged there (some p) previous (some q) memory h k = ground arith
  by_moves a none none lp rc rp staged there (some p) none none memory h k =
      (recovered a none none staged there p none memory lp rc rp, refl)
  by_moves a none (some e) lp rc rp staged there (some p) none none memory h k =
      recovered a none (some e) staged there p none memory lp rc rp
  by_moves a (some e) c lp rc rp staged there (some p) none none memory h k =
      recovered a (some e) c staged there p none memory lp rc rp
  by_moves none none none lp rc rp staged there (some p) (some q) none memory h k =
      (recovered none none none staged there p (some q) memory lp rc rp, refl)
  by_moves none none (some e) lp rc rp staged there (some p) (some q) none memory h k =
      recovered none none (some e) staged there p (some q) memory lp rc rp
  by_moves none (some e) c lp rc rp staged there (some p) (some q) none memory h k =
      recovered none (some e) c staged there p (some q) memory lp rc rp
  by_moves (some e) b c lp rc rp staged there (some p) (some q) none memory h k =
      recovered (some e) b c staged there p (some q) memory lp rc rp

pub moves-Restores :
    (f : Faults) (staged : Package) (d : SkillRoot)
    → is_some d.current ≡ true
    → is_some d.old_previous ≡ false
    → Restores f staged d (moves f staged d)
moves-Restores f staged d h k =
    by_moves f.make_root f.write_memory f.make_readonly f.transaction f.remove_memory f.left_root
      f.move_previous f.move_current f.move_staging f.left_package f.restore_current
      f.restore_previous staged d.is_there d.current d.previous d.old_previous d.memory h k

-- A fact about what a call returns, if it returns.
abbrev pub Returned {ℓ} : {A : Type ℓ} → (A → Type 0) → Outcome A → Type 0
Returned P (ok a) = P a
Returned P (raise e) = Unit

bind-Returned {ℓ κ} :
    {A : Type ℓ} {B : Type κ} (P : B → Type 0) (o : Outcome A) (f : A → Outcome B)
    → ((a : A) → Returned P (f a))
    → Returned P (o >>= f)
bind-Returned P (ok a) f h = h a
bind-Returned P (raise e) f h = tt

pub write_staging-Returned :
    (h : Host) (c : SkillCandidate) (id : String) (kept : Kept)
    → Returned
        (λ (x : Package × SkillManifest). (x.1.skill_id ≡ id) × (x.1.enabled ≡ kept.enabled))
        (write_staging h c id kept)
unfolding write_staging make_manifest
write_staging-Returned h c id kept =
    let P = λ (x : Package × SkillManifest). (x.1.skill_id ≡ id) × (x.1.enabled ≡ kept.enabled) in
    bind-Returned P (files_to_write c) _
      (λ files. bind-Returned P (write_files [] files) _ (λ staged. (refl, refl)))

-- No row differs, and no directory but that of `id`; that one neither, if a condition holds.
abbrev pub Unchanged : Type 0 → String → Registry → Registry → Type 0
Unchanged condition id r r' =
    (r'.skills ≡ r.skills)
    × (r'.fts ≡ r.fts)
    × (r'.skill_stats ≡ r.skill_stats)
    × (r'.operations ≡ r.operations)
    × ((j : String) → j == id ≡ false → r'.root j ≡ r.root j)
    × (condition → (j : String) → r'.root j ≡ r.root j)

-- The skill `id` is there with a package that the validator passed, its row names that package's
-- manifest, `before` is its package before, and no other directory differs.
abbrev pub Installed :
    Host → String → Bool → Option Package → Registry → Registry → RegisteredSkill → Type 0
Installed h id enabled before r r' skill =
    (staged : Package) × (h.validate staged skill.manifest ≡ [])
    × (skill.manifest.skill_id ≡ id)
    × (skill.manifest.enabled ≡ enabled)
    × (get r' id ≡ some skill)
    × ((r'.root id).current ≡ some staged)
    × ((r'.root id).previous ≡ before)
    × ((j : String) → j == id ≡ false → r'.root j ≡ r.root j)

-- A call that installs the skill, or raises and changes no row, and under the condition nothing at all.
abbrev pub Atomically :
    Type 0 → Host → String → Bool → Option Package → Registry → Call RegisteredSkill → Type 0
Atomically condition h id enabled before r (r', ok skill) = Installed h id enabled before r r' skill
Atomically condition h id enabled before r (r', raise e) = Unchanged condition id r r'

pub same : (condition : Type 0) (id : String) (r : Registry) → Unchanged condition id r r
same condition id r = (refl, refl, refl, refl, (λ j other. refl), λ c j. refl)

pub put_root-Unchanged :
    (condition : Type 0) (id : String) (d : SkillRoot) (r : Registry)
    → (condition → d ≡ r.root id)
    → Unchanged condition id r (set_root id d r)
put_root-Unchanged condition id d r h =
    (refl, refl, refl, refl, (λ j other. rw other refl), λ c j. either j c (Bool-cases (j == id)))
  where
    either :
        (j : String)
        → condition
        → (j == id ≡ true) ⊎ (j == id ≡ false)
        → (set_root id d r).root j ≡ r.root j
    either j c (inl e) = rw e (h c ∙ ap r.root (sym ((eq_iff j id).0 e)))
    either j c (inr e) = rw e refl

-- The recovery under a condition that makes it bring the directory back.
pub gone_on-Atomically :
    (condition : Type 0) (h : Host) (id : String) (enabled : Bool) (before : Option Package)
    (r : Registry) (e : Raised) (x : SkillRoot × Outcome (Unit {0}))
    → (condition → x ≡ (r.root id, ok tt))
    → Atomically condition h id enabled before r (gone_on id r e x)
gone_on-Atomically condition h id enabled before r e (d, raise y) k =
    put_root-Unchanged condition id d r
      (λ c. ap (λ (z : SkillRoot × Outcome (Unit {0})). z.0) (k c))
gone_on-Atomically condition h id enabled before r e (d, ok u) k =
    put_root-Unchanged condition id d r
      (λ c. ap (λ (z : SkillRoot × Outcome (Unit {0})). z.0) (k c))

note_operation-same :
    (key : Option String) (x : OperationResult) (r : Registry)
    → ((note_operation key x r).skills ≡ r.skills) × ((note_operation key x r).root ≡ r.root)
note_operation-same none x r = (refl, refl)
note_operation-same (some k) x r =
    if-both (λ (r' : Registry). (r'.skills ≡ r.skills) × (r'.root ≡ r.root))
      (is_some (Dict.lookup k r.operations)) _ _ (refl, refl) (refl, refl)

inserted :
    (id : String) (row : SkillRow) (d : List (String × SkillRow))
    → Dict.lookup id (Dict.insert id row d) ≡ some row
inserted id row d = rw (Dict.lookup-insert id id row d, eq_refl id) refl

-- What the transaction leaves in the table of skills, and that it touches no directory.
pub with_rows-get :
    (h : Host) (m : SkillManifest) (c : SkillCandidate) (key : Option String) (r : Registry)
    → (get (with_rows h m c key r) m.skill_id ≡ some (skill_of h m))
      × ((with_rows h m c key r).root ≡ r.root)
unfolding with_rows get
with_rows-get h m c key r =
    let row : SkillRow = record {
      enabled = m.enabled;
      manifest = m;
      package_path = h.path_of m.skill_id;
    } in
    let (skills, root) = note_operation-same key (for_skill m.skill_id) _ in
    (
      ap (λ d. skill_at (Dict.lookup m.skill_id d)) skills
          ∙ ap skill_at (inserted m.skill_id row r.skills),
      root,
    )
