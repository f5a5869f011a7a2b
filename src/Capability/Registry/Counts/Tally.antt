-- ===== src/Capability/Registry/Counts/Tally.antt =====
-- The counts of a skill's use in src/evoci/capability/registry.py add up, and a key counts once.
use evo_ci.Prelude.Dict
use evo_ci.Prelude.{
  ◌+◌, ◌≤◌, ◌≡◌, refl, String, Option, none, some, List, [], ◌∷◌, Bool, true, false, ◌==◌, arith,
  All, if-either, if-both, is_some, eq_refl,
}
use evo_ci.Capability.Models.{SkillStats}
use evo_ci.Capability.Registry.{Registry, other_result, note_operation}
use evo_ci.Capability.Registry.Counts.{
  update_row, update_rows, counted, bump, used, record_use, record_retrieval, is_applied,
}

-- Every use succeeded or failed, and at most all of them patched.
abbrev pub Adds : SkillStats → Type 0
Adds s = (s.success_count + s.failure_count ≡ s.use_count) × (s.patch_count ≤ s.use_count)

abbrev pub AddsUp : List (String × SkillStats) → Type 0
AddsUp rows = All (λ row. Adds row.1) rows

update_row-AddsUp :
    (f : SkillStats → SkillStats) (id : String) (rows : List (String × SkillStats))
    → ((s : SkillStats) → Adds s → Adds (f s))
    → AddsUp rows
    → AddsUp (update_row f id rows)
update_row-AddsUp f id [] keep h = tt
update_row-AddsUp f id ((j, s) ∷ rows) keep (a, h) =
    if-both AddsUp (j == id) _ _ (keep s a, update_row-AddsUp f id rows keep h)
      (a, update_row-AddsUp f id rows keep h)

update_rows-AddsUp :
    (f : SkillStats → SkillStats) (ids : List String) (rows : List (String × SkillStats))
    → ((s : SkillStats) → Adds s → Adds (f s))
    → AddsUp rows
    → AddsUp (update_rows f ids rows)
update_rows-AddsUp f [] rows keep h = h
update_rows-AddsUp f (id ∷ ids) rows keep h =
    update_rows-AddsUp f ids (update_row f id rows) keep (update_row-AddsUp f id rows keep h)

used-Adds : (a b : Bool) (now : String) (s : SkillStats) → Adds s → Adds (used a b now s)
used-Adds true true now s h = omega arith
used-Adds true false now s h = omega arith
used-Adds false true now s h = omega arith
used-Adds false false now s h = omega arith

bump-Adds : (a : Bool) (now : String) (s : SkillStats) → Adds s → Adds (bump a now s)
bump-Adds true now s h = h
bump-Adds false now s h = h

noted-stats :
    (key : Option String) (r : Registry)
    → (note_operation key other_result r).skill_stats ≡ r.skill_stats
noted-stats none r = refl
noted-stats (some k) r =
    if-both (λ (x : Registry). x.skill_stats ≡ r.skill_stats) (is_some (Dict.lookup k r.operations))
      _ _ refl refl

counted-AddsUp :
    (key : Option String) (change : List (String × SkillStats) → List (String × SkillStats))
    (r : Registry)
    → (AddsUp r.skill_stats → AddsUp (change r.skill_stats))
    → AddsUp r.skill_stats
    → AddsUp (counted key change r).0.skill_stats
counted-AddsUp key change r keep h =
    if-both (λ (x : Registry × Bool). AddsUp x.0.skill_stats) (is_applied r key) _ _ h
      (rw (noted-stats key (record r { skill_stats = change r.skill_stats })) (keep h))

noted-applied :
    (k : String) (r : Registry)
    → is_applied (note_operation (some k) other_result r) (some k) ≡ true
noted-applied k r =
    if-either (λ (x : Registry). is_applied x (some k) ≡ true)
      (is_some (Dict.lookup k r.operations)) _ _ (λ there. there)
      (λ fresh. rw (Dict.lookup-insert k k other_result r.operations, eq_refl k) refl)

counted-applied :
    (k : String) (change : List (String × SkillStats) → List (String × SkillStats)) (r : Registry)
    → is_applied (counted (some k) change r).0 (some k) ≡ true
counted-applied k change r =
    if-either (λ (x : Registry × Bool). is_applied x.0 (some k) ≡ true) (is_applied r (some k)) _ _
      (λ there. there) (λ fresh. noted-applied k (record r { skill_stats = change r.skill_stats }))

-- Recording a use under a key: the counts of every skill still add up, and whatever is then recorded
-- under that key, a use or a retrieval, of whichever skills, is not counted and changes nothing.
pub record_use_lem :
    (id : String) (success patched : Bool) (k now : String) (r : Registry)
    → k == "" ≡ false
    → AddsUp r.skill_stats
    → let after = (record_use id success patched (some k) now r).0 in
      AddsUp after.skill_stats
      × ((id2 : String) (success2 patched2 : Bool) (now2 : String)
          → record_use id2 success2 patched2 (some k) now2 after ≡ (after, false))
      × ((ids : List String) (selected : Bool) (now2 : String)
          → record_retrieval ids selected (some k) now2 after ≡ (after, false))
unfolding record_use record_retrieval
record_use_lem id success patched k now r named h = rw named (
  counted-AddsUp (some k) (update_row (used success patched now) id) r
      (update_row-AddsUp (used success patched now) id r.skill_stats
        (used-Adds success patched now))
      h,
  (λ id2 success2 patched2 now2.
      rw (counted-applied k (update_row (used success patched now) id) r) refl),
  (λ ids selected now2. rw (counted-applied k (update_row (used success patched now) id) r) refl),
)
