-- ===== src/Memory/Store/Merging.antt =====
-- What src/evoci/memory/store.py keeps when a memory or an episode is added.
use evo_ci.Prelude.Dict
use evo_ci.Prelude.{
  ℕ, ◌≤◌, ◌≡◌, refl, String, Option, none, some, List, [], ◌∷◌, ◌++◌, Bool, true, false, not, ◌&&◌,
  ◌||◌, ◌==◌, arith, contains, contains_eq, contains-append, if-either, if-both, is_some, eq_refl,
  any, first, Bool-cases, inl, inr,
}
use evo_ci.Tools.Scope.{from_keys}
use evo_ci.Memory.Models.{Episode, LongTermMemory}
use evo_ci.Memory.Store.{
  Store, StoredMemory, add_long_term, stored, larger, add_episode, get_episode, clashes,
}

from_keys-contains :
    (seen xs : List String) (x : String)
    → contains (from_keys seen xs) x ≡ (contains xs x && not (contains seen x))
unfolding from_keys
from_keys-contains seen [] x = refl
from_keys-contains seen (p ∷ ps) x =
    if-either (λ ys. contains ys x ≡ (contains (p ∷ ps) x && not (contains seen x)))
      (contains seen p) _ _
      (λ old. ground (arith, from_keys-contains seen ps x, contains_eq seen p x, old))
      (λ new. ground (arith, from_keys-contains (p ∷ seen) ps x, contains_eq seen p x, new))

larger_bounds : (a b : ℕ) → (a ≤ larger a b) × (b ≤ larger a b)
larger_bounds a b = ground arith

abbrev pub runs_of : Option StoredMemory → List String
runs_of none = []
runs_of (some m) = m.memory.source_run_ids

abbrev pub Keeps : LongTermMemory → Option StoredMemory → LongTermMemory → Type 0
Keeps memory none m = m ≡ memory
Keeps memory (some current) m =
    (m.content ≡ current.memory.content)
    × (m.created_at ≡ current.memory.created_at)
    × (current.memory.confidence ≤ m.confidence)
    × (memory.confidence ≤ m.confidence)

stored-Keeps :
    (now : String) (memory : LongTermMemory) (o : Option StoredMemory)
    → Keeps memory o (stored now memory o).memory
      × ((run : String)
          → contains (stored now memory o).memory.source_run_ids run
            ≡ (contains (runs_of o) run || contains memory.source_run_ids run))
      × ((stored now memory o).archived ≡ false)
stored-Keeps now memory none = (refl, (λ run. refl), refl)
stored-Keeps now memory (some current) = (
  (
    refl,
    refl,
    (larger_bounds current.memory.confidence memory.confidence).0,
    (larger_bounds current.memory.confidence memory.confidence).1,
  ),
  (λ run. ground (
    arith,
    from_keys-contains [] (current.memory.source_run_ids ++ memory.source_run_ids) run,
    contains-append current.memory.source_run_ids memory.source_run_ids run,
  )),
  refl,
)

-- Adding a long-term memory under a new key: the memory of its id is there, not archived, with the runs that it
-- had and those that are added; its content stays that of the first, and its confidence never falls; other memories
-- stay. Whatever is added under that key later changes nothing.
pub add_long_term_lem :
    (memory : LongTermMemory) (k now : String) (s : Store)
    → k == "" ≡ false
    → contains s.operations k ≡ false
    → let current = Dict.lookup memory.id s.long_term in
      let after = (add_long_term memory (some k) now s).0 in
      ((m : StoredMemory) × (Dict.lookup memory.id after.long_term ≡ some m)
        × (m.archived ≡ false)
        × Keeps memory current m.memory
        × ((run : String)
            → contains m.memory.source_run_ids run
              ≡ (contains (runs_of current) run || contains memory.source_run_ids run)))
      × ((id : String)
          → memory.id == id ≡ false
          → Dict.lookup id after.long_term ≡ Dict.lookup id s.long_term)
      × ((memory2 : LongTermMemory) (now2 : String)
          → add_long_term memory2 (some k) now2 after ≡ (after, false))
unfolding add_long_term
add_long_term_lem memory k now s named fresh =
    let current = Dict.lookup memory.id s.long_term in
    let m = stored now memory current in
    let (keeps, runs, shown) = stored-Keeps now memory current in
    rw (named, fresh)
      (
        (
          m,
          rw (Dict.lookup-insert memory.id memory.id m s.long_term, eq_refl memory.id) refl,
          shown,
          keeps,
          runs,
        ),
        (λ id other. rw (Dict.lookup-insert memory.id id m s.long_term, other) refl),
        (λ memory2 now2. rw (eq_refl k) refl),
      )

first-append :
    (p : Episode → Bool) (es fs : List Episode) (e : Episode)
    → first p es ≡ some e
    → first p (es ++ fs) ≡ some e
first-append p [] fs e h = ground arith
first-append p (x ∷ es) fs e h = elim (Bool-cases (p x)) [
  | inl is ↦ rw is (rw is at h)
  | inr other ↦ rw other (first-append p es fs e (rw other at h))
]

first-last :
    (p : Episode → Bool) (es : List Episode) (e : Episode)
    → any p es ≡ false
    → p e ≡ true
    → first p (es ++ e ∷ []) ≡ some e
first-last p [] e h is = rw is refl
first-last p (x ∷ es) e h is = ground (arith, h, first-last p es e)

-- An episode of the run is one that clashes.
run_clashes :
    (e : Episode) (es : List Episode)
    → is_some (first (λ x. x.run_id == e.run_id) es) ≡ true
    → any (clashes e) es ≡ true
run_clashes e [] h = ground arith
run_clashes e (x ∷ es) h = ground (arith, h, run_clashes e es)

none_of_run :
    (e : Episode) (es : List Episode)
    → any (clashes e) es ≡ false
    → any (λ x. x.run_id == e.run_id) es ≡ false
none_of_run e [] h = refl
none_of_run e (x ∷ es) h = ground (arith, h, none_of_run e es)

-- Adding an episode: every run keeps the episode that it has; a run that has one gets no other; and an
-- episode whose id and run are new is then the episode of its run.
pub add_episode_lem :
    (e : Episode) (s : Store)
    → ((run_id : String) (x : Episode)
        → get_episode run_id s ≡ some x
        → get_episode run_id (add_episode e s) ≡ some x)
      × (is_some (get_episode e.run_id s) ≡ true → add_episode e s ≡ s)
      × (any (clashes e) s.episodes ≡ false → get_episode e.run_id (add_episode e s) ≡ some e)
unfolding add_episode get_episode
add_episode_lem e s = (
  (λ run_id x held.
      if-both (λ (t : Store). first (λ y. y.run_id == run_id) t.episodes ≡ some x)
        (any (clashes e) s.episodes) _ _ held
        (first-append (λ y. y.run_id == run_id) s.episodes (e ∷ []) x held)),
  (λ there. rw (run_clashes e s.episodes there) refl),
  (λ new. rw new (
      first-last (λ y. y.run_id == e.run_id) s.episodes e (none_of_run e s.episodes new)
        (eq_refl e.run_id))),
)
