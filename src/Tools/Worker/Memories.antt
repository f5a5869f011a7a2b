-- ===== src/Tools/Worker/Memories.antt =====
-- src/evoci/tools/registry.py: `read_memory`, which shows a worker the memories of its run.
use evo_ci.Prelude.Dict
use evo_ci.Prelude.{
  ℕ, ◌+◌, ◌≡◌, sym, ◌∙◌, ap, String, Option, none, some, List, ◌==◌, ltb, min, if◌then◌else◌,
  Outcome, ok, raise, ◌>>=◌, >>=-ok, ok_inj, policy_violation, length, truthy, Bool-cases, inl, inr,
  arith, eq_iff,
}
use evo_ci.Memory.Models.{MemoryHit}
use evo_ci.Memory.Store.{get_memory_hit}
use evo_ci.Agents.ToolLoop.Pages.{take, drop}
use evo_ci.Tools.Worker.{Worker, WorkerState}

pub record MemoryPage : Type 0 where
  pub namespace : String
  pub content : List ℕ
  pub total_chars : ℕ
  pub next_offset : Option ℕ

abbrev pub page : ℕ → ℕ → MemoryHit → MemoryPage
page offset limit hit =
    let text = hit.content in
    let end_at = min (offset + limit) (length text) in
    record {
      namespace = hit.namespace;
      content = drop offset (take end_at text);
      total_chars = length text;
      next_offset = if ltb end_at (length text) then some end_at else none;
    }

abbrev same_space : String → Option MemoryHit → Outcome MemoryHit
same_space space none =
    raise (policy_violation "memory is unavailable or has changed since retrieval")
same_space space (some hit) =
    if hit.namespace == space
    then ok hit
    else raise (policy_violation "memory is unavailable or has changed since retrieval")

abbrev visible : Option String → Outcome String
visible none = raise (policy_violation "memory is not available to this agent invocation")
visible (some space) = ok space

abbrev repository : Option String → Outcome String
repository none = raise (policy_violation "memory repository is missing")
repository (some name) = ok name

unfoldable pub read_memory : Worker → String → ℕ → ℕ → WorkerState → Outcome MemoryPage
read_memory w id offset limit s = visible (Dict.lookup id w.visible_memories) >>= λ space.
    repository (truthy w.memory_repository) >>= λ name.
    same_space space (get_memory_hit id name s.memories) >>= λ hit. ok (page offset limit hit)

visible-ok : (o : Option String) (space : String) → visible o ≡ ok space → o ≡ some space
visible-ok none space h = ground arith
visible-ok (some x) space h = ap some (ok_inj x space h)

repository-ok : (o : Option String) (name : String) → repository o ≡ ok name → o ≡ some name
repository-ok none name h = ground arith
repository-ok (some x) name h = ap some (ok_inj x name h)

same_space-ok :
    (space : String) (o : Option MemoryHit) (hit : MemoryHit)
    → same_space space o ≡ ok hit
    → (o ≡ some hit) × (hit.namespace ≡ space)
same_space-ok space none hit h = ground arith
same_space-ok space (some x) hit h = elim (Bool-cases (x.namespace == space)) [
  | inl same ↦
      let is = ok_inj x hit (rw same at h) in
      (ap some is, sym (ap (λ (y : MemoryHit). y.namespace) is) ∙ (eq_iff x.namespace space).0 same)
  | inr other ↦ ground (arith, other, h)
]

-- A memory is only read if it is one of those that the run was shown, the worker has a repository, and the store
-- still gives it there, in the namespace in which it was shown; the page is that of its content as it is now.
pub read_memory-guarded :
    (w : Worker) (id : String) (offset limit : ℕ) (s : WorkerState) (x : MemoryPage)
    → read_memory w id offset limit s ≡ ok x
    → (name : String) × (truthy w.memory_repository ≡ some name)
      × (hit : MemoryHit) × (get_memory_hit id name s.memories ≡ some hit)
      × (Dict.lookup id w.visible_memories ≡ some hit.namespace)
      × (x ≡ page offset limit hit)
unfolding read_memory
read_memory-guarded w id offset limit s x h =
    let (space, next, seen) = >>=-ok (visible (Dict.lookup id w.visible_memories)) _ h in
    let (name, last, there) = >>=-ok (repository (truthy w.memory_repository)) _ next in
    let (hit, shown, found) =
      >>=-ok (same_space space (get_memory_hit id name s.memories)) _ last in
    let (held, in_space) = same_space-ok space (get_memory_hit id name s.memories) hit found in
    (
      name,
      repository-ok (truthy w.memory_repository) name there,
      hit,
      held,
      visible-ok (Dict.lookup id w.visible_memories) space seen ∙ ap some (sym in_space),
      sym (ok_inj (page offset limit hit) x shown),
    )
