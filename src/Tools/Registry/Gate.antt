-- ===== src/Tools/Registry/Gate.antt =====
-- What stands before a tool of src/evoci/tools/registry.py, and what a call leaves in the list of
-- changed paths.
use evo_ci.Prelude.Dict
use mathlib.Core.Path.{subst}
use evo_ci.Prelude.{
  ◌≡◌, ap, refl, sym, ◌∙◌, String, Option, none, some, List, [], ◌∷◌, Bool, true, false, ◌||◌, ◌==◌,
  raise, Raised, policy_violation, ◌⧺◌, arith, eq_iff, eq_refl, contains, map, keep, Bool-cases,
  inl, inr, ◌⊎◌,
}
use evo_ci.Prelude.Sorted.{sorted_set-contains}
use evo_ci.Tools.Registry.{
  Arguments, ToolSpec, ToolRegistry, has_capability, is_listed, resolve_tool, permitted, validated,
  ainvoke, called, available, is_offered,
}

-- A dict holds each key once.
abbrev pub IsDict {ℓ} : {V : Type ℓ} → List (String × V) → Type 0
IsDict [] = Unit
IsDict ((k, v) ∷ d) = (contains (Dict.keys d) k ≡ false) × IsDict d

insert-keys {ℓ} :
    {V : Type ℓ} (k j : String) (v : V) (d : List (String × V))
    → contains (Dict.keys (Dict.insert k v d)) j ≡ (k == j || contains (Dict.keys d) j)
insert-keys k j v [] = refl
insert-keys k j v ((i, w) ∷ d) =
    ground (arith, eq_iff i k, eq_iff i j, eq_iff k j, insert-keys k j v d)

pub insert-IsDict {ℓ} :
    {V : Type ℓ} (k : String) (v : V) (d : List (String × V))
    → IsDict d
    → IsDict (Dict.insert k v d)
insert-IsDict {V} k v [] h = (refl, tt)
insert-IsDict {V} k v ((i, w) ∷ d) (fresh, h) = either (Bool-cases (i == k)) (insert-IsDict k v d h)
  where
    either :
        (i == k ≡ true) ⊎ (i == k ≡ false)
        → IsDict (Dict.insert k v d)
        → IsDict (Dict.insert k v ((i, w) ∷ d))
    either (inl e) rest = rw e (fresh, h)
    either (inr e) rest =
        rw e (ground (arith, insert-keys k i v d, eq_iff k i, eq_iff i k, fresh, e), rest)

module _ {S : Type 0} where
  offered : (r : ToolRegistry S) → List (String × ToolSpec S) → List String
  offered r d = map (λ t. t.0) (keep (is_offered r) d)

  absent :
      (r : ToolRegistry S) (name : String) (d : List (String × ToolSpec S))
      → contains (Dict.keys d) name ≡ false
      → (Dict.lookup name d ≡ none) × (contains (offered r d) name ≡ false)
  unfolding offered
  absent r name [] h = (refl, refl)
  absent r name (t ∷ d) h = ground (arith, absent r name d)

  abbrev passes : ToolRegistry S → String → Option (ToolSpec S) → Bool
  passes r name none = false
  passes r name (some spec) = is_offered r (name, spec)

  -- Being offered is being found, listed and capable.
  offered_iff :
      (r : ToolRegistry S) (name : String) (d : List (String × ToolSpec S))
      → IsDict d
      → contains (offered r d) name ≡ passes r name (Dict.lookup name d)
  unfolding offered
  offered_iff r name [] h = refl
  offered_iff r name ((k, spec) ∷ d) (fresh, h) =
      either (Bool-cases (k == name)) (offered_iff r name d h)
    where
      either :
          (k == name ≡ true) ⊎ (k == name ≡ false)
          → contains (offered r d) name ≡ passes r name (Dict.lookup name d)
          → contains (offered r ((k, spec) ∷ d)) name
            ≡ passes r name (Dict.lookup name ((k, spec) ∷ d))
      either (inl e) rest =
          subst
            (λ n.
              contains (offered r ((k, spec) ∷ d)) n ≡ passes r n (Dict.lookup n ((k, spec) ∷ d)))
            ((eq_iff k name).0 e) (ground (arith, eq_refl k, absent r k d fresh))
      either (inr e) rest = ground (arith, e, rest)

  refused :
      (r : ToolRegistry S) (name : String) (a : Arguments) (o : Option (ToolSpec S))
      → passes r name o ≡ false
      → (e : Raised) × (permitted r name a o ≡ raise e)
  refused r name a none h = (_, refl)
  refused r name a (some spec) h = either (Bool-cases (is_listed r.tool_allowlist name))
    where
      either :
          (is_listed r.tool_allowlist name ≡ true) ⊎ (is_listed r.tool_allowlist name ≡ false)
          → (e : Raised) × (permitted r name a (some spec) ≡ raise e)
      either (inl l) =
          let incapable : has_capability r.capabilities spec.capability ≡ false =
            ground (arith, l, h) in
          (
            policy_violation ("tool " ⧺ name ⧺ " requires " ⧺ spec.capability),
            rw (l, incapable) refl,
          )
      either (inr l) =
          (policy_violation ("tool " ⧺ name ⧺ " is not available to this agent role"), rw l refl)

  allowed :
      (r : ToolRegistry S) (name : String) (a : Arguments) (o : Option (ToolSpec S))
      → passes r name o ≡ true
      → (spec : ToolSpec S) × (o ≡ some spec) × (permitted r name a o ≡ validated spec a)
  allowed r name a none h = ground arith
  allowed r name a (some spec) h =
      let listed : is_listed r.tool_allowlist name ≡ true = ground (arith, h) in
      let capable : has_capability r.capabilities spec.capability ≡ true = ground (arith, h) in
      (spec, refl, rw (listed, capable) refl)

  -- The tools that the model is offered are the tools that it can call: a call of any other raises and
  -- changes nothing; a call of one of them reaches the tool's own arguments, and if those are invalid, it raises
  -- and changes nothing.
  pub ainvoke-available :
      (r : ToolRegistry S) (name : String) (a : Arguments)
      → IsDict r.tools
      → (contains (available r) name ≡ false → (e : Raised) × (ainvoke name a r ≡ (r, raise e)))
        × (contains (available r) name ≡ true
            → (spec : ToolSpec S) × (Dict.lookup name r.tools ≡ some spec)
              × (resolve_tool r name a ≡ validated spec a)
              × ((e : Raised) → validated spec a ≡ raise e → ainvoke name a r ≡ (r, raise e)))
  unfolding ainvoke available resolve_tool offered
  ainvoke-available r name a h =
      let same = sorted_set-contains name (offered r r.tools) ∙ offered_iff r name r.tools h in
      (
        λ out.
            (let (e, raised) = refused r name a (Dict.lookup name r.tools) (sym same ∙ out) in
              (e, ap (called name r) raised)),
        λ listed.
            (let (spec, found, passed) =
                allowed r name a (Dict.lookup name r.tools) (sym same ∙ listed) in
              (spec, found, passed, λ e invalid. ap (called name r) (passed ∙ invalid))),
      )
