-- ===== src/Memory/Retrieval/Budget.antt =====
-- The context that src/evoci/memory/retrieval.py fills never exceeds its limit.
use mathlib.Core.Path.{subst}
use evo_ci.Prelude.{
  contains_eq, contains-append, ℕ, zero, suc, ◌+◌, ◌-◌, ◌≤◌, ◌≡◌, refl, ap, String, List, [], ◌∷◌,
  ◌++◌, false, arith, leb, length, length-append, contains, if-either, if-both, is_empty, ◌&&◌, not,
  eq_refl,
}
use evo_ci.Memory.Models.{MemoryHit}
use evo_ci.Memory.Retrieval.{
  prefix, marker, truncate_preserving_outcome, deduplicated, selected, chars, memory_ids, retrieve,
}

length-prefix : (n : ℕ) (xs : List ℕ) → length (prefix n xs) ≤ n
unfolding prefix
length-prefix n [] = omega arith
length-prefix zero (x ∷ xs) = omega arith
length-prefix (suc n) (x ∷ xs) = omega (arith, length-prefix n xs)

length-truncate_preserving_outcome :
    (content : List ℕ) (n : ℕ) → length (truncate_preserving_outcome content n) ≤ n
unfolding truncate_preserving_outcome
length-truncate_preserving_outcome content n = ground (
  arith,
  length-prefix n content,
  length-prefix (n - 12) content,
  length-append (prefix (n - 12) content) marker,
)

chars-selected :
    (limit used : ℕ) (hs : List MemoryHit)
    → used ≤ limit
    → used + chars (selected limit used hs) ≤ limit
unfolding selected
chars-selected limit used [] h = omega arith
chars-selected limit used (x ∷ hs) h =
    let content = truncate_preserving_outcome x.content (limit - used) in
    let short = length-truncate_preserving_outcome x.content (limit - used) in
    if-either (λ ys. used + chars ys ≤ limit) (leb limit used) _ _ (λ full. omega arith)
      (λ room.
        if-either (λ ys. used + chars ys ≤ limit) (is_empty content) _ _ (λ e. omega arith)
          (λ some_text.
            omega (
              arith,
              short,
              chars-selected limit (used + length content) hs (omega (arith, short)),
            )))

-- No id stands twice.
abbrev pub IsDistinct : List String → Type 0
IsDistinct [] = Unit
IsDistinct (x ∷ xs) = (contains xs x ≡ false) × IsDistinct xs

memory_ids-selected :
    (limit used : ℕ) (hs : List MemoryHit)
    → (rest : List String) × (memory_ids hs ≡ memory_ids (selected limit used hs) ++ rest)
unfolding selected
memory_ids-selected limit used [] = ([], refl)
memory_ids-selected limit used (x ∷ hs) =
    let content = truncate_preserving_outcome x.content (limit - used) in
    let P = λ (ys : List MemoryHit).
      (rest : List String) × (memory_ids (x ∷ hs) ≡ memory_ids ys ++ rest) in
    if-both P (leb limit used) _ _ (memory_ids (x ∷ hs), refl)
      (if-both P (is_empty content) _ _ (memory_ids (x ∷ hs), refl)
        (let (rest, is) = memory_ids-selected limit (used + length content) hs in
          (rest, ap (λ ys. x.memory_id ∷ ys) is)))

module _ (preview : MemoryHit → MemoryHit)
    (same_id : (h : MemoryHit) → (preview h).memory_id ≡ h.memory_id) where
  -- What is kept are ids that were not seen, and every such id.
  deduplicated-contains :
      (seen : List String) (hs : List MemoryHit) (id : String)
      → contains (memory_ids (deduplicated preview seen hs)) id
        ≡ (contains (memory_ids hs) id && not (contains seen id))
  unfolding deduplicated
  deduplicated-contains seen [] id = refl
  deduplicated-contains seen (h ∷ hs) id =
      let P = λ (xs : List MemoryHit).
        contains (memory_ids xs) id
        ≡ (contains (memory_ids (h ∷ hs)) id && not (contains seen id)) in
      if-either P (contains seen h.memory_id) _ _
        (λ old.
          ground (arith, deduplicated-contains seen hs id, contains_eq seen h.memory_id id, old))
        (λ new. rw (same_id h) (
          ground (
            arith,
            deduplicated-contains (h.memory_id ∷ seen) hs id,
            contains_eq seen h.memory_id id,
            new,
          )))

  unseen :
      (seen : List String) (h : MemoryHit) (hs : List MemoryHit)
      → contains (memory_ids (deduplicated preview (h.memory_id ∷ seen) hs)) h.memory_id ≡ false
  unseen seen h hs =
      ground (arith, deduplicated-contains (h.memory_id ∷ seen) hs h.memory_id, eq_refl h.memory_id)

  deduplicated-IsDistinct :
      (seen : List String) (hs : List MemoryHit)
      → IsDistinct (memory_ids (deduplicated preview seen hs))
  unfolding deduplicated
  deduplicated-IsDistinct seen [] = tt
  deduplicated-IsDistinct seen (h ∷ hs) =
      if-both (λ xs. IsDistinct (memory_ids xs)) (contains seen h.memory_id) _ _
        (deduplicated-IsDistinct seen hs)
        (rw (same_id h) (unseen seen h hs), deduplicated-IsDistinct (h.memory_id ∷ seen) hs)

IsDistinct-start : (xs ys : List String) → IsDistinct (xs ++ ys) → IsDistinct xs
IsDistinct-start [] ys h = tt
IsDistinct-start (x ∷ xs) ys (new, h) =
    (ground (arith, contains-append xs ys x), IsDistinct-start xs ys h)

-- What the context gets: no more characters than its limit, which the telemetry tells; ids that are
-- distinct, and that begin the list of the ids that were found, in which each id that the store answered
-- stands once.
pub retrieve_bounds :
    (preview : MemoryHit → MemoryHit) (limit : ℕ) (found : List MemoryHit)
    → ((h : MemoryHit) → (preview h).memory_id ≡ h.memory_id)
    → let (hits, telemetry) = retrieve preview limit found in
      (chars hits ≤ limit)
      × (telemetry.context_chars ≡ chars hits)
      × IsDistinct (memory_ids hits)
      × ((rest : List String) × (telemetry.retrieved_ids ≡ memory_ids hits ++ rest))
      × IsDistinct telemetry.retrieved_ids
      × ((id : String) → contains telemetry.retrieved_ids id ≡ contains (memory_ids found) id)
unfolding retrieve
retrieve_bounds preview limit found same_id =
    let hits = deduplicated preview [] found in
    let (rest, is) = memory_ids-selected limit 0 hits in
    let once = deduplicated-IsDistinct preview same_id [] found in
    (
      omega (arith, chars-selected limit 0 hits (omega arith)),
      refl,
      IsDistinct-start (memory_ids (selected limit 0 hits)) rest (subst IsDistinct is once),
      (rest, is),
      once,
      λ id. ground (arith, deduplicated-contains preview same_id [] found id),
    )
