-- ===== src/Memory/Retrieval.antt =====
-- src/evoci/memory/retrieval.py: the hits that fit into the context, each once. The preview of a hit is an
-- argument; what the store answers is a list.
pub mod Budget
use evo_ci.Prelude.{
  ℕ, zero, suc, ◌+◌, ◌-◌, String, List, [], ◌∷◌, ◌++◌, Bool, true, false, leb, if◌then◌else◌,
  length, map, contains, is_empty,
}
use evo_ci.Tools.Paths.{codes}
use evo_ci.Memory.Models.{MemoryHit, RetrievalTelemetry}

-- `content[:n]`
unfoldable pub prefix : ℕ → List ℕ → List ℕ
prefix n [] = []
prefix zero (x ∷ xs) = []
prefix (suc n) (x ∷ xs) = x ∷ prefix n xs

-- `"\n[truncated]"`
abbrev pub marker : List ℕ
marker = 10 ∷ 91 ∷ 116 ∷ 114 ∷ 117 ∷ 110 ∷ 99 ∷ 97 ∷ 116 ∷ 101 ∷ 100 ∷ 93 ∷ []

unfoldable pub truncate_preserving_outcome : List ℕ → ℕ → List ℕ
truncate_preserving_outcome content remaining =
    if leb remaining 0
    then []
    else if leb (length content) remaining
    then content
    else if leb remaining 12
    then prefix remaining content
    else prefix (remaining - 12) content ++ marker

-- The first hit of each id, as its preview.
unfoldable pub deduplicated :
    (MemoryHit → MemoryHit) → List String → List MemoryHit → List MemoryHit
deduplicated preview seen [] = []
deduplicated preview seen (h ∷ hs) =
    let more = deduplicated preview seen hs in
    let rest = deduplicated preview (h.memory_id ∷ seen) hs in
    if contains seen h.memory_id then more else preview h ∷ rest

-- The hits in their order, while characters are left.
unfoldable pub selected : ℕ → ℕ → List MemoryHit → List MemoryHit
selected limit used [] = []
selected limit used (h ∷ hs) =
    let content = truncate_preserving_outcome h.content (limit - used) in
    let rest = selected limit (used + length content) hs in
    if leb limit used
    then []
    else if is_empty content
    then []
    else record h { content = content } ∷ rest

abbrev pub chars : List MemoryHit → ℕ
chars [] = 0
chars (h ∷ hs) = length h.content + chars hs

abbrev pub memory_ids : List MemoryHit → List String
memory_ids hs = map (λ h. h.memory_id) hs

-- What `retrieve` makes of the hits that the store found; the query is not kept.
unfoldable pub retrieve :
    (MemoryHit → MemoryHit) → ℕ → List MemoryHit → List MemoryHit × RetrievalTelemetry
retrieve preview limit retrieved =
    let hits = deduplicated preview [] retrieved in
    let chosen = selected limit 0 hits in
    (
      chosen,
      record {
        retrieved_ids = memory_ids hits;
        selected_ids = memory_ids chosen;
        context_chars = chars chosen;
      },
    )
