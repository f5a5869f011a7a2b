-- ===== src/Runtime/Recorder/Once.antt =====
-- `emit` of src/evoci/runtime/trajectory.py records each event id once.
use evo_ci.Prelude.{
  ◌≤◌, ◌≡◌, String, List, [], ◌∷◌, ◌++◌, Bool, true, false, ◌==◌, eq_iff, eq_refl, any, count,
  arith, count-append, any-append, sym, ◌∙◌, Bool-cases, inl, inr, ◌⊎◌,
}
use mathlib.Core.List.{append-nil}
use evo_ci.Runtime.Events.{RunEvent}
use evo_ci.Runtime.Recorder.{emit}

abbrev pub has_id : String → RunEvent → Bool
has_id id e = e.event_id == id

-- No two events have the same id.
abbrev pub IsOnce : List RunEvent → Type 0
IsOnce events = (id : String) → count (has_id id) events ≤ 1

count_none :
    (id : String) (es : List RunEvent) → any (has_id id) es ≡ false → count (has_id id) es ≡ 0
count_none id [] h = omega arith
count_none id (e ∷ es) h = ground (arith, h, count_none id es)

-- The event goes to the end of the log, unless its id is there.
emit_cases :
    (e : RunEvent) (es : List RunEvent)
    → (any (has_id e.event_id) es ≡ true) × (emit e es ≡ es)
      ⊎ ((any (has_id e.event_id) es ≡ false) × (emit e es ≡ es ++ e ∷ []))
unfolding emit
emit_cases e es = elim (Bool-cases (any (has_id e.event_id) es)) [
  | inl h ↦ inl (h, rw h)
  | inr h ↦ inr (h, rw h)
]

one_more :
    (e : RunEvent) (es : List RunEvent)
    → IsOnce es
    → any (has_id e.event_id) es ≡ false
    → IsOnce (es ++ e ∷ [])
one_more e es once fresh id = ground (
  arith,
  count-append (has_id id) es (e ∷ []),
  once id,
  eq_iff e.event_id id,
  count_none e.event_id es fresh,
)

emit_there :
    (e : RunEvent) (es : List RunEvent) → any (has_id e.event_id) es ≡ true → emit e es ≡ es
unfolding emit
emit_there e es h = rw h

pub emit-has : (e : RunEvent) (es : List RunEvent) → any (has_id e.event_id) (emit e es) ≡ true
unfolding emit
emit-has e es = ground (arith, any-append (has_id e.event_id) es (e ∷ []), eq_refl e.event_id)

-- Emitting takes nothing out of the log.
pub emit-keeps :
    (p : RunEvent → Bool) (e : RunEvent) (es : List RunEvent)
    → any p es ≡ true
    → any p (emit e es) ≡ true
unfolding emit
emit-keeps p e es h = ground (arith, any-append p es (e ∷ []))

-- Emitting into a log that holds no id twice: the log still holds none twice, holds the event's id, and
-- keeps what it had as its beginning; emitting the event again changes nothing.
pub emit_lem :
    (e : RunEvent) (es : List RunEvent)
    → IsOnce es
    → IsOnce (emit e es)
      × (any (has_id e.event_id) (emit e es) ≡ true)
      × (emit e (emit e es) ≡ emit e es)
      × ((later : List RunEvent) × (emit e es ≡ es ++ later))
emit_lem e es once = elim (emit_cases e es) [
  | inl (there, same) ↦ (
    rw same once,
    emit-has e es,
    emit_there e (emit e es) (emit-has e es),
    ([], same ∙ sym (append-nil es)),
  )
  | inr (fresh, added) ↦ (
    rw added (one_more e es once fresh),
    emit-has e es,
    emit_there e (emit e es) (emit-has e es),
    (e ∷ [], added),
  )
]
