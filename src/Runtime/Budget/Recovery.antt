-- ===== src/Runtime/Budget/Recovery.antt =====
-- src/evoci/runtime/budget.py, `for_run`: a budget that is rebuilt from the events of a run.
use evo_ci.Prelude.{
  ℕ, ◌+◌, ◌<◌, ◌≡◌, refl, List, [], ◌∷◌, ◌++◌, true, false, any, count, count-append, arith, Bool,
  ◌∙◌,
}
use evo_ci.Runtime.Events.{RunEvent, tool_call, model_call, is_type, payload_is}
use evo_ci.Runtime.Recorder.{emit}
use evo_ci.Runtime.Recorder.Once.{has_id}
use evo_ci.Runtime.Budget.{
  consume_model_call, consume_tool_call, counts_model_call, counts_tool_call, recovered,
}

emit_fresh :
    (e : RunEvent) (es : List RunEvent)
    → any (has_id e.event_id) es ≡ false
    → emit e es ≡ es ++ e ∷ []
unfolding emit
emit_fresh e es h = rw h refl

-- The counts of a log that has one event more.
one_more :
    (m t : ℕ) (e : RunEvent) (es : List RunEvent) (models tools : ℕ)
    → any (has_id e.event_id) es ≡ false
    → count counts_model_call (e ∷ []) ≡ models
    → count counts_tool_call (e ∷ []) ≡ tools
    → recovered m t (emit e es) ≡ record (recovered m t es) {
      model_calls = count counts_model_call es + models;
      tool_calls = count counts_tool_call es + tools;
    }
unfolding recovered
one_more m t e es models tools fresh hm ht =
    rw
      (
        emit_fresh e es fresh,
        count-append counts_model_call es (e ∷ []),
        count-append counts_tool_call es (e ∷ []),
        hm,
        ht,
      )
      refl

counted : (f : RunEvent → Bool) (e : RunEvent) → f e ≡ true → count f (e ∷ []) ≡ 1
counted f e h = rw h refl

passed_over : (f : RunEvent → Bool) (e : RunEvent) → f e ≡ false → count f (e ∷ []) ≡ 0
passed_over f e h = rw h refl

-- A rebuilt budget keeps step with the one that is charged. An event of a new id, where calls are left: a tool
-- call outside of cleanup and of what follows the run, and a model call outside of what follows the run, brings the
-- rebuilt budget to what charging it makes of it. A tool call of the scope "cleanup", like that of a rollback,
-- any event of the scope "post_run", and an event of another type leave it.
pub recovered-emit :
    (m t : ℕ) (e : RunEvent) (es : List RunEvent)
    → any (has_id e.event_id) es ≡ false
    → let before = recovered m t es in
      let after = recovered m t (emit e es) in
      (e.type ≡ tool_call
        → payload_is e "budget_scope" "post_run" ≡ false
        → payload_is e "budget_scope" "cleanup" ≡ false
        → before.tool_calls < t
        → after ≡ (consume_tool_call before).0)
      × (e.type ≡ model_call
          → payload_is e "budget_scope" "post_run" ≡ false
          → before.model_calls < m
          → after ≡ (consume_model_call before).0)
      × (e.type ≡ tool_call → payload_is e "budget_scope" "cleanup" ≡ true → after ≡ before)
      × (payload_is e "budget_scope" "post_run" ≡ true → after ≡ before)
      × (is_type e.type tool_call ≡ false → is_type e.type model_call ≡ false → after ≡ before)
unfolding recovered consume_tool_call consume_model_call
recovered-emit m t e es fresh =
    let leaves : counts_model_call e ≡ false
        → counts_tool_call e ≡ false
        → recovered m t (emit e es) ≡ recovered m t es =
      λ no_model no_tool.
        one_more m t e es 0 0 fresh (passed_over counts_model_call e no_model)
          (passed_over counts_tool_call e no_tool)
        ∙ ground arith in
    (
      λ tool in_run no_cleanup left.
          one_more m t e es 0 1 fresh (passed_over counts_model_call e (rw tool refl))
            (counted counts_tool_call e (rw (tool, in_run, no_cleanup) refl))
          ∙ ground (arith, left),
      λ model in_run left.
          one_more m t e es 1 0 fresh (counted counts_model_call e (rw (model, in_run) refl))
            (passed_over counts_tool_call e (rw model refl))
          ∙ ground (arith, left),
      λ tool cleanup. leaves (rw tool refl) (ground (arith, cleanup)),
      λ later. leaves (ground (arith, later)) (ground (arith, later)),
      λ no_tool no_model. leaves (ground (arith, no_model)) (ground (arith, no_tool)),
    )
