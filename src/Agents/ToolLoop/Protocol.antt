-- ===== src/Agents/ToolLoop/Protocol.antt =====
-- The protocol of the messages in src/evoci/agents/tool_loop.py: what a provider accepts, and that the
-- loop keeps to it in every turn.
pub mod Strict
use evo_ci.Prelude.{
  ℕ, zero, suc, ◌+◌, ◌≡◌, refl, sym, ◌∙◌, String, Option, none, some, List, [], ◌∷◌, ◌++◌, Bool,
  true, false, Outcome, ok, raise, arith, map, if◌then◌else◌, ◌==◌, eq_refl, is_empty, other_error,
  ap, ltb, Bool-cases, inl, inr, ◌⊎◌,
}
use evo_ci.Runtime.Budget.{RunRepairBudget, combined, consume_tool_call, consume_model_call}
use evo_ci.Tools.Registry.{ToolRegistry}
use evo_ci.Tools.Paths.{strip}
use evo_ci.Runtime.Events.{RunEvent}
use evo_ci.Agents.ToolLoop.Pages.{Page, with_reader, shared}
use evo_ci.Agents.ToolLoop.Calls.{
  ToolCallRequest, ToolLoopMessage, system, user, assistant, tool, ToolContent, exhausted, Site,
  LoopState,
}
use evo_ci.Agents.ToolLoop.Answers.{
  Stage, ◌then_do◌, charge, answer_call, answer_calls, refusals, stop_calls, say, log,
}
use evo_ci.Agents.ToolLoop.Turns.{
  Gateway, ToolModelResponse, Final, turn, turns, replied, calls_of, closing, note_turn, asked,
  credited, exhausted_note,
}
use evo_ci.Agents.ToolLoop.Run.{
  BoundedToolAgent, Request, run, start, looped, finished, site_of, limits,
}
use evo_ci.Agents.ToolLoop.Stages.{
  After, then_do-After, then_do-cong, SameTalk, charge-same, Answered, answer_call-Answered,
  either-After, imp-After,
}

abbrev pub ids : List ToolCallRequest → List String
ids calls = map (λ c. c.call_id) calls

-- The ids that still wait for an answer, after one message more; none where the message is out of place.
abbrev pub receive : Option (List String) → ToolLoopMessage → Option (List String)
receive none m = none
receive (some []) (system s) = some []
receive (some []) (user s) = some []
receive (some []) (assistant s calls) = some (ids calls)
receive (some []) (tool id content) = none
receive (some (w ∷ ws)) (tool id content) = if w == id then some ws else none
receive (some (w ∷ ws)) m = none

unfoldable pub replay : Option (List String) → List ToolLoopMessage → Option (List String)
replay waiting [] = waiting
replay waiting (m ∷ ms) = replay (receive waiting m) ms

abbrev none_waits : Option (List String) → Bool
none_waits none = false
none_waits (some ws) = is_empty ws

-- No message is out of place, and no call waits.
unfoldable pub is_complete : List ToolLoopMessage → Bool
is_complete ms = none_waits (replay (some []) ms)

replay-append :
    (w : Option (List String)) (xs ys : List ToolLoopMessage)
    → replay w (xs ++ ys) ≡ replay (replay w xs) ys
unfolding replay
replay-append w [] ys = refl
replay-append w (x ∷ xs) ys = replay-append (receive w x) xs ys

replay-refusals :
    (calls : List ToolCallRequest) → replay (some (ids calls)) (refusals calls) ≡ some []
unfolding replay
replay-refusals [] = refl
replay-refusals (c ∷ cs) = rw (eq_refl c.call_id, replay) (replay-refusals cs)

one_more :
    (ws vs : List String) (ms : List ToolLoopMessage) (m : ToolLoopMessage)
    → replay (some []) ms ≡ some ws
    → receive (some ws) m ≡ some vs
    → replay (some []) (ms ++ m ∷ []) ≡ some vs
unfolding replay
one_more ws vs ms m h k = replay-append (some []) ms (m ∷ []) ∙ rw h k

one_answer :
    (id : String) (ws : List String) (ms : List ToolLoopMessage) (content : ToolContent)
    → replay (some []) ms ≡ some (id ∷ ws)
    → replay (some []) (ms ++ tool id content ∷ []) ≡ some ws
one_answer id ws ms content h = one_more (id ∷ ws) ws ms (tool id content) h (rw (eq_refl id) refl)

module _ {S : Type 0} where
  -- The calls that wait in a state.
  abbrev pub Waits : List String → LoopState S → Type 0
  Waits ws st = replay (some []) st.messages ≡ some ws

  -- Every call of a message gets its answer, whether it is run or comes after the limit.
  answer_calls-Waits :
      (s : Site) (i : ℕ) (calls : List ToolCallRequest) (st : LoopState S)
      → Waits (ids calls) st
      → After (Waits []) (answer_calls s i calls st)
  unfolding answer_calls
  answer_calls-Waits s i [] st h = h
  answer_calls-Waits s i (c ∷ cs) st h =
      let counted = record st { tool_count = st.tool_count + 1 } in
      either-After (Waits []) (ltb s.max_tools (st.tool_count + 1)) _ _
        (λ over.
          replay-append (some []) st.messages (refusals (c ∷ cs)) ∙ rw h (replay-refusals (c ∷ cs)))
        (λ within.
          then_do-After (Waits (ids cs)) (Waits []) (answer_call s i c counted)
            (answer_calls s i cs)
            (imp-After
              (Answered c
                (record counted { budgets = (combined consume_tool_call counted.budgets).0 }))
              (Waits (ids cs)) (answer_call s i c counted)
              (λ st' a. rw a.messages (one_answer c.call_id (ids cs) st.messages a.content h))
              (answer_call-Answered s i c counted))
            (λ st' w. answer_calls-Waits s i cs st' w))

  pub charge-Waits :
      (st : LoopState S) → Waits [] st → After (Waits []) (charge consume_model_call st)
  charge-Waits st h =
      let charged = record st { budgets = (combined consume_model_call st.budgets).0 } in
      imp-After (SameTalk charged) (Waits []) (charge consume_model_call st)
        (λ paid same. rw same.messages h) (charge-same consume_model_call st)

  pub replied-Waits :
      (s : Site) (i : ℕ) (st : LoopState S) (r : Outcome ToolModelResponse)
      → Waits [] st
      → After (Waits []) (replied s i st r)
  replied-Waits s i st (raise e) h = tt
  replied-Waits s i st (ok response) h = called response.tool_calls (
      one_more [] (ids response.tool_calls) st.messages
        (assistant response.content response.tool_calls) h refl)
    where
      called :
          (calls : List ToolCallRequest)
          → replay (some []) (st.messages ++ assistant response.content response.tool_calls ∷ [])
            ≡ some (ids calls)
          → After (Waits []) (
              calls_of s i calls
                (say (assistant response.content response.tool_calls) (note_turn s i [] st)))
      called [] h = h
      called (c ∷ cs) h = answer_calls-Waits s i (c ∷ cs) _ h

  pub closing-Waits : (st : LoopState S) → Waits [] st → Waits [] (closing st)
  closing-Waits st h = closed st.should_finalize
    where
      closed : (b : Bool) → Waits [] (if b then st else say (user exhausted_note) st)
      closed true = h
      closed false = one_more [] [] st.messages (user exhausted_note) h refl
