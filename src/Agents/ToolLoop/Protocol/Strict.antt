-- ===== src/Agents/ToolLoop/Protocol/Strict.antt =====
-- The gateway of src/evoci/agents/tool_loop.py is only called with messages in the provider's protocol.
use evo_ci.Prelude.{
  ℕ, zero, suc, ◌+◌, ◌≡◌, refl, ◌∙◌, String, some, List, [], true, Outcome, ok, raise,
  if◌then◌else◌, ◌==◌, other_error, ap,
}
use evo_ci.Runtime.Budget.{consume_model_call}
use evo_ci.Tools.Registry.{ToolRegistry}
use evo_ci.Tools.Paths.{strip}
use evo_ci.Runtime.Events.{RunEvent}
use evo_ci.Agents.ToolLoop.Pages.{Page, with_reader, shared}
use evo_ci.Agents.ToolLoop.Calls.{ToolLoopMessage, Site, LoopState}
use evo_ci.Agents.ToolLoop.Answers.{Stage, ◌then_do◌, charge}
use evo_ci.Agents.ToolLoop.Turns.{
  Gateway, turn, turns, unless_done, closing, final_answer, asked, credited,
}
use evo_ci.Agents.ToolLoop.Run.{
  BoundedToolAgent, Request, run, start, looped, finished, site_of, limits,
}
use evo_ci.Agents.ToolLoop.Stages.{After, then_do-After, then_do-cong, unless_done-After, if-cong}
use evo_ci.Agents.ToolLoop.Protocol.{
  replay, is_complete, Waits, charge-Waits, replied-Waits, closing-Waits,
}

module _ {O : Type 0} where
  -- A gateway like `g` that fails on messages that a provider does not accept.
  abbrev pub strict : Gateway O → Gateway O
  strict g = record {
    next_action =
        λ i ms. if is_complete ms then g.next_action i ms else raise (other_error "bad messages");
    finalize = λ ms. if is_complete ms then g.finalize ms else raise (other_error "bad messages");
  }

waits_complete : (ms : List ToolLoopMessage) → replay (some []) ms ≡ some [] → is_complete ms ≡ true
unfolding is_complete
waits_complete ms h = rw h refl

module _ {S O : Type 0} where
  turn-Waits :
      (g : Gateway O) (s : Site) (i : ℕ) (st : LoopState S)
      → Waits [] st
      → After (Waits []) (turn g s i st)
  unfolding turn
  turn-Waits g s i st h =
      then_do-After (Waits []) (Waits []) (charge consume_model_call st) _ (charge-Waits st h)
        (λ paid w. replied-Waits s i paid (g.next_action i paid.messages) w)

  turn-strict :
      (g : Gateway O) (s : Site) (i : ℕ) (st : LoopState S)
      → Waits [] st
      → turn g s i st ≡ turn (strict g) s i st
  unfolding turn
  turn-strict g s i st h =
      then_do-cong (Waits []) (charge consume_model_call st) _ _ (charge-Waits st h)
        (λ paid w. rw (waits_complete paid.messages w) refl)

  turns-Waits :
      (g : Gateway O) (s : Site) (n i : ℕ) (st : LoopState S)
      → Waits [] st
      → After (Waits []) (turns g s n i st)
  unfolding turns
  turns-Waits g s zero i st h = h
  turns-Waits g s (suc n) i st h =
      then_do-After (Waits []) (Waits []) (turn g s i st) _ (turn-Waits g s i st h) (λ st' w.
        unless_done-After (Waits []) (turns g s n (i + 1)) st' w
          (λ v. turns-Waits g s n (i + 1) st' v))

  turns-strict :
      (g : Gateway O) (s : Site) (n i : ℕ) (st : LoopState S)
      → Waits [] st
      → turns g s n i st ≡ turns (strict g) s n i st
  unfolding turns
  turns-strict g s zero i st h = refl
  turns-strict g s (suc n) i st h =
      then_do-cong (Waits []) (turn g s i st) _ _ (turn-Waits g s i st h) (λ st' w.
        if-cong st'.should_finalize (st', ok tt) (turns g s n (i + 1) st')
          (turns (strict g) s n (i + 1) st') (turns-strict g s n (i + 1) st' w))
      ∙ ap (λ m. m then_do unless_done (turns (strict g) s n (i + 1))) (turn-strict g s i st h)

  asked-strict :
      (g : Gateway O) (s : Site) (m : Stage S)
      → After (Waits []) m
      → asked g s m ≡ asked (strict g) s m
  asked-strict g s (st, ok u) w = rw (waits_complete st.messages w) refl
  asked-strict g s (st, raise e) w = refl

  finished-strict :
      (g : Gateway O) (activated : S → List String) (s : Site) (m : Stage S)
      → After (Waits []) m
      → finished g activated s m ≡ finished (strict g) activated s m
  unfolding final_answer
  finished-strict g activated s (st, raise e) w = refl
  finished-strict g activated s (st, ok u) w = ap (credited activated s) (
      asked-strict g s (charge consume_model_call (closing st))
        (charge-Waits (closing st) (closing-Waits st w)))

  looped-strict :
      (g : Gateway O) (activated : S → List String) (q : Request) (st : LoopState S)
      (r : Outcome (ℕ × ℕ))
      → Waits [] st
      → looped g activated q st r ≡ looped (strict g) activated q st r
  looped-strict g activated q st (raise e) h = refl
  looped-strict g activated q st (ok (n, m)) h =
      finished-strict g activated (site_of q m) (turns g (site_of q m) n 1 st)
        (turns-Waits g (site_of q m) n 1 st h)
      ∙ ap (finished (strict g) activated (site_of q m)) (turns-strict g (site_of q m) n 1 st h)

  -- The loop never shows the model messages that a provider does not accept: with a gateway that fails
  -- where a tool message is out of place, or a call of an earlier message has no answer of its own, in
  -- the order of the calls, the agent does exactly what it does with the gateway itself. That holds
  -- where tools fail, where the tool calls run out, and for the final call.
  pub run-strict :
      (render : Page → List ℕ) (g : Gateway O) (activated : S → List String) (a : BoundedToolAgent)
      (q : Request) (events : List RunEvent) (tools : ToolRegistry S)
      → run render g activated a q events tools ≡ run render (strict g) activated a q events tools
  unfolding run
  run-strict render g activated a q events tools = if-cong (strip q.invocation_id == "") _ _ _ (
      looped-strict g activated q (start q events (with_reader render (shared tools))) (limits a q)
        (unfold replay in refl))
