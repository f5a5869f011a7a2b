-- ===== src/Agents/ToolLoop/Credit.antt =====
-- The skills that an answer of src/evoci/agents/tool_loop.py is credited with, and their events.
use evo_ci.Prelude.{
  ◌≡◌, refl, ◌∙◌, String, some, List, [], ◌∷◌, ◌++◌, Bool, true, false, not, ◌&&◌, ◌||◌, ok, any,
  keep, contains, contains-append, contains-keep, arith, ◌⧺◌, ◌==◌, eq_iff, ap, Bool-cases, inl,
  inr,
}
use mathlib.Core.Path.{subst}
use evo_ci.Prelude.Sorted.{sorted_set, sorted_set-contains}
use evo_ci.Runtime.Events.{RunEvent, skill_used}
use evo_ci.Runtime.Recorder.{event_id_of, make_event}
use evo_ci.Runtime.Recorder.Once.{has_id, emit-has, emit-keeps}
use evo_ci.Agents.ToolLoop.Calls.{Site, LoopState}
use evo_ci.Agents.ToolLoop.Turns.{
  Final, credited, valid_claims, note_method, note_methods, method_payload,
}

-- The id of the event that notes a procedure of a skill as used.
abbrev pub method_use_id : Site → String → String
method_use_id s skill =
    event_id_of s.run_id skill_used (some s.agent_id) (some s.invocation_id) ("method-use:" ⧺ skill)

module _ {S : Type 0} where
  note_methods-keeps :
      (s : Site) (p : RunEvent → Bool) (skills : List String) (st : LoopState S)
      → any p st.events ≡ true
      → any p (note_methods s skills st).events ≡ true
  note_methods-keeps s p [] st h = h
  note_methods-keeps s p (x ∷ xs) st h =
      note_methods-keeps s p xs (note_method s x st) (emit-keeps p _ st.events h)

  note_methods-has :
      (s : Site) (skills : List String) (st : LoopState S) (skill : String)
      → contains skills skill ≡ true
      → any (has_id (method_use_id s skill)) (note_methods s skills st).events ≡ true
  unfolding make_event
  note_methods-has s [] st skill h = ground arith
  note_methods-has s (x ∷ xs) st skill h = elim (Bool-cases (x == skill)) [
    | inl same ↦
        subst (λ k. any (has_id (method_use_id s k)) (note_methods s (x ∷ xs) st).events ≡ true)
          ((eq_iff x skill).0 same)
          (note_methods-keeps s (has_id (method_use_id s x)) xs (note_method s x st) (
            emit-has
              (make_event s.run_id skill_used (some s.agent_id) (some s.invocation_id)
                ("method-use:" ⧺ x) (method_payload x))
              st.events))
    | inr other ↦ note_methods-has s xs (note_method s x st) skill (ground arith)
  ]

module _ {S O : Type 0} where
  -- The skills that an answer is credited with, where its schema has the field: those it claims that were
  -- loaded in this run, and those whose scripts it ran, and no others. Each of them that has no
  -- script's event has an event of its own in the log; the rest of the answer is kept.
  pub credited-refs :
      (activated : S → List String) (s : Site) (st : LoopState S) (result : Final O)
      (claimed : List String)
      → result.used_skill_refs ≡ some claimed
      → let after = credited activated s (st, ok result) in
        (refs : List String) × (after.1 ≡ ok (record result { used_skill_refs = some refs }))
        × ((skill : String)
            → contains refs skill ≡ (
                contains claimed skill
                  && (contains (activated st.tools.state.inner) skill
                      || contains st.selected_skills skill)
                || contains st.used_skills skill))
        × ((skill : String)
            → contains refs skill ≡ true
            → contains st.used_skills skill ≡ false
            → any (has_id (method_use_id s skill)) after.0.events ≡ true)
  unfolding credited
  credited-refs activated s st result claimed h =
      let claims = valid_claims activated st claimed in
      let fresh = sorted_set (keep (λ x. not (contains st.used_skills x)) claims) in
      let holds = λ (x : String).
        sorted_set-contains x (claims ++ st.used_skills)
        ∙ contains-append claims st.used_skills x in
      (
        sorted_set (claims ++ st.used_skills),
        rw h refl,
        (λ x. holds x ∙ ap (λ b. b || contains st.used_skills x) (contains-keep _ claimed x)),
        (λ x in_refs unused. rw h (
            note_methods-has s fresh st x (
              sorted_set-contains x _
              ∙ contains-keep (λ y. not (contains st.used_skills y)) claims x
              ∙ ground (arith, holds x)))),
      )
