-- ===== src/Memory/Store/Content.antt =====
-- src/evoci/memory/store.py, `format_episode_content`: what an episode tells, with its outcome first.
use evo_ci.Prelude.{
  String, Option, none, some, List, [], ◌∷◌, ◌++◌, not, ◌||◌, ◌==◌, if◌then◌else◌, keep, map, ◌⧺◌,
  join_with, truthy,
}
use evo_ci.Tools.Paths.{codes, lower, occurs}
use evo_ci.Domain.Results.{FailureClass, repair, model, budget, policy, infrastructure}
use evo_ci.Memory.Models.{Episode}

abbrev class_text : FailureClass → String
class_text repair = "repair"
class_text model = "model"
class_text budget = "budget"
class_text policy = "policy"
class_text infrastructure = "infrastructure"

-- `_join`
abbrev pub join_items : List String → String
join_items items = join_with "; " (keep (λ s. not (s == "")) items)

abbrev if_text : String → Option String → List String
if_text label value = elim (truthy value) [ none ↦ [] | some s ↦ (label ⧺ s) ∷ [] ]

abbrev if_items : String → List String → List String
if_items label [] = []
if_items label (s ∷ ss) = (label ⧺ join_items (s ∷ ss)) ∷ []

-- A fix that does not say so itself is marked as failed.
unfoldable pub marked : String → String
marked item =
    if occurs (codes "failed") (lower item) || occurs (codes "unconfirmed") (lower item)
    then item
    else item ⧺ " (failed/unconfirmed)"

unfoldable pub success_parts : Episode → List String
success_parts e =
    "OUTCOME=success"
    ∷ e.failure_summary
    ∷ (if_text "ROOT_CAUSE=" e.root_cause ++ if_text "SUCCESSFUL_FIX=" e.successful_fix_summary)

unfoldable pub failure_parts : Episode → List String
failure_parts e =
    "OUTCOME=failed"
    ∷ ("FAILURE_CLASS=" ⧺ class_text e.failure_class)
    ∷ e.failure_summary
    ∷ (if_text "FAILURE_STAGE=" e.failure_stage
        ++ (if_text "FAILURE_REASON=" e.failure_reason
            ++ (if_items "ATTEMPTED_FIXES=" (map marked e.attempted_fix_summaries)
                ++ (if_items "ATTEMPTED_FILES=" e.attempted_files
                    ++ (if_items "VERIFICATION_FAILURES=" e.verification_failures
                        ++ (if_items "EXTERNAL_FAILURE_DETAILS=" e.external_failure_details
                            ++ (if_text "HYPOTHESIS (unverified): " e.root_cause
                                ++ if_items "HYPOTHESES_ATTEMPTED (unverified): "
                                    e.hypotheses_attempted)))))))

unfoldable pub episode_content : Episode → String
episode_content e =
    join_with "\n"
      (keep (λ s. not (s == "")) (if e.success then success_parts e else failure_parts e))
