-- ===== src/Graph/Nodes/Apply/Loop.antt =====
-- src/evoci/graph/builder.py: the loop of `apply_candidate` over the edits. It charges a tool call and
-- records it before it writes a file, and it remembers what it writes.
use evo_ci.Prelude.Dict
use evo_ci.Prelude.{
  String, Option, none, some, List, [], ◌∷◌, Bool, not, if◌then◌else◌, Outcome, ok, raise,
  patch_conflict, ◌⧺◌,
}
use evo_ci.Runtime.Events.{RunEvent, tool_call, text}
use evo_ci.Runtime.Budget.{RunRepairBudget, consume_tool_call}
use evo_ci.Runtime.Recorder.{make_event, emit}
use evo_ci.Tools.Paths.{resolve}
use evo_ci.Tools.Filesystem.{Files, read_text_or_none}
use evo_ci.Tools.Patch.{FileEdit, FileBaseline, intended_content, same_text}
use evo_ci.Tools.Patch.Apply.{apply_edit}

pub record Progress : Type 0 where
  pub files : Files
  pub budget : RunRepairBudget
  pub events : List RunEvent
  pub written : List (String × Option String)

-- What the loop leaves behind, and the exception that stopped it.
abbrev pub Applied : Type 0
Applied = Progress × Outcome (Unit {0})

abbrev pub recorded_content : Option FileBaseline → Option String
recorded_content none = none
recorded_content (some b) = b.content

-- `_baseline_content`
abbrev pub baseline_content : List (String × FileBaseline) → String → Option String
baseline_content baseline path = recorded_content (Dict.lookup path baseline)

-- The names that the events of the loop carry.
pub record Names : Type 0 where
  pub run_id : String
  pub agent : String
  pub operation_id : String

abbrev call_id : Names → FileEdit → String
call_id n e = "apply:" ⧺ n.operation_id ⧺ ":" ⧺ e.path

abbrev call_event : Names → FileEdit → RunEvent
call_event n e = make_event n.run_id tool_call (some n.agent) none (call_id n e) (
    ("call_id", text (call_id n e)) ∷ ("tool_name", text "apply_edit") ∷ ("path", text e.path) ∷ [])

abbrev pub note : FileEdit → Progress → Progress
note e p = record p { written = Dict.insert e.path (intended_content e) p.written }

module _ (digest : String → String) (root : List String) (strict : Bool) (names : Names)
    (baseline : List (String × FileBaseline)) where
  -- The write of one edit, after its tool call is charged and recorded.
  unfoldable pub write_charged : FileEdit → Progress → Applied
  unfolding emit
  write_charged e p =
      let (b, charged) = consume_tool_call p.budget in
      let paid = record p { budget = b } in
      elim charged [
        | raise x ↦ (paid, raise x)
        | ok _ ↦
            let noted = note e (record paid { events = emit (call_event names e) p.events }) in
            let (files, done) = apply_edit digest root strict e p.files in
            elim done [
              | raise x ↦ (record noted { files = files }, raise x)
              | ok _ ↦ (record noted { files = files }, ok tt)
            ]
      ]

  -- `_file_text`, for a path that stays in the workspace
  unfoldable pub file_text : Files → String → Option String
  file_text files path = elim (resolve root path) [
    | raise x ↦ none
    | ok at ↦ read_text_or_none files at
  ]

  -- One round: an edit that is in place already is only noted; one whose file is neither as proposed
  -- nor as in the baseline is a conflict.
  unfoldable pub apply_one : FileEdit → Progress → Applied
  unfolding write_charged file_text
  apply_one e p =
      let current = file_text p.files e.path in
      if same_text current (intended_content e)
      then (note e p, ok tt)
      else if not (same_text current (baseline_content baseline e.path))
      then (p, raise (patch_conflict ("file changed since proposal: " ⧺ e.path)))
      else write_charged e p

  unfoldable pub apply_loop : List FileEdit → Progress → Applied
  apply_loop [] p = (p, ok tt)
  apply_loop (e ∷ es) p =
      let (p', done) = apply_one e p in
      elim done [ raise x ↦ (p', raise x) | ok _ ↦ apply_loop es p' ]
