-- ===== src/Lifecycle.antt =====
-- Phases and task statuses: the enumerations of packages/schema/src/versions.ts, the transition
-- tables of packages/schema/src/governance.ts, and the guards of packages/core/src/phases.ts and
-- packages/core/src/tasks.ts.
mod Names
pub mod Walks
mod Tests
pub use Names.*
use legion_cli.Prelude.{
  Bool, true, false, not, ◌&&◌, ◌||◌, Option, none, some, List, [], ◌∷◌, String, contains, ◌==◌,
  if◌then◌else◌,
}
use legion_cli.Refusal.{Guarded, allowed, refused, concat}

unfoldable pub legal_phase_transitions : Phase → List Phase
legal_phase_transitions uninitialized = initialized ∷ []
legal_phase_transitions initialized = intent_draft ∷ []
legal_phase_transitions intent_draft = intent_ready ∷ []
legal_phase_transitions intent_ready = discussing ∷ []
legal_phase_transitions discussing = spec_draft ∷ []
legal_phase_transitions spec_draft = spec_frozen ∷ []
legal_phase_transitions spec_frozen = planning ∷ abandoned ∷ []
legal_phase_transitions planning = plan_failed ∷ plan_ready ∷ abandoned ∷ []
legal_phase_transitions plan_failed = spec_draft ∷ planning ∷ abandoned ∷ []
legal_phase_transitions plan_ready = planning ∷ executing ∷ abandoned ∷ []
legal_phase_transitions executing = executing ∷ ready_to_ship ∷ shipped ∷ abandoned ∷ []
legal_phase_transitions ready_to_ship = shipped ∷ executing ∷ abandoned ∷ []
legal_phase_transitions shipped = intent_draft ∷ []
legal_phase_transitions abandoned = intent_draft ∷ []

-- A phase without an entry in the partial record has no such transition.
unfoldable pub undo_only_phase_transitions : Phase → List Phase
undo_only_phase_transitions shipped = executing ∷ []
undo_only_phase_transitions _ = []

unfoldable pub ship_rollback_phase_transitions : Phase → List Phase
ship_rollback_phase_transitions shipped = ready_to_ship ∷ executing ∷ []
ship_rollback_phase_transitions _ = []

unfoldable pub legal_task_transitions : TaskStatus → List TaskStatus
legal_task_transitions todo = ready ∷ blocked ∷ []
legal_task_transitions ready = in_progress ∷ blocked ∷ todo ∷ []
legal_task_transitions in_progress = verifying ∷ blocked ∷ []
legal_task_transitions verifying = done ∷ blocked ∷ []
legal_task_transitions blocked = todo ∷ ready ∷ []
legal_task_transitions done = compacted ∷ todo ∷ []
legal_task_transitions compacted = []

unfoldable pub can_transition : Phase → Phase → Bool
unfolding legal_phase_transitions
can_transition from to = contains (legal_phase_transitions from) to

unfoldable pub can_transition_task_status : TaskStatus → TaskStatus → Bool
unfolding legal_task_transitions
can_transition_task_status from to =
    if from == to then true else contains (legal_task_transitions from) to

unfoldable pub status_after_undo_dependency : TaskStatus → Option TaskStatus
status_after_undo_dependency ready = some todo
status_after_undo_dependency in_progress = some blocked
status_after_undo_dependency verifying = some blocked
status_after_undo_dependency _ = none

unfoldable pub is_terminal_task_status : TaskStatus → Bool
is_terminal_task_status status = status == done || status == blocked || status == compacted

abbrev pub open_task_statuses : List TaskStatus
open_task_statuses = todo ∷ ready ∷ in_progress ∷ verifying ∷ []

-- `safe_parse` is `PhaseSchema.safeParse`, of Zod; an unknown name is refused.
unfoldable pub assert_legal_phase : (String → Option Phase) → String → Guarded Phase
assert_legal_phase safe_parse name = elim (safe_parse name) [
  | some phase ↦ allowed phase
  | none ↦ refused (concat "unknown phase " name) "legion-cli spec or legion-cli spec approve"
]

unfoldable pub hint_for_illegal_transition : Phase → Phase → String
hint_for_illegal_transition from initialized = "legion-cli init"
hint_for_illegal_transition from spec_frozen = "legion-cli spec approve"
hint_for_illegal_transition from planning = "legion-cli plan"
hint_for_illegal_transition from plan_ready = "legion-cli plan"
hint_for_illegal_transition from plan_failed = "legion-cli plan"
hint_for_illegal_transition from executing =
    if from == plan_failed then "fix the FAIL list, then legion-cli plan" else "legion-cli plan"
hint_for_illegal_transition from ready_to_ship = "legion-cli qa"
hint_for_illegal_transition from shipped = "legion-cli qa"
hint_for_illegal_transition from intent_draft =
    if from == shipped || from == abandoned
    then "legion-cli spec new"
    else "legion-cli spec or legion-cli spec approve"
hint_for_illegal_transition from _ = "legion-cli spec or legion-cli spec approve"

unfoldable pub assert_can_transition : Phase → Phase → Guarded (Unit {0})
unfolding can_transition hint_for_illegal_transition
assert_can_transition from to =
    if (from == to) && (to == executing)
    then allowed tt
    else if can_transition from to
    then allowed tt
    else refused
        (concat "cannot transition from "
          (concat (phase_name from) (concat " to " (phase_name to))))
        (hint_for_illegal_transition from to)

unfoldable pub assert_can_undo_transition : Phase → Phase → Guarded (Unit {0})
unfolding undo_only_phase_transitions
assert_can_undo_transition from to =
    if contains (undo_only_phase_transitions from) to
    then allowed tt
    else refused
        (concat "undo cannot move from " (concat (phase_name from) (concat " to " (phase_name to))))
        "legion-cli status"

unfoldable pub assert_task_status_transition : TaskStatus → TaskStatus → Guarded (Unit {0})
unfolding can_transition_task_status
assert_task_status_transition from to =
    if can_transition_task_status from to
    then allowed tt
    else refused
        (concat "cannot move task from "
          (concat (task_status_name from) (concat " to " (task_status_name to))))
        "legion-cli status --blockers"
