-- ===== src/Governance/Rules.antt =====
-- The rules of `validateGovernanceFrames` (packages/schema/src/governance.ts), one function for
-- each `if` of the loop body: the violations that it adds for one boundary. The `detail` text of a
-- violation is left out.
pub mod Obeys
mod Bits
mod Silent
pub mod Sound
use legion_cli.Prelude.{
  is_empty, is_empty_iff, some_iff, ℕ, Bool, true, false, not, ◌&&◌, ◌||◌, Option, none, some, List,
  [], ◌∷◌, ◌++◌, map, filter, any, ◌==◌, list_eq, option_eq, nat_eq, if◌then◌else◌, contains,
  flat_map,
}
use legion_cli.Text.{Text}
use legion_cli.Lifecycle.{
  Phase, TaskStatus, todo, in_progress, verifying, done, shipped, guarded, advisory, phase_eq,
  status_eq, mode_eq, can_transition, can_transition_task_status, status_after_undo_dependency,
  undo_only_phase_transitions, ship_rollback_phase_transitions,
}
use legion_cli.Governance.Overlap.{Entry, overlapping_write_paths}
use legion_cli.Governance.Records.{
  Stage, Freshness, Liveness, AcceptanceStatus, ShipStatus, Action, Outcome, TaskRow, ComponentRow,
  AcceptanceRow, Ship, Projection, Frame, stage_eq, freshness_eq, liveness_eq, acceptance_status_eq,
  ship_status_eq, action_eq, outcome_eq, projection_eq,
}

pub data Code : Type 0 where
  advisory_execution duplicate_claim overlapping_active_writes completion_without_checks : Code
  stale_authority_use implicit_retry preview_mismatch rollback_claims_delivery : Code
  illegal_phase_transition illegal_task_transition refused_changed_state : Code

-- One boundary as the rules see it: its end frame, the projections before and after, whether its
-- begin and its end both ask for a retry, whether the trace has a `ship-prepare`, and the ship that
-- was prepared last.
pub record Span : Type 0 where
  pub action : Action
  pub outcome : Outcome
  pub before : Projection
  pub after : Projection
  pub retried : Bool
  pub trace_has_prepare : Bool
  pub prepared : Option Ship

abbrev pub success : Span → Bool
success s = s.outcome == Outcome.success

abbrev pub is_active : TaskRow → Bool
is_active t = t.status == in_progress || t.status == verifying

abbrev pub active : Span → List TaskRow
active s = filter is_active s.after.tasks

-- `new Map(before.tasks.map((task) => [task.id, task.status])).get(id)`: the last row wins.
unfoldable pub prior_status : List TaskRow → Text → Option TaskStatus
prior_status [] id = none
prior_status (t ∷ ts) id = elim (prior_status ts id) [
  | some later ↦ some later
  | none ↦ if t.id == id then some t.status else none
]

abbrev pub report : Bool → Code → List Code
report test code = if test then code ∷ [] else []

abbrev pub advisory_left : Span → List Code
advisory_left s =
    report (s.after.control_mode == advisory && not (is_empty (active s))) advisory_execution

abbrev pub advisory_start : Span → List Code
advisory_start s =
    report (s.action == Action.task_start && success s && s.before.control_mode == advisory)
      advisory_execution

abbrev pub claim_taken : Span → List Code
claim_taken s =
    report
      (s.action == Action.claim_acquire
        && success s
        && s.before.claim.liveness == Liveness.live
        && not (s.after.claim.owner == s.before.claim.owner))
      duplicate_claim

abbrev pub entry_of : TaskRow → Entry
entry_of t = record { id = t.id; paths = t.writes }

abbrev pub writes_overlap : (Text → Text) → Span → List Code
writes_overlap lower s =
    report (not (is_empty (overlapping_write_paths lower (map entry_of (active s)))))
      overlapping_active_writes

-- `from !== "done" && from !== "verifying"`, also true of an absent task.
abbrev pub unverified : Option TaskStatus → Bool
unverified from = not (from == some done) && not (from == some verifying)

abbrev pub completed_unverified : List TaskRow → TaskRow → List Code
completed_unverified prior t =
    report (t.status == done && unverified (prior_status prior t.id)) completion_without_checks

abbrev pub completions : Span → List Code
completions s =
    if s.action == Action.task_complete && success s
    then flat_map (completed_unverified s.before.tasks) s.after.tasks
    else []

abbrev pub now_shipped : Span → Bool
now_shipped s = success s && not (s.before.phase == shipped) && s.after.phase == shipped

abbrev pub shipped_unchecked : Span → List Code
shipped_unchecked s =
    report
      (now_shipped s
        && (not (s.before.integration == Stage.passed)
            || not (s.before.review == Stage.passed)
            || any (λ (c : ComponentRow). not (c.status == Stage.passed)) s.before.components))
      completion_without_checks

abbrev pub is_authority_action : Action → Bool
is_authority_action Action.task_start = true
is_authority_action Action.integration_start = true
is_authority_action Action.review_start = true
is_authority_action Action.acceptance_record = true
is_authority_action Action.ship_prepare = true
is_authority_action Action.ship_confirm = true
is_authority_action Action.ship_complete = true
is_authority_action _ = false

abbrev pub authority : Span → List Code
authority s =
    report
      (success s
        && is_authority_action s.action
        && not (s.before.approval.freshness == Freshness.current))
      stale_authority_use

abbrev pub acceptance_early : Span → List Code
acceptance_early s =
    report
      (s.action == Action.acceptance_record
        && success s
        && (not (s.before.integration == Stage.passed) || not (s.before.review == Stage.passed)))
      stale_authority_use

abbrev pub is_unaccepted : AcceptanceRow → Bool
is_unaccepted e =
    not (e.status == AcceptanceStatus.passed) || not (e.freshness == Freshness.current)

abbrev pub shipped_unaccepted : Span → List Code
shipped_unaccepted s =
    report
      (now_shipped s
        && (s.action == Action.ship_confirm || s.action == Action.ship_complete)
        && any is_unaccepted s.before.acceptance)
      stale_authority_use

abbrev pub retries : Span → Bool
retries s = (success s || s.outcome == Outcome.failed) && not s.retried

abbrev pub integration_retry : Span → List Code
integration_retry s =
    report
      (retries s
        && s.action == Action.integration_start
        && (s.before.integration == Stage.failed
            || any (λ (c : ComponentRow). c.status == Stage.failed) s.before.components))
      implicit_retry

abbrev pub review_retry : Span → List Code
review_retry s =
    report (retries s && s.action == Action.review_start && s.before.review == Stage.failed)
      implicit_retry

-- The preview that a confirmation or a completion must keep.
abbrev pub preview_broken : Action → Ship → Option Ship → Bool
preview_broken action now none = true
preview_broken action now (some prepared) =
    (action == Action.ship_confirm && not now.confirmed)
    || not (now.confirmation_id == prepared.confirmation_id)
    || not (now.preview_fingerprint == prepared.preview_fingerprint)

abbrev pub preview : Span → List Code
preview s =
    report
      (success s
        && (s.action == Action.ship_confirm
            || (s.action == Action.ship_complete && s.trace_has_prepare))
        && preview_broken s.action s.after.ship s.prepared)
      preview_mismatch

abbrev pub rollback : Span → List Code
rollback s =
    report
      (s.action == Action.ship_rollback
        && success s
        && (s.after.ship.status == ShipStatus.complete || s.after.phase == shipped))
      rollback_claims_delivery

abbrev pub phase_moved : Span → List Code
phase_moved s =
    let from = s.before.phase in
    let to = s.after.phase in
    report
      (success s
        && not (from == to)
        && not (can_transition from to)
        && not (s.action == Action.undo && contains (undo_only_phase_transitions from) to)
        && not (
            s.action == Action.ship_rollback && contains (ship_rollback_phase_transitions from) to))
      illegal_phase_transition

-- The three `continue`s of the loop over the tasks, and the violation that they guard.
abbrev pub task_moved : Action → Option TaskStatus → TaskStatus → List Code
task_moved action none to = []
task_moved action (some from) to =
    report
      (not (from == to || can_transition_task_status from to)
        && not (action == Action.undo && status_after_undo_dependency from == some to)
        && not (action == Action.task_start && from == todo && to == in_progress))
      illegal_task_transition

abbrev pub tasks_moved : Span → List Code
tasks_moved s =
    flat_map (λ (t : TaskRow). task_moved s.action (prior_status s.before.tasks t.id) t.status)
      s.after.tasks

abbrev pub refusal_changed : Span → List Code
refusal_changed s =
    report (s.outcome == Outcome.refused && not (s.before == s.after)) refused_changed_state

-- Every violation of one boundary, in the order of the loop body.
unfoldable pub span_violations : (Text → Text) → Span → List Code
span_violations lower s =
    advisory_left s
    ++ advisory_start s
    ++ claim_taken s
    ++ writes_overlap lower s
    ++ completions s
    ++ shipped_unchecked s
    ++ authority s
    ++ acceptance_early s
    ++ shipped_unaccepted s
    ++ integration_retry s
    ++ review_retry s
    ++ preview s
    ++ rollback s
    ++ phase_moved s
    ++ tasks_moved s
    ++ refusal_changed s
