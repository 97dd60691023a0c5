-- ===== src/Governance/Rules/Obeys.antt =====
-- The governance boundary model, rule by rule, as statements about one boundary.
use legion_cli.Prelude.{
  ◌≡◌, ◌≢◌, ◌⊎◌, true, false, some, map, filter, Memᴰ, list_eq, option_eq, nat_eq, contains,
}
use legion_cli.Text.{Text}
use legion_cli.Lifecycle.{
  TaskStatus, todo, in_progress, verifying, done, shipped, advisory, phase_eq, status_eq, mode_eq,
  can_transition, can_transition_task_status, status_after_undo_dependency,
  undo_only_phase_transitions, ship_rollback_phase_transitions,
}
use legion_cli.Governance.Overlap.Laws.{Collide, Claim, claims}
use legion_cli.Governance.Records.{
  Stage, Freshness, Liveness, AcceptanceStatus, ShipStatus, Action, Outcome, TaskRow, ComponentRow,
  AcceptanceRow, Ship, stage_eq, freshness_eq, liveness_eq, acceptance_status_eq, ship_status_eq,
  action_eq, outcome_eq, projection_eq,
}
use legion_cli.Governance.Rules.{Span, is_active, entry_of, prior_status, is_authority_action}

module _ (s : Span) where
  open s use {action, outcome, before, after, retried, trace_has_prepare, prepared}

  abbrev pub Succeeds : Type 0
  Succeeds = outcome ≡ Outcome.success

  -- No task is active under advisory control.
  abbrev pub NotActive : Type 0
  NotActive =
      after.control_mode ≡ advisory → (t : TaskRow) → Memᴰ t after.tasks → is_active t ≡ false

  abbrev pub NotStarted : Type 0
  NotStarted = action ≡ Action.task_start → Succeeds → before.control_mode ≢ advisory

  -- A live claim keeps its owner.
  abbrev pub ClaimKept : Type 0
  ClaimKept =
      action ≡ Action.claim_acquire
      → Succeeds
      → before.claim.liveness ≡ Liveness.live
      → after.claim.owner ≡ before.claim.owner

  -- The write scopes of active tasks are apart.
  abbrev pub Apart : (Text → Text) → Type 0
  Apart lower =
      let all = claims lower (map entry_of (filter is_active after.tasks)) in
      (c d : Claim) → Memᴰ c all → Memᴰ d all → ¬ Collide d c

  -- A task that a completion leaves done was verifying or done before.
  abbrev pub Verified : Type 0
  Verified =
      action ≡ Action.task_complete
      → Succeeds
      → (t : TaskRow) → Memᴰ t after.tasks
      → t.status ≡ done
      → (prior_status before.tasks t.id ≡ some done)
        ⊎ (prior_status before.tasks t.id ≡ some verifying)

  abbrev pub BecomesShipped : Type 0
  BecomesShipped = Succeeds × (before.phase ≢ shipped) × (after.phase ≡ shipped)

  -- What ships has passed integration, review and every component.
  abbrev pub Checked : Type 0
  Checked =
      BecomesShipped
      → (before.integration ≡ Stage.passed)
        × (before.review ≡ Stage.passed)
        × ((c : ComponentRow) → Memᴰ c before.components → c.status ≡ Stage.passed)

  abbrev pub Authorised : Type 0
  Authorised =
      Succeeds → is_authority_action action ≡ true → before.approval.freshness ≡ Freshness.current

  abbrev pub AcceptedLate : Type 0
  AcceptedLate =
      action ≡ Action.acceptance_record
      → Succeeds
      → (before.integration ≡ Stage.passed) × (before.review ≡ Stage.passed)

  -- What ships by a confirmation or a completion has every acceptance passed and current.
  abbrev pub Accepted : Type 0
  Accepted =
      BecomesShipped
      → (action ≡ Action.ship_confirm) ⊎ (action ≡ Action.ship_complete)
      → (e : AcceptanceRow) → Memᴰ e before.acceptance
      → (e.status ≡ AcceptanceStatus.passed) × (e.freshness ≡ Freshness.current)

  abbrev pub Runs : Type 0
  Runs = (Succeeds ⊎ (outcome ≡ Outcome.failed)) × (retried ≡ false)

  -- Without an explicit retry nothing that failed is run again.
  abbrev pub IntegrationOnce : Type 0
  IntegrationOnce =
      Runs
      → action ≡ Action.integration_start
      → (before.integration ≢ Stage.failed)
        × ((c : ComponentRow) → Memᴰ c before.components → c.status ≢ Stage.failed)

  abbrev pub ReviewOnce : Type 0
  ReviewOnce = Runs → action ≡ Action.review_start → before.review ≢ Stage.failed

  -- A confirmation, or a completion in a trace with a preparation, keeps the prepared preview.
  abbrev pub PreviewKept : Type 0
  PreviewKept =
      Succeeds
      → (action ≡ Action.ship_confirm)
        ⊎ ((action ≡ Action.ship_complete) × (trace_has_prepare ≡ true))
      → (p : Ship) × (prepared ≡ some p)
        × (action ≡ Action.ship_confirm → after.ship.confirmed ≡ true)
        × (after.ship.confirmation_id ≡ p.confirmation_id)
        × (after.ship.preview_fingerprint ≡ p.preview_fingerprint)

  abbrev pub RolledBack : Type 0
  RolledBack =
      action ≡ Action.ship_rollback
      → Succeeds
      → (after.ship.status ≢ ShipStatus.complete) × (after.phase ≢ shipped)

  abbrev pub LegalPhase : Type 0
  LegalPhase =
      Succeeds
      → (before.phase ≡ after.phase)
        ⊎ (can_transition before.phase after.phase ≡ true)
        ⊎ ((action ≡ Action.undo)
            × (contains (undo_only_phase_transitions before.phase) after.phase ≡ true))
        ⊎ ((action ≡ Action.ship_rollback)
            × (contains (ship_rollback_phase_transitions before.phase) after.phase ≡ true))

  abbrev pub LegalMove : TaskStatus → TaskStatus → Type 0
  LegalMove from to =
      (can_transition_task_status from to ≡ true)
      ⊎ ((action ≡ Action.undo) × (status_after_undo_dependency from ≡ some to))
      ⊎ ((action ≡ Action.task_start) × (from ≡ todo) × (to ≡ in_progress))

  abbrev pub LegalTasks : Type 0
  LegalTasks =
      (t : TaskRow)
      → Memᴰ t after.tasks
      → (from : TaskStatus) → prior_status before.tasks t.id ≡ some from
      → LegalMove from t.status

  abbrev pub Unchanged : Type 0
  Unchanged = outcome ≡ Outcome.refused → before ≡ after

-- A boundary that keeps the whole model.
pub record Obeys (lower : Text → Text) (s : Span) : Type 0 where
  pub not_active : NotActive s
  pub not_started : NotStarted s
  pub claim_kept : ClaimKept s
  pub apart : Apart s lower
  pub verified : Verified s
  pub checked : Checked s
  pub authorised : Authorised s
  pub accepted_late : AcceptedLate s
  pub accepted : Accepted s
  pub integration_once : IntegrationOnce s
  pub review_once : ReviewOnce s
  pub preview_kept : PreviewKept s
  pub rolled_back : RolledBack s
  pub legal_phase : LegalPhase s
  pub legal_tasks : LegalTasks s
  pub unchanged : Unchanged s
