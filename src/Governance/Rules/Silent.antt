-- ===== src/Governance/Rules/Silent.antt =====
-- Each rule reports nothing exactly where the boundary keeps the statement of its name.
use legion_cli.Prelude.{
  is_empty_iff, ◌≡◌, refl, subst, ◌⊎◌, inl, inr, ◌↔◌, Bool, true, not, ◌&&◌, Option, none, some, [],
  map, filter, arith, ◌==◌, ==_iff, list_eq, option_eq, nat_eq, contains, Bool-cases, any-eq-false,
  flat_map-nil, filter-eq-nil,
}
use legion_cli.Text.{Text}
use legion_cli.Lifecycle.{
  TaskStatus, verifying, done, shipped, advisory, phase_eq, status_eq, mode_eq, can_transition,
  undo_only_phase_transitions, ship_rollback_phase_transitions,
}
use legion_cli.Governance.Overlap.{overlapping_write_paths}
use legion_cli.Governance.Records.{
  Stage, Freshness, Liveness, ShipStatus, Action, Outcome, TaskRow, ComponentRow, stage_eq,
  freshness_eq, liveness_eq, acceptance_status_eq, ship_status_eq, action_eq, outcome_eq,
  projection_eq,
}
use legion_cli.Governance.Overlap.Laws.{overlapping_write_paths-nil_iff}
use legion_cli.Governance.Rules.{
  Code, Span, is_active, entry_of, prior_status, advisory_left, advisory_start, claim_taken,
  writes_overlap, completions, completed_unverified, shipped_unchecked, authority, acceptance_early,
  shipped_unaccepted, integration_retry, review_retry, preview, preview_broken, rollback,
  phase_moved, task_moved, tasks_moved, refusal_changed,
}
use legion_cli.Governance.Rules.Obeys.{
  NotActive, NotStarted, ClaimKept, Apart, Verified, Checked, Authorised, AcceptedLate, Accepted,
  IntegrationOnce, ReviewOnce, PreviewKept, RolledBack, LegalPhase, LegalTasks, LegalMove,
  Unchanged,
}
use legion_cli.Governance.Rules.Bits.{
  bits_lem, any_unaccepted, task_moved-some, preview_bits, kept_lem,
}

module _ (s : Span) where
  open s use {action, outcome, before, after, retried, trace_has_prepare, prepared}

  pub advisory_start_iff : (advisory_start s ≡ []) ↔ NotStarted s
  advisory_start_iff = ground (
    arith,
    ==_iff action Action.task_start,
    ==_iff outcome Outcome.success,
    ==_iff before.control_mode advisory,
  )

  pub claim_taken_iff : (claim_taken s ≡ []) ↔ ClaimKept s
  claim_taken_iff = ground (
    arith,
    ==_iff action Action.claim_acquire,
    ==_iff outcome Outcome.success,
    ==_iff before.claim.liveness Liveness.live,
    ==_iff after.claim.owner before.claim.owner,
  )

  pub authority_iff : (authority s ≡ []) ↔ Authorised s
  authority_iff =
      ground
        (arith, ==_iff outcome Outcome.success, ==_iff before.approval.freshness Freshness.current)

  pub acceptance_early_iff : (acceptance_early s ≡ []) ↔ AcceptedLate s
  acceptance_early_iff = ground (
    arith,
    ==_iff action Action.acceptance_record,
    ==_iff outcome Outcome.success,
    ==_iff before.integration Stage.passed,
    ==_iff before.review Stage.passed,
  )

  pub review_retry_iff : (review_retry s ≡ []) ↔ ReviewOnce s
  review_retry_iff = ground (
    arith,
    ==_iff action Action.review_start,
    ==_iff outcome Outcome.success,
    ==_iff outcome Outcome.failed,
    ==_iff before.review Stage.failed,
  )

  pub rollback_iff : (rollback s ≡ []) ↔ RolledBack s
  rollback_iff = ground (
    arith,
    ==_iff action Action.ship_rollback,
    ==_iff outcome Outcome.success,
    ==_iff after.ship.status ShipStatus.complete,
    ==_iff after.phase shipped,
  )

  pub refusal_changed_iff : (refusal_changed s ≡ []) ↔ Unchanged s
  refusal_changed_iff = ground (arith, ==_iff outcome Outcome.refused, ==_iff before after)

  pub phase_moved_iff : (phase_moved s ≡ []) ↔ LegalPhase s
  phase_moved_iff = (to, from)
    where
      can : Bool
      can = can_transition before.phase after.phase

      undoes : Bool
      undoes = contains (undo_only_phase_transitions before.phase) after.phase

      rolls : Bool
      rolls = contains (ship_rollback_phase_transitions before.phase) after.phase

      bits : (phase_moved s ≡ []) ↔ (
          (outcome == Outcome.success) ≡ true
          → ((before.phase == after.phase) ≡ true)
            ⊎ (can ≡ true)
            ⊎ (((action == Action.undo) ≡ true) × (undoes ≡ true))
            ⊎ (((action == Action.ship_rollback) ≡ true) × (rolls ≡ true)))
      bits =
          bits_lem (outcome == Outcome.success) (before.phase == after.phase) can
            (action == Action.undo) undoes (action == Action.ship_rollback) rolls
            Code.illegal_phase_transition

      to : phase_moved s ≡ [] → LegalPhase s
      to h ok = elim (bits.0 h ((==_iff outcome Outcome.success).1 ok)) [
        | inl same ↦ inl ((==_iff before.phase after.phase).0 same)
        | inr (inl legal) ↦ inr (inl legal)
        | inr (inr (inl undone)) ↦
            inr (inr (inl ((==_iff action Action.undo).0 undone.0, undone.1)))
        | inr (inr (inr rolled)) ↦
            inr (inr (inr ((==_iff action Action.ship_rollback).0 rolled.0, rolled.1)))
      ]

      from : LegalPhase s → phase_moved s ≡ []
      from h = bits.1 (λ ok. elim (h ((==_iff outcome Outcome.success).0 ok)) [
        | inl same ↦ inl ((==_iff before.phase after.phase).1 same)
        | inr (inl legal) ↦ inr (inl legal)
        | inr (inr (inl undone)) ↦
            inr (inr (inl ((==_iff action Action.undo).1 undone.0, undone.1)))
        | inr (inr (inr rolled)) ↦
            inr (inr (inr ((==_iff action Action.ship_rollback).1 rolled.0, rolled.1)))
      ])

  pub advisory_left_iff : (advisory_left s ≡ []) ↔ NotActive s
  advisory_left_iff = ground (
    arith,
    ==_iff after.control_mode advisory,
    is_empty_iff (filter is_active after.tasks),
    filter-eq-nil is_active after.tasks,
  )

  pub writes_overlap_iff : (lower : Text → Text) → (writes_overlap lower s ≡ []) ↔ Apart s lower
  writes_overlap_iff lower =
      let entries = map entry_of (filter is_active after.tasks) in
      ground (
        arith,
        is_empty_iff (overlapping_write_paths lower entries),
        overlapping_write_paths-nil_iff lower entries,
      )

  pub completed_iff :
      (t : TaskRow)
      → (completed_unverified before.tasks t ≡ []) ↔ (
          t.status ≡ done
          → (prior_status before.tasks t.id ≡ some done)
            ⊎ (prior_status before.tasks t.id ≡ some verifying))
  completed_iff t = ground (
    arith,
    ==_iff t.status done,
    ==_iff (prior_status before.tasks t.id) (some done),
    ==_iff (prior_status before.tasks t.id) (some verifying),
  )

  pub completions_iff : (completions s ≡ []) ↔ Verified s
  completions_iff = (
    λ h a ok t m. (completed_iff t).0 (
        (flat_map-nil (completed_unverified before.tasks) after.tasks).0
          (ground (arith, ==_iff action Action.task_complete, ==_iff outcome Outcome.success)) t m),
    λ h. elim (Bool-cases (action == Action.task_complete && outcome == Outcome.success)) [
      | inr skipped ↦ rw skipped
      | inl runs ↦ rw runs (
          (flat_map-nil (completed_unverified before.tasks) after.tasks).1 (λ t m.
            (completed_iff t).1 (λ d.
              h (ground (arith, ==_iff action Action.task_complete))
                (ground (arith, ==_iff outcome Outcome.success)) t m d)))
    ],
  )

  pub shipped_unchecked_iff : (shipped_unchecked s ≡ []) ↔ Checked s
  shipped_unchecked_iff = ground (
    arith,
    ==_iff outcome Outcome.success,
    ==_iff before.phase shipped,
    ==_iff after.phase shipped,
    ==_iff before.integration Stage.passed,
    ==_iff before.review Stage.passed,
    any-eq-false (λ (c : ComponentRow). not (c.status == Stage.passed)) before.components,
  )

  pub shipped_unaccepted_iff : (shipped_unaccepted s ≡ []) ↔ Accepted s
  shipped_unaccepted_iff = ground (
    arith,
    ==_iff outcome Outcome.success,
    ==_iff before.phase shipped,
    ==_iff after.phase shipped,
    ==_iff action Action.ship_confirm,
    ==_iff action Action.ship_complete,
    any_unaccepted before.acceptance,
  )

  pub integration_retry_iff : (integration_retry s ≡ []) ↔ IntegrationOnce s
  integration_retry_iff = ground (
    arith,
    ==_iff outcome Outcome.success,
    ==_iff outcome Outcome.failed,
    ==_iff action Action.integration_start,
    ==_iff before.integration Stage.failed,
    any-eq-false (λ (c : ComponentRow). c.status == Stage.failed) before.components,
  )

  pub preview_iff : (preview s ≡ []) ↔ PreviewKept s
  preview_iff =
      let bits =
        preview_bits (outcome == Outcome.success) (action == Action.ship_confirm)
          (action == Action.ship_complete) trace_has_prepare
          (preview_broken action after.ship prepared) Code.preview_mismatch in
      let kept = kept_lem action after.ship prepared in
      (
        λ h ok a. kept.0 (
            bits.0 h ((==_iff outcome Outcome.success).1 ok) (
              ground
                (arith, ==_iff action Action.ship_confirm, ==_iff action Action.ship_complete))),
        λ h. bits.1 (λ ok a. kept.1 (
            h ((==_iff outcome Outcome.success).0 ok) (
              ground
                (arith, ==_iff action Action.ship_confirm, ==_iff action Action.ship_complete)))),
      )

  pub task_moved_iff :
      (prior : Option TaskStatus) (to : TaskStatus)
      → (task_moved action prior to ≡ [])
        ↔ ((from : TaskStatus) → prior ≡ some from → LegalMove s from to)
  task_moved_iff none to = (λ h from e. cc, λ h. refl)
  task_moved_iff (some prior) to = (
    λ h from e. subst (λ x. LegalMove s x to) (cc) ((task_moved-some action prior to).0 h),
    λ h. (task_moved-some action prior to).1 (h prior refl),
  )

  pub tasks_moved_iff : (tasks_moved s ≡ []) ↔ LegalTasks s
  tasks_moved_iff =
      let each =
        flat_map-nil (λ (t : TaskRow). task_moved action (prior_status before.tasks t.id) t.status)
          after.tasks in
      (
        λ h t m from e.
            (task_moved_iff (prior_status before.tasks t.id) t.status).0 (each.0 h t m) from e,
        λ h. each.1 (λ t m. (task_moved_iff (prior_status before.tasks t.id) t.status).1 (h t m)),
      )
