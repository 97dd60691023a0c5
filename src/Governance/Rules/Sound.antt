-- ===== src/Governance/Rules/Sound.antt =====
-- All rules together against the whole boundary model.
use legion_cli.Prelude.{◌≡◌, ◌↔◌, [], list_eq, option_eq, nat_eq, append-eq-nil}
use legion_cli.Text.{Text}
use legion_cli.Lifecycle.{phase_eq, status_eq, mode_eq}
use legion_cli.Governance.Records.{
  stage_eq, freshness_eq, liveness_eq, acceptance_status_eq, ship_status_eq, action_eq, outcome_eq,
  projection_eq,
}
use legion_cli.Governance.Rules.{Span, span_violations}
use legion_cli.Governance.Rules.Obeys.{Obeys}
use legion_cli.Governance.Rules.Silent.{
  advisory_start_iff, claim_taken_iff, authority_iff, acceptance_early_iff, review_retry_iff,
  rollback_iff, refusal_changed_iff, phase_moved_iff, advisory_left_iff, writes_overlap_iff,
  completions_iff, shipped_unchecked_iff, shipped_unaccepted_iff, integration_retry_iff,
  preview_iff, tasks_moved_iff,
}

module _ (s : Span) where
  span_violations-keeps : (lower : Text → Text) → span_violations lower s ≡ [] → Obeys lower s
  unfolding span_violations
  span_violations-keeps lower h =
      let (h15, e15) = (append-eq-nil _ _).0 h in
      let (h14, e14) = (append-eq-nil _ _).0 h15 in
      let (h13, e13) = (append-eq-nil _ _).0 h14 in
      let (h12, e12) = (append-eq-nil _ _).0 h13 in
      let (h11, e11) = (append-eq-nil _ _).0 h12 in
      let (h10, e10) = (append-eq-nil _ _).0 h11 in
      let (h9, e9) = (append-eq-nil _ _).0 h10 in
      let (h8, e8) = (append-eq-nil _ _).0 h9 in
      let (h7, e7) = (append-eq-nil _ _).0 h8 in
      let (h6, e6) = (append-eq-nil _ _).0 h7 in
      let (h5, e5) = (append-eq-nil _ _).0 h6 in
      let (h4, e4) = (append-eq-nil _ _).0 h5 in
      let (h3, e3) = (append-eq-nil _ _).0 h4 in
      let (h2, e2) = (append-eq-nil _ _).0 h3 in
      let (h1, e1) = (append-eq-nil _ _).0 h2 in
      record {
        not_active = (advisory_left_iff s).0 h1;
        not_started = (advisory_start_iff s).0 e1;
        claim_kept = (claim_taken_iff s).0 e2;
        apart = (writes_overlap_iff s lower).0 e3;
        verified = (completions_iff s).0 e4;
        checked = (shipped_unchecked_iff s).0 e5;
        authorised = (authority_iff s).0 e6;
        accepted_late = (acceptance_early_iff s).0 e7;
        accepted = (shipped_unaccepted_iff s).0 e8;
        integration_once = (integration_retry_iff s).0 e9;
        review_once = (review_retry_iff s).0 e10;
        preview_kept = (preview_iff s).0 e11;
        rolled_back = (rollback_iff s).0 e12;
        legal_phase = (phase_moved_iff s).0 e13;
        legal_tasks = (tasks_moved_iff s).0 e14;
        unchanged = (refusal_changed_iff s).0 e15;
      }

  span_violations-silent : (lower : Text → Text) → Obeys lower s → span_violations lower s ≡ []
  unfolding span_violations
  span_violations-silent lower o = (append-eq-nil _ _).1 (
    (append-eq-nil _ _).1 (
      (append-eq-nil _ _).1 (
        (append-eq-nil _ _).1 (
          (append-eq-nil _ _).1 (
            (append-eq-nil _ _).1 (
              (append-eq-nil _ _).1 (
                (append-eq-nil _ _).1 (
                  (append-eq-nil _ _).1 (
                    (append-eq-nil _ _).1 (
                      (append-eq-nil _ _).1 (
                        (append-eq-nil _ _).1 (
                          (append-eq-nil _ _).1 (
                            (append-eq-nil _ _).1 (
                              (append-eq-nil _ _).1 (
                                (advisory_left_iff s).1 o.not_active,
                                (advisory_start_iff s).1 o.not_started,
                              ),
                              (claim_taken_iff s).1 o.claim_kept,
                            ),
                            (writes_overlap_iff s lower).1 o.apart,
                          ),
                          (completions_iff s).1 o.verified,
                        ),
                        (shipped_unchecked_iff s).1 o.checked,
                      ),
                      (authority_iff s).1 o.authorised,
                    ),
                    (acceptance_early_iff s).1 o.accepted_late,
                  ),
                  (shipped_unaccepted_iff s).1 o.accepted,
                ),
                (integration_retry_iff s).1 o.integration_once,
              ),
              (review_retry_iff s).1 o.review_once,
            ),
            (preview_iff s).1 o.preview_kept,
          ),
          (rollback_iff s).1 o.rolled_back,
        ),
        (phase_moved_iff s).1 o.legal_phase,
      ),
      (tasks_moved_iff s).1 o.legal_tasks,
    ),
    (refusal_changed_iff s).1 o.unchanged,
  )

  -- For one boundary, all rules together report nothing exactly when the boundary keeps every
  -- statement of the boundary model, whatever `toLowerCase` is.
  pub span_violations-nil_iff :
      (lower : Text → Text) → (span_violations lower s ≡ []) ↔ Obeys lower s
  span_violations-nil_iff lower = (span_violations-keeps lower, span_violations-silent lower)
