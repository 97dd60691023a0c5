-- ===== src/Governance/Tests.antt =====
-- The boundary model at a small trace: a delivery, and the same delivery without its review.
use legion_cli.Prelude.{
  ◌≡◌, refl, ◌↔◌, inl, subst, arith, false, none, some, List, [], ◌∷◌, Memᴰ, sym, ap,
}
use legion_cli.Text.{codes, ascii_lower_case}
use legion_cli.Lifecycle.{executing, shipped, done, guarded, can_transition}
use legion_cli.Governance.Overlap.{overlapping_write_paths}
use legion_cli.Governance.Frames.History.{opened, prepared_before}
use legion_cli.Governance.Records.{
  Stage, Freshness, Liveness, AcceptanceStatus, ShipStatus, Action, Outcome, Boundary, Ship,
  Projection, Frame, Action-discrete, Outcome-discrete, Stage-discrete, Freshness-discrete,
  AcceptanceStatus-discrete,
}
use legion_cli.Governance.Rules.{Code, Span, span_violations, prior_status}
use legion_cli.Governance.Rules.Obeys.{Obeys}
use legion_cli.Governance.Rules.Sound.{span_violations-nil_iff}
use legion_cli.Governance.Frames.{validate_governance_frames}
use legion_cli.Governance.Frames.Clean.{AllObey, validate_governance_frames-nil_iff}
use legion_cli.Governance.Frames.Delivery.{
  Chain, idle, link, Settled, Passes, closed_spans, spans_of, mem_one, clean_trace_not_skipped,
  clean_delivery_checked, Ships, Checked,
}

abbrev no_ship : Ship
no_ship = record {
  confirmation_id = none;
  preview_fingerprint = none;
  confirmed = false;
  status = ShipStatus.none;
}

abbrev before_delivery : Stage → Projection
before_delivery review = record {
  phase = executing;
  control_mode = guarded;
  tasks =
      record { id = codes "t1"; status = done; owner = none; writes = []; checks = Stage.passed }
      ∷ [];
  approval = record { id = some (codes "a1"); freshness = Freshness.current };
  claim = record { owner = none; liveness = Liveness.none };
  integration = Stage.passed;
  components = record { check_id = codes "build"; status = Stage.passed } ∷ [];
  review = review;
  acceptance =
      record { id = codes "e1"; status = AcceptanceStatus.passed; freshness = Freshness.current }
      ∷ [];
  source_fingerprint = none;
  evidence_fingerprint = none;
  ship = no_ship;
}

abbrev after_delivery : Stage → Projection
after_delivery review = record (before_delivery review) {
  phase = shipped;
  ship = record no_ship { status = ShipStatus.complete };
}

abbrev begin_frame : Stage → Frame
begin_frame review = record {
  sequence = 1;
  boundary = Boundary.begin;
  action = Action.ship_complete;
  correlation_id = codes "c1";
  before = before_delivery review;
  after = none;
  outcome = Outcome.pending;
  explicit_retry = false;
}

abbrev end_frame : Stage → Frame
end_frame review = record (begin_frame review) {
  sequence = 2;
  boundary = Boundary.end;
  after = some (after_delivery review);
  outcome = Outcome.success;
}

abbrev delivery : Stage → List Frame
delivery review = begin_frame review ∷ end_frame review ∷ []

abbrev delivery_span : Stage → Span
delivery_span review = record {
  action = Action.ship_complete;
  outcome = Outcome.success;
  before = before_delivery review;
  after = after_delivery review;
  retried = false;
  trace_has_prepare = false;
  prepared = none;
}

reviewed_is_clean : validate_governance_frames ascii_lower_case (delivery Stage.passed) ≡ []
unfolding validate_governance_frames span_violations prior_status overlapping_write_paths
    can_transition Action-discrete Outcome-discrete Stage-discrete Freshness-discrete
    AcceptanceStatus-discrete
reviewed_is_clean = refl

unreviewed_is_reported :
    validate_governance_frames ascii_lower_case (delivery Stage.failed)
    ≡ record { sequence = 2; code = Code.completion_without_checks } ∷ []
unfolding validate_governance_frames span_violations prior_status overlapping_write_paths
    can_transition Action-discrete Outcome-discrete Stage-discrete Freshness-discrete
    AcceptanceStatus-discrete
unreviewed_is_reported = refl

spans_of-delivery : (review : Stage) → spans_of (delivery review) ≡ delivery_span review ∷ []
unfolding closed_spans opened prepared_before Action-discrete
spans_of-delivery review = refl

delivery-Chain :
    Chain
      (before_delivery Stage.passed)
      (spans_of (delivery Stage.passed))
      (after_delivery Stage.passed)
delivery-Chain =
    subst (λ l. Chain (before_delivery Stage.passed) l (after_delivery Stage.passed))
      (sym (spans_of-delivery Stage.passed))
      (link (delivery_span Stage.passed) refl (idle (after_delivery Stage.passed)))

delivery-Settled : Settled (spans_of (delivery Stage.passed))
delivery-Settled s m =
    inl (ap (λ t. t.outcome) (mem_one (subst (λ l. Memᴰ s l) (spans_of-delivery Stage.passed) m)))

clean_trace_not_skipped_example : Passes (spans_of (delivery Stage.passed)) shipped
clean_trace_not_skipped_example =
    clean_trace_not_skipped ascii_lower_case (delivery Stage.passed) reviewed_is_clean
      delivery-Chain delivery-Settled 11 refl (omega arith) (omega arith)

delivery-here : Memᴰ (delivery_span Stage.passed) (spans_of (delivery Stage.passed))
delivery-here =
    subst (λ l. Memᴰ (delivery_span Stage.passed) l) (sym (spans_of-delivery Stage.passed))
      (Memᴰ.head refl)

delivery-Ships : Ships (delivery_span Stage.passed)
delivery-Ships = ((λ e. ground arith), refl)

clean_delivery_checked_example : Checked (delivery_span Stage.passed)
clean_delivery_checked_example =
    clean_delivery_checked ascii_lower_case (delivery Stage.passed) reviewed_is_clean
      (delivery_span Stage.passed) delivery-here (inl refl) delivery-Ships

validate_governance_frames-nil_iff_example :
    (validate_governance_frames ascii_lower_case (delivery Stage.failed) ≡ [])
    ↔ AllObey ascii_lower_case false [] (delivery Stage.failed)
unfolding Action-discrete
validate_governance_frames-nil_iff_example =
    validate_governance_frames-nil_iff ascii_lower_case (delivery Stage.failed)

span_violations-nil_iff_example :
    (span_violations ascii_lower_case (delivery_span Stage.failed) ≡ [])
    ↔ Obeys ascii_lower_case (delivery_span Stage.failed)
span_violations-nil_iff_example =
    span_violations-nil_iff (delivery_span Stage.failed) ascii_lower_case
