-- ===== src/Governance/Records.antt =====
-- The records of packages/schema/src/governance-records.ts that the boundary model reads: the
-- projection of the governed state, and the frame that a command writes before and after it.
use native.Mathlib.Decide.{ℕ_discrete}
use legion_cli.Prelude.{ℕ, Bool, Option, List, Comparable, discrete_eq}
use legion_cli.Text.{Text}
use legion_cli.Lifecycle.{Phase, TaskStatus, ControlMode}

pub data Stage : Type 0 where
  not_run running passed failed unavailable stale : Stage

pub data Freshness : Type 0 where
  current stale unknown : Freshness

pub data Liveness : Type 0 where
  none live dead unknown : Liveness

pub data AcceptanceStatus : Type 0 where
  not_recorded passed failed unknown : AcceptanceStatus

pub data ShipStatus : Type 0 where
  none prepared complete aborted : ShipStatus

pub data Action : Type 0 where
  approval_adopt claim_acquire claim_release task_start task_verify task_complete : Action
  task_block integration_start integration_complete review_start review_complete : Action
  acceptance_record ship_confirm ship_prepare ship_complete ship_rollback recover : Action
  amend_inputs unblock undo abandon compact : Action

pub data Outcome : Type 0 where
  pending success failed incomplete refused : Outcome

pub data Boundary : Type 0 where
  begin end : Boundary

pub record TaskRow : Type 0 where
  pub id : Text
  pub status : TaskStatus
  pub owner : Option Text
  pub writes : List Text
  pub checks : Stage

pub record Approval : Type 0 where
  pub id : Option Text
  pub freshness : Freshness

pub record ClaimRow : Type 0 where
  pub owner : Option Text
  pub liveness : Liveness

pub record ComponentRow : Type 0 where
  pub check_id : Text
  pub status : Stage

pub record AcceptanceRow : Type 0 where
  pub id : Text
  pub status : AcceptanceStatus
  pub freshness : Freshness

pub record Ship : Type 0 where
  pub confirmation_id : Option Text
  pub preview_fingerprint : Option Text
  pub confirmed : Bool
  pub status : ShipStatus

pub record Projection : Type 0 where
  pub phase : Phase
  pub control_mode : ControlMode
  pub tasks : List TaskRow
  pub approval : Approval
  pub claim : ClaimRow
  pub integration : Stage
  pub components : List ComponentRow
  pub review : Stage
  pub acceptance : List AcceptanceRow
  pub source_fingerprint : Option Text
  pub evidence_fingerprint : Option Text
  pub ship : Ship

-- The digests of the chain and the time of recording are left out.
pub record Frame : Type 0 where
  pub sequence : ℕ
  pub boundary : Boundary
  pub action : Action
  pub correlation_id : Text
  pub before : Projection
  pub after : Option Projection
  pub outcome : Outcome
  pub explicit_retry : Bool

unfoldable pub Stage-discrete : Discrete Stage
Stage-discrete = hlevel

instance abbrev pub stage_eq : Comparable Stage
stage_eq = discrete_eq Stage-discrete

unfoldable pub Freshness-discrete : Discrete Freshness
Freshness-discrete = hlevel

instance abbrev pub freshness_eq : Comparable Freshness
freshness_eq = discrete_eq Freshness-discrete

unfoldable pub Liveness-discrete : Discrete Liveness
Liveness-discrete = hlevel

instance abbrev pub liveness_eq : Comparable Liveness
liveness_eq = discrete_eq Liveness-discrete

unfoldable pub AcceptanceStatus-discrete : Discrete AcceptanceStatus
AcceptanceStatus-discrete = hlevel

instance abbrev pub acceptance_status_eq : Comparable AcceptanceStatus
acceptance_status_eq = discrete_eq AcceptanceStatus-discrete

unfoldable pub ShipStatus-discrete : Discrete ShipStatus
ShipStatus-discrete = hlevel

instance abbrev pub ship_status_eq : Comparable ShipStatus
ship_status_eq = discrete_eq ShipStatus-discrete

unfoldable pub Action-discrete : Discrete Action
Action-discrete = hlevel

instance abbrev pub action_eq : Comparable Action
action_eq = discrete_eq Action-discrete

unfoldable pub Outcome-discrete : Discrete Outcome
Outcome-discrete = hlevel

instance abbrev pub outcome_eq : Comparable Outcome
outcome_eq = discrete_eq Outcome-discrete

unfoldable pub Boundary-discrete : Discrete Boundary
Boundary-discrete = hlevel

instance abbrev pub boundary_eq : Comparable Boundary
boundary_eq = discrete_eq Boundary-discrete

-- `sameJson` on two projections: they are the same value.
unfoldable pub Projection-discrete : Discrete Projection
Projection-discrete = hlevel ℕ_discrete

instance abbrev pub projection_eq : Comparable Projection
projection_eq = discrete_eq Projection-discrete
