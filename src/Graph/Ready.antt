-- ===== src/Graph/Ready.antt =====
-- Which tasks can start: packages/graph/src/ready.ts. `localeCompare` is a parameter, `id_le`: whether
-- it puts the first id before the second, or not after it.
pub mod Laws
pub mod Pick
use legion_cli.Prelude.{
  is_empty, is_empty_iff, some_iff, ℕ, ◌≤◌, Bool, true, false, not, ◌&&◌, ◌||◌, Option, none, some,
  List, [], ◌∷◌, filter, any, contains, ltb, nat_beq, ◌==◌, nat_eq, list_eq, option_eq,
  if◌then◌else◌, String,
}
use legion_cli.Text.{Text, codes}
use legion_cli.Lifecycle.{
  Phase, TaskStatus, ControlMode, Priority, plan_ready, executing, todo, ready, in_progress,
  verifying, done, compacted, advisory, p0, p1, p2, phase_eq, status_eq, mode_eq,
}
use legion_cli.Graph.Tasks.{Task, FileContract}
use legion_cli.Graph.Contract.{Platform, file_contract_fails_plan}
use legion_cli.Graph.Subgraph.{find_task, dependency_subgraph}

pub data AssumptionStatus : Type 0 where
  open_ confirmed rejected : AssumptionStatus

pub data EscalatesTo : Type 0 where
  user engineer : EscalatesTo

pub record Assumption : Type 0 where
  pub id : Text
  pub statement : String
  pub status : AssumptionStatus
  pub blocking : Bool
  pub evidence : Option String
  pub escalates_to : EscalatesTo
  pub created_in : Text

pub record ReadyContext : Type 0 where
  pub phase : Phase
  pub control_mode : ControlMode
  pub tasks : List Task
  pub assumptions : List Assumption

abbrev pub priority_rank : Priority → ℕ
priority_rank p0 = 0
priority_rank p1 = 1
priority_rank p2 = 2

abbrev pub spec_wide_created_in : List Text
spec_wide_created_in = codes "intent" ∷ codes "discuss" ∷ codes "spec" ∷ codes "plan" ∷ []

abbrev pub is_done_for_deps : Option Task → Bool
is_done_for_deps none = false
is_done_for_deps (some t) = t.status == done || t.status == compacted

unfoldable pub unresolved_blockers : Task → List Task → List Text
unfolding find_task
unresolved_blockers task tasks =
    filter (λ id. not (is_done_for_deps (find_task tasks id))) task.blocked_by

-- The subgraph always exists (Graph/Subgraph/Reach).
abbrev pub subgraph_of : Option (List Text) → List Text
subgraph_of none = []
subgraph_of (some out) = out

abbrev pub is_open_blocking : Assumption → Bool
is_open_blocking a =
    a.blocking
    && (elim a.status [ AssumptionStatus.open_ ↦ true | _ ↦ false ])
    && (elim a.escalates_to [ EscalatesTo.user ↦ true | EscalatesTo.engineer ↦ false ])

-- Where an assumption was made for the whole spec, or for something that the task waits for.
abbrev pub concerns_task : Task → List Text → Assumption → Bool
concerns_task task subgraph a =
    contains spec_wide_created_in a.created_in
    || (a.created_in == task.spec_id)
    || contains subgraph a.created_in

unfoldable pub has_open_blocking_assumption : Task → ReadyContext → Bool
unfolding dependency_subgraph
has_open_blocking_assumption task ctx =
    let subgraph = subgraph_of (dependency_subgraph task ctx.tasks) in
    any (λ a. is_open_blocking a && concerns_task task subgraph a) ctx.assumptions

abbrev pub is_running : Task → Bool
is_running t = t.status == in_progress || t.status == verifying

module _ (id_le : Text → Text → Bool) where
  -- `compareReadyOrder(a, b) <= 0`
  abbrev pub ready_order : Task → Task → Bool
  ready_order a b =
      let left = priority_rank a.priority in
      let right = priority_rank b.priority in
      ltb left right || (nat_beq left right && id_le a.id b.id)

  abbrev pub insert_ready : Task → List Task → List Task
  insert_ready t [] = t ∷ []
  insert_ready t (u ∷ us) = if ready_order t u then t ∷ u ∷ us else u ∷ insert_ready t us

  abbrev pub sort_ready : List Task → List Task
  sort_ready [] = []
  sort_ready (t ∷ ts) = insert_ready t (sort_ready ts)

module _ (lower : Text → Text) (platform : Platform) where
  unfoldable pub is_task_ready : Task → ReadyContext → Bool
  unfolding unresolved_blockers has_open_blocking_assumption file_contract_fails_plan
  is_task_ready task ctx =
      (ctx.phase == plan_ready || ctx.phase == executing)
      && not (ctx.control_mode == advisory)
      && (task.status == todo || task.status == ready)
      && not (is_empty task.contract.verification_commands)
      && not (
          file_contract_fails_plan lower platform task.contract.files_allowed
            task.contract.expected_artifacts)
      && is_empty (unresolved_blockers task ctx.tasks)
      && not (has_open_blocking_assumption task ctx)
      && not (any (λ (o : Task). is_running o && not (o.id == task.id)) ctx.tasks)

  unfoldable pub ready_tasks : (Text → Text → Bool) → ReadyContext → List Task
  unfolding is_task_ready
  ready_tasks id_le ctx = sort_ready id_le (filter (λ t. is_task_ready t ctx) ctx.tasks)

  unfoldable pub pick_next_task : (Text → Text → Bool) → ReadyContext → Option Task
  unfolding ready_tasks
  pick_next_task id_le ctx = elim (ready_tasks id_le ctx) [ [] ↦ none | t ∷ ts ↦ some t ]
