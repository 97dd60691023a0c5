-- ===== src/Graph/Tests.antt =====
-- A plan of two tasks that may run at once, and a third that waits for the first.
use legion_cli.Prelude.{◌≡◌, ◌≢◌, ◌↔◌, refl, true, false, none, List, [], ◌∷◌}
use legion_cli.Text.{Text, codes, ascii_lower_case}
use legion_cli.Lifecycle.{todo, p0}
use legion_cli.Prelude.{Memᴰ, some, inl, inr, subst, sym}
use legion_cli.Text.{text_le}
use legion_cli.Lifecycle.{p1, executing, guarded}
use legion_cli.Graph.Subgraph.{find_task, dependency_subgraph}
use legion_cli.Graph.Subgraph.Reach.{Reach, dependency_subgraph_iff}
use legion_cli.Graph.Ready.{ReadyContext, is_task_ready, pick_next_task}
use legion_cli.Graph.Ready.Laws.{CanStart, is_task_ready_iff}
use legion_cli.Graph.Ready.Pick.{Pick, pick_next_task-Pick}
use legion_cli.Graph.Tasks.{Task, TaskType, Assignee}
use legion_cli.Paths.{is_concrete_posix_repo_relative_path}
use legion_cli.Graph.Contract.{
  files_allowed_fails_plan, expected_artifacts_fails_plan, overlapping_files_allowed, Platform,
  is_implicit_forbidden_path,
}
use legion_cli.Graph.Contract.Laws.{files_allowed_iff}
use legion_cli.Graph.Cycles.{valid, validate_task_graph}
use legion_cli.Graph.Cycles.Progress.{IsRunnable, IsUnhindered, validate_task_graph-picks}
use legion_cli.Graph.Parallel.{select_parallel_tasks}
use legion_cli.Graph.Parallel.Batch.{Choice, select_parallel_tasks-Choice}
use legion_cli.Graph.Readiness.{SpecStatus, PlanInput, Readiness, evaluate_readiness}
use legion_cli.Graph.Readiness.Executable.{IsExecutable, evaluate_readiness-fail_iff}
use legion_cli.Graph.Slice.{
  slice_tasks, is_slice_terminal, slice_has_open_work, is_slice_terminal_iff,
}

abbrev task : Text → List Text → Task
task id files = record {
  id = id;
  title = "t";
  status = todo;
  type = TaskType.feature;
  priority = p0;
  spec_id = codes "s";
  adapter = none;
  profile = none;
  parent_id = none;
  blocked_by = [];
  blocks = [];
  contract = record {
    files_allowed = files;
    files_forbidden = [];
    expected_artifacts = [];
    verification_commands = codes "make test" ∷ [];
    max_files_touched = 20;
  };
  assignee = Assignee.agent;
  notes = "";
}

abbrev api : Task
api = task (codes "a") (codes "src/api" ∷ [])

abbrev docs : Task
docs = task (codes "d") (codes "docs/a.md" ∷ [])

abbrev route : Task
route = task (codes "r") (codes "SRC/api/route.ts" ∷ [])

route_waits : select_parallel_tasks ascii_lower_case (api ∷ route ∷ docs ∷ []) 3 ≡ api ∷ docs ∷ []
unfolding select_parallel_tasks
route_waits = refl

env_is_forbidden : is_implicit_forbidden_path ascii_lower_case (codes "app/.ENV. ") ≡ true
unfolding is_implicit_forbidden_path
env_is_forbidden = refl

abbrev plan : List Task → PlanInput
plan tasks = record {
  spec = record {
    status = SpecStatus.frozen;
    must_be_true = "works" ∷ [];
    must_not_change = [];
    out_of_scope = [];
    acceptance = record { id = codes "ac"; statement = "works"; priority = p0 } ∷ [];
  };
  tasks = tasks;
  open_non_blocking_assumptions = false;
  preparation_policy_2 = false;
}

apart_is_pass :
    (evaluate_readiness ascii_lower_case Platform.other (plan (api ∷ docs ∷ []))).readiness
    ≡ Readiness.pass
unfolding evaluate_readiness is_implicit_forbidden_path files_allowed_fails_plan
    is_concrete_posix_repo_relative_path expected_artifacts_fails_plan overlapping_files_allowed
apart_is_pass = refl

overlap_is_fail :
    (evaluate_readiness ascii_lower_case Platform.other (plan (api ∷ route ∷ []))).fails
    ≡ codes "overlapping filesAllowed SRC/api/route.ts (a, r)" ∷ []
unfolding evaluate_readiness is_implicit_forbidden_path files_allowed_fails_plan
    is_concrete_posix_repo_relative_path expected_artifacts_fails_plan overlapping_files_allowed
overlap_is_fail = refl

select_parallel_tasks-Choice_example :
    Choice ascii_lower_case 3
      (api ∷ route ∷ docs ∷ [])
      (select_parallel_tasks ascii_lower_case (api ∷ route ∷ docs ∷ []) 3)
select_parallel_tasks-Choice_example =
    select_parallel_tasks-Choice ascii_lower_case (api ∷ route ∷ docs ∷ []) 3

evaluate_readiness-fail_iff_example :
    ((evaluate_readiness ascii_lower_case Platform.other (plan (api ∷ route ∷ []))).readiness
      ≢ Readiness.fail)
    ↔ IsExecutable ascii_lower_case Platform.other (plan (api ∷ route ∷ []))
evaluate_readiness-fail_iff_example =
    evaluate_readiness-fail_iff ascii_lower_case Platform.other (plan (api ∷ route ∷ []))

abbrev later : Task
later = record (task (codes "l") (codes "src/l.ts" ∷ [])) {
  blocked_by = codes "a" ∷ [];
  priority = p1;
}

abbrev work : List Task → ReadyContext
work tasks = record { phase = executing; control_mode = guarded; tasks = tasks; assumptions = [] }

waits_for_api : dependency_subgraph later (api ∷ later ∷ []) ≡ some (codes "a" ∷ codes "l" ∷ [])
unfolding dependency_subgraph
waits_for_api = refl

dependency_subgraph_iff_example :
    (out : List Text) × (dependency_subgraph later (api ∷ later ∷ []) ≡ some out)
    × ((x : Text) → Memᴰ x out ↔ Reach (api ∷ later ∷ []) (codes "l") x)
dependency_subgraph_iff_example = dependency_subgraph_iff later (api ∷ later ∷ [])

is_task_ready_iff_example :
    (is_task_ready ascii_lower_case Platform.other later (work (api ∷ later ∷ [])) ≡ true)
    ↔ CanStart ascii_lower_case Platform.other later (work (api ∷ later ∷ []))
is_task_ready_iff_example =
    is_task_ready_iff ascii_lower_case Platform.other later (work (api ∷ later ∷ []))

api_is_next :
    pick_next_task ascii_lower_case Platform.other text_le (work (later ∷ docs ∷ api ∷ []))
    ≡ some api
unfolding pick_next_task is_concrete_posix_repo_relative_path is_implicit_forbidden_path
api_is_next = refl

pick_next_task-Pick_example :
    Pick ascii_lower_case Platform.other text_le
      (work (later ∷ docs ∷ api ∷ []))
      (pick_next_task ascii_lower_case Platform.other text_le (work (later ∷ docs ∷ api ∷ [])))
pick_next_task-Pick_example =
    pick_next_task-Pick ascii_lower_case Platform.other text_le (work (later ∷ docs ∷ api ∷ []))

slice_in_order : slice_tasks text_le (docs ∷ api ∷ []) (some (codes "s")) ≡ api ∷ docs ∷ []
unfolding slice_tasks
slice_in_order = refl

is_slice_terminal_iff_example :
    (is_slice_terminal (api ∷ docs ∷ []) ≡ true)
    ↔ (((api ∷ docs ∷ []) ≢ []) × (slice_has_open_work (api ∷ docs ∷ []) ≡ false))
is_slice_terminal_iff_example = is_slice_terminal_iff (api ∷ docs ∷ [])

abbrev pair : List Task
pair = later ∷ api ∷ []

api_allowed : files_allowed_fails_plan ascii_lower_case api.contract.files_allowed ≡ false
unfolding files_allowed_fails_plan is_concrete_posix_repo_relative_path is_implicit_forbidden_path
api_allowed = refl

later_allowed : files_allowed_fails_plan ascii_lower_case later.contract.files_allowed ≡ false
unfolding files_allowed_fails_plan is_concrete_posix_repo_relative_path is_implicit_forbidden_path
later_allowed = refl

api-IsRunnable : IsRunnable ascii_lower_case Platform.other api
api-IsRunnable = record {
  to_do = inl refl;
  checked = λ e. cc;
  allowed = (files_allowed_iff ascii_lower_case api.contract.files_allowed).0 api_allowed;
  promised = λ path m. elim m [ ];
}

later-IsRunnable : IsRunnable ascii_lower_case Platform.other later
later-IsRunnable = record {
  to_do = inl refl;
  checked = λ e. cc;
  allowed = (files_allowed_iff ascii_lower_case later.contract.files_allowed).0 later_allowed;
  promised = λ path m. elim m [ ];
}

pair-IsRunnable : (t : Task) → Memᴰ t pair → IsRunnable ascii_lower_case Platform.other t
pair-IsRunnable t (Memᴰ.head e) =
    subst (IsRunnable ascii_lower_case Platform.other) (sym e) later-IsRunnable
pair-IsRunnable t (Memᴰ.tail (Memᴰ.head e)) =
    subst (IsRunnable ascii_lower_case Platform.other) (sym e) api-IsRunnable
pair-IsRunnable t (Memᴰ.tail (Memᴰ.tail m)) = elim m [ ]

pair-IsUnhindered : IsUnhindered ascii_lower_case Platform.other (work pair)
pair-IsUnhindered = record {
  phase = inr refl;
  steered = λ e. cc;
  decided = λ a m. elim m [ ];
  runnable = λ t m open_task. pair-IsRunnable t m;
}

pair_valid : validate_task_graph pair ≡ valid
unfolding validate_task_graph
pair_valid = refl

later_found : find_task pair (codes "l") ≡ some later
unfolding find_task
later_found = refl

validate_task_graph-picks_example :
    (u : Task) × (pick_next_task ascii_lower_case Platform.other text_le (work pair) ≡ some u)
    × Memᴰ u pair
    × (is_task_ready ascii_lower_case Platform.other u (work pair) ≡ true)
validate_task_graph-picks_example =
    validate_task_graph-picks ascii_lower_case Platform.other text_le (work pair) (codes "l") later
      pair-IsUnhindered pair_valid later_found refl
