-- ===== src/Graph/Cycles/Tests.antt =====
-- Runs of the search for cycles and of the check of a task graph on small graphs.
use legion_cli.Prelude.{◌≡◌, ◌↔◌, refl, none, List, [], ◌∷◌}
use legion_cli.Text.{Text, codes}
use legion_cli.Lifecycle.{TaskStatus, todo, done, p0}
use legion_cli.Graph.Tasks.{Task, TaskType, Assignee}
use legion_cli.Graph.Cycles.{
  found_cycle, no_cycle, detect_dependency_cycle, valid, invalid, validate_task_graph,
}
use legion_cli.Graph.Cycles.Steps.{Answer}
use legion_cli.Graph.Cycles.Acyclic.{detect_dependency_cycle-Answer}
use legion_cli.Graph.Cycles.Valid.{Coherent, validate_task_graph_iff}

abbrev task : Text → TaskStatus → List Text → Task
task name status blockers = record {
  id = name;
  title = "";
  status = status;
  type = TaskType.feature;
  priority = p0;
  spec_id = codes "s";
  adapter = none;
  profile = none;
  parent_id = none;
  blocked_by = blockers;
  blocks = [];
  contract = record {
    files_allowed = [];
    files_forbidden = [];
    expected_artifacts = [];
    verification_commands = [];
    max_files_touched = 1;
  };
  assignee = Assignee.agent;
  notes = "";
}

abbrev a : Task
a = task (codes "a") todo (codes "b" ∷ codes "c" ∷ [])

abbrev b : Task
b = task (codes "b") todo (codes "c" ∷ [])

abbrev c : Task
c = task (codes "c") todo (codes "a" ∷ [])

abbrev self : Task
self = task (codes "c") todo (codes "c" ∷ [])

abbrev lost : Task
lost = task (codes "c") todo (codes "d" ∷ [])

abbrev leaf : Task
leaf = task (codes "c") done []

ring :
    detect_dependency_cycle (leaf ∷ a ∷ b ∷ c ∷ [])
    ≡ found_cycle (codes "c" ∷ codes "a" ∷ codes "b" ∷ codes "c" ∷ [])
unfolding detect_dependency_cycle
ring = refl

diamond :
    detect_dependency_cycle (a ∷ b ∷ leaf ∷ []) ≡ no_cycle (codes "c" ∷ codes "b" ∷ codes "a" ∷ [])
unfolding detect_dependency_cycle
diamond = refl

ring_message :
    validate_task_graph (a ∷ b ∷ c ∷ [])
    ≡ invalid (codes "dependency cycle detected: a -> b -> c -> a")
unfolding validate_task_graph
ring_message = refl

self_message :
    validate_task_graph (self ∷ []) ≡ invalid (codes "task c cannot be blocked by itself")
unfolding validate_task_graph
self_message = refl

lost_message :
    validate_task_graph (lost ∷ []) ≡ invalid (codes "task c references non-existent blocker d")
unfolding validate_task_graph
lost_message = refl

diamond_valid : validate_task_graph (a ∷ b ∷ leaf ∷ []) ≡ valid
unfolding validate_task_graph
diamond_valid = refl

detect_dependency_cycle-Answer_example :
    Answer (a ∷ b ∷ c ∷ []) (detect_dependency_cycle (a ∷ b ∷ c ∷ []))
detect_dependency_cycle-Answer_example = detect_dependency_cycle-Answer (a ∷ b ∷ c ∷ [])

validate_task_graph_iff_example :
    (validate_task_graph (a ∷ b ∷ leaf ∷ []) ≡ valid) ↔ Coherent (a ∷ b ∷ leaf ∷ [])
validate_task_graph_iff_example = validate_task_graph_iff (a ∷ b ∷ leaf ∷ [])
