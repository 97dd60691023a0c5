-- ===== src/Graph/Subgraph.antt =====
-- `dependencySubgraph` of packages/graph/src/ready.ts: a task and all that it waits for.
pub mod Reach
use legion_cli.Prelude.{
  ℕ, zero, suc, ◌+◌, Bool, true, false, ◌||◌, Option, none, some, List, [], ◌∷◌, contains, length,
  ◌==◌, nat_eq, list_eq, if◌then◌else◌,
}
use legion_cli.Text.{Text}
use legion_cli.Graph.Tasks.{Task}

-- `new Map(tasks.map((task) => [task.id, task])).get(id)`: the last task of an id wins.
unfoldable pub find_task : List Task → Text → Option Task
find_task [] id = none
find_task (t ∷ ts) id = elim (find_task ts id) [
  | some later ↦ some later
  | none ↦ if t.id == id then some t else none
]

-- What a task waits for; nothing if there is no such task.
unfoldable pub parents_of : List Task → Text → List Text
unfolding find_task
parents_of tasks id = elim (find_task tasks id) [ none ↦ [] | some t ↦ t.blocked_by ]

-- `for (const parent of node.blockedBy) stack.push(parent)`, with the top of the stack first.
abbrev pub push_all : List Text → List Text → List Text
push_all stack [] = stack
push_all stack (p ∷ ps) = push_all (p ∷ stack) ps

-- `!id || out.has(id)`
unfoldable pub is_passed_over : Text → List Text → Bool
is_passed_over id out = (id == []) || contains out id

-- The `while` loop; `none` means that the fuel ran out.
unfoldable pub walk : List Task → ℕ → List Text → List Text → Option (List Text)
unfolding parents_of is_passed_over
walk tasks zero stack out = none
walk tasks (suc fuel) [] out = some out
walk tasks (suc fuel) (id ∷ stack) out = elim (is_passed_over id out) [
  | true ↦ walk tasks fuel stack out
  | false ↦ walk tasks fuel (push_all stack (parents_of tasks id)) (id ∷ out)
]

-- How many parents the tasks name.
abbrev pub count_parents : List Task → ℕ
count_parents [] = 0
count_parents (t ∷ ts) = length t.blocked_by + count_parents ts

unfoldable pub dependency_subgraph : Task → List Task → Option (List Text)
unfolding walk
dependency_subgraph task tasks = walk tasks (2 + count_parents tasks) (task.id ∷ []) []
