-- ===== src/Graph/Cycles.antt =====
-- `detectDependencyCycle` and `validateTaskGraph` of packages/graph/src/ready.ts. The set `inStack`
-- holds the ids on `path`, which are passed to each call and so are restored when it returns.
mod Rank
pub mod Steps
mod Loop
pub mod Acyclic
pub mod Valid
pub mod Progress
mod Tests
use legion_cli.Prelude.{
  ℕ, zero, suc, ◌+◌, Bool, true, false, Option, none, some, List, [], ◌∷◌, ◌++◌, contains, length,
  ◌==◌, nat_eq, list_eq, if◌then◌else◌,
}
use legion_cli.Text.{Text, codes}
use legion_cli.Graph.Tasks.{Task}
use legion_cli.Graph.Subgraph.{find_task, parents_of}

-- What a search comes back with: a cycle, or the ids visited so far where it found none.
pub data Search : Type 0 where
  found_cycle : List Text → Search
  no_cycle : List Text → Search
  out_of_fuel : Search

-- `path.slice(path.indexOf(id))`, where the path holds the id.
abbrev pub from_first : Text → List Text → List Text
from_first id [] = []
from_first id (x ∷ xs) = if x == id then x ∷ xs else from_first id xs

-- What comes after a call: its cycle, or what is left to do with the ids visited.
abbrev pub unless_found : Search → (List Text → Search) → Search
unless_found (found_cycle c) rest = found_cycle c
unless_found (no_cycle visited) rest = rest visited
unless_found out_of_fuel rest = out_of_fuel

-- The `for` loop of `dfs`; `dfs` itself is an argument.
abbrev pub search_deps :
    (Text → List Text → Search) → Text → List Text → List Text → List Text → Search
search_deps dfs current path [] visited = no_cycle visited
search_deps dfs current path (dep ∷ deps) visited = elim (dep == current) [
  | true ↦ found_cycle (current ∷ current ∷ [])
  | false ↦ elim (contains path dep) [
    | true ↦ found_cycle (from_first dep path ++ dep ∷ [])
    | false ↦ elim (contains visited dep) [
      | true ↦ search_deps dfs current path deps visited
      | false ↦ unless_found (dfs dep visited) (search_deps dfs current path deps)
    ]
  ]
]

-- `dfs(currentId)`, with the path before the call.
unfoldable pub depth_first : List Task → ℕ → List Text → Text → List Text → Search
unfolding parents_of
depth_first tasks zero path id visited = out_of_fuel
depth_first tasks (suc fuel) path id visited =
    search_deps (depth_first tasks fuel (path ++ id ∷ [])) id (path ++ id ∷ [])
      (parents_of tasks id) (id ∷ visited)

-- The loop over the tasks.
unfoldable pub search_roots : List Task → ℕ → List Task → List Text → Search
unfolding depth_first
search_roots tasks fuel [] visited = no_cycle visited
search_roots tasks fuel (t ∷ ts) visited = elim (contains visited t.id) [
  | true ↦ search_roots tasks fuel ts visited
  | false ↦ unless_found (depth_first tasks fuel [] t.id visited) (search_roots tasks fuel ts)
]

unfoldable pub detect_dependency_cycle : List Task → Search
unfolding search_roots
detect_dependency_cycle tasks = search_roots tasks (2 + length tasks) tasks []

pub data GraphVerdict : Type 0 where
  valid : GraphVerdict
  invalid : (error : Text) → GraphVerdict

-- `texts.join(sep)`
unfoldable pub join_with : Text → List Text → Text
join_with sep [] = []
join_with sep (s ∷ []) = s
join_with sep (s ∷ t ∷ r) = s ++ sep ++ join_with sep (t ∷ r)

-- The first id of a list that no task has.
unfoldable pub first_unknown : List Task → List Text → Option Text
unfolding find_task
first_unknown tasks [] = none
first_unknown tasks (b ∷ bs) = elim (find_task tasks b) [
  | none ↦ some b
  | some t ↦ first_unknown tasks bs
]

-- The body of the loop over the tasks: what is wrong with the blockers of one task.
unfoldable pub blocker_error : List Task → Task → Option Text
unfolding first_unknown
blocker_error tasks task =
    if contains task.blocked_by task.id
    then some (codes "task " ++ task.id ++ codes " cannot be blocked by itself")
    else (elim (first_unknown tasks task.blocked_by) [
      | none ↦ none
      | some b ↦ some (codes "task " ++ task.id ++ codes " references non-existent blocker " ++ b)
    ])

unfoldable pub first_error : List Task → List Task → Option Text
unfolding blocker_error
first_error tasks [] = none
first_error tasks (t ∷ ts) = elim (blocker_error tasks t) [
  | some e ↦ some e
  | none ↦ first_error tasks ts
]

-- The search always ends (Graph/Cycles/Acyclic).
abbrev pub cycle_verdict : Search → GraphVerdict
cycle_verdict (found_cycle c) =
    invalid (codes "dependency cycle detected: " ++ join_with (codes " -> ") c)
cycle_verdict _ = valid

unfoldable pub validate_task_graph : List Task → GraphVerdict
unfolding first_error detect_dependency_cycle join_with
validate_task_graph tasks = elim (first_error tasks tasks) [
  | some e ↦ invalid e
  | none ↦ cycle_verdict (detect_dependency_cycle tasks)
]
