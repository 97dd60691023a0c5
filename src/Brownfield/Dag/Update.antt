-- ===== src/Brownfield/Dag/Update.antt =====
-- Updates of the DAG of packages/core/src/brownfield/dag.ts: `applyNodeSet`, and what `dagRun` does
-- between reading and writing dag.json.
use legion_cli.Prelude.{
  ℕ, Bool, not, Option, none, some, List, [], ◌∷◌, map, String, ◌==◌, string_eq, contains,
  if◌then◌else◌,
}
use legion_cli.Refusal.{Guarded, allowed, refused, ◌>>=◌, concat, join}
use legion_cli.Brownfield.Dag.{Node, Dag, NodeStatus, status_name, statuses, cascade_skip}

-- A value from the command line, by what `applyNodeSet` observes of it: whether it is null, the
-- status as which Zod reads it, `String(value)`, and `Number(value)` if that is a whole number from 0
-- on.
pub record Value : Type 0 where
  pub is_null : Bool
  pub status : Option NodeStatus
  pub rendered : String
  pub whole : Option ℕ

abbrev settable_node_keys : List String
settable_node_keys = "status" ∷ "commit" ∷ "agentId" ∷ "reviewRounds" ∷ "error" ∷ []

abbrev set_status : Option NodeStatus → Node → String → Guarded Node
set_status (some status) node hint = allowed (record node { status = status })
set_status none node hint =
    refused (concat "brownfield dag: status must be one of " (join "|" (map status_name statuses)))
      hint

abbrev set_rounds : Option ℕ → Node → String → Guarded Node
set_rounds (some n) node hint = allowed (record node { review_rounds = n })
set_rounds none node hint =
    refused "brownfield dag: reviewRounds must be a non-negative integer" hint

-- `value === null ? null : String(value)`
abbrev text_of : Value → Option String
text_of v = if v.is_null then none else some v.rendered

-- `text && text.length > 0 ? text : null`
abbrev non_empty : Option String → Option String
non_empty none = none
non_empty (some s) = if s == "" then none else some s

-- One `key=value` pair of the loop in `applyNodeSet`.
set_pair : Node → String → Value → String → Guarded Node
set_pair node key value hint =
    if not (contains settable_node_keys key)
    then refused
        (concat "brownfield dag: " (
          concat key (concat " is not settable (use " (concat (join ", " settable_node_keys) ")"))))
        hint
    else if key == "status"
    then set_status value.status node hint
    else if key == "reviewRounds"
    then set_rounds value.whole node hint
    else if key == "error"
    then allowed (record node { error = text_of value })
    else if key == "commit"
    then allowed (record node { commit = non_empty (text_of value) })
    else allowed (record node { agent_id = non_empty (text_of value) })

set_pairs : Node → List (String × Value) → String → Guarded Node
unfolding set_pair
set_pairs node [] hint = allowed node
set_pairs node ((key, value) ∷ pairs) hint = do
  next ← set_pair node key value hint
  set_pairs next pairs hint

-- `dag.nodes.find((candidate) => candidate.id === nodeId)`
first_node : List Node → String → Option Node
first_node [] id = none
first_node (n ∷ ns) id = if n.id == id then some n else first_node ns id

unfoldable pub apply_node_set : Dag → String → List (String × Value) → String → Guarded Dag
unfolding first_node set_pairs
apply_node_set dag node_id pairs hint = elim (first_node dag.nodes node_id) [
  | none ↦
      refused
        (concat "brownfield dag: unknown node " (
          concat node_id
            (concat " (have " (concat (join ", " (map (λ (n : Node). n.id) dag.nodes)) ")"))))
        hint
  | some node ↦ do
    next ← set_pairs node pairs hint
    allowed
        (record dag { nodes = map (λ (c : Node). if c.id == node_id then next else c) dag.nodes })
]

abbrev no_node : Dag → List (String × Value) → String → Guarded (Option Dag)
no_node dag [] hint = allowed (cascade_skip dag)
no_node dag (p ∷ pairs) hint = refused "brownfield dag: key=value updates need a node id first" hint

-- `dagRun` between reading and writing dag.json: an update of one node if one is named (an empty
-- id names none), then the cascade. `none` means that the cascade ran out of fuel.
unfoldable pub dag_update :
    Dag → Option String → List (String × Value) → String → Guarded (Option Dag)
unfolding apply_node_set cascade_skip
dag_update dag none pairs hint = no_node dag pairs hint
dag_update dag (some node_id) pairs hint =
    if node_id == ""
    then no_node dag pairs hint
    else do set ← apply_node_set dag node_id pairs hint; allowed (cascade_skip set)
