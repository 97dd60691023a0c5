-- ===== src/Brownfield/Dag.antt =====
-- packages/core/src/brownfield/dag.ts: the DAG of pull requests that a brownfield run works
-- through, its cascade and its summary; updates are in the child Update. Reading and writing
-- dag.json is left out. Node records are those of packages/schema/src/schemas.ts.
pub mod Cascade
pub mod Doomed
pub mod Skipped
pub mod Progress
pub mod Update
mod Tests
use Prim.Native.String
use legion_cli.Refusal.{Guarded, allowed, refused, ◌>>=◌, concat, join}
use legion_cli.Prelude.{
  ℕ, zero, suc, Bool, true, false, not, ◌&&◌, ◌||◌, Option, none, some, List, [], ◌∷◌, ◌++◌, map,
  String, Comparable, ◌==◌, nat_beq, string_eq, ◌≡◌, ◌↔◌, arith, all, any, contains, filter, length,
  if◌then◌else◌,
}

pub data NodeStatus : Type 0 where
  pending implementing reviewing completed failed skipped : NodeStatus

abbrev pub is_terminal : NodeStatus → Bool
is_terminal completed = true
is_terminal failed = true
is_terminal skipped = true
is_terminal _ = false

-- `["failed", "skipped"].includes(status)`
abbrev pub is_bad : NodeStatus → Bool
is_bad failed = true
is_bad skipped = true
is_bad _ = false

abbrev pub is_pending : NodeStatus → Bool
is_pending pending = true
is_pending _ = false

abbrev pub is_completed : NodeStatus → Bool
is_completed completed = true
is_completed _ = false

pub record Node : Type 0 where
  pub id : String
  pub number : ℕ
  pub title : String
  pub branch : String
  pub depends_on : List String
  pub files : List String
  pub traces_to : String
  pub risk : String
  pub spec : String
  pub status : NodeStatus
  pub level : ℕ
  pub base : String
  pub merge_in : List String
  pub commit : Option String
  pub worktree : Option String
  pub agent_id : Option String
  pub review_rounds : ℕ
  pub error : Option String

pub record Dag : Type 0 where
  pub run_id : String
  pub nodes : List Node

-- `new Map(nodes.map((node) => [node.id, node])).get(id)`: of two nodes with one id the later wins.
pub find_node : List Node → String → Option Node
find_node [] id = none
find_node (n ∷ ns) id = elim (find_node ns id) [
  | some later ↦ some later
  | none ↦ if n.id == id then some n else none
]

pub status_is : (NodeStatus → Bool) → List Node → String → Bool
unfolding find_node
status_is p nodes id = elim (find_node nodes id) [ some n ↦ p n.status | none ↦ false ]

-- `dependsOn.find(…)`
pub find_bad : List Node → List String → Option String
unfolding status_is
find_bad nodes [] = none
find_bad nodes (dep ∷ deps) = if status_is is_bad nodes dep then some dep else find_bad nodes deps

abbrev pub skip : Node → String → Node
skip n bad = record n {
  status = skipped;
  error = some (String.◌++◌ (String.◌++◌ "Skipped: dependency " bad) " did not complete");
}

-- The body of the `for` loop, over the nodes as they stand: the node, and whether it changed.
pub visit : List Node → Node → Node × Bool
unfolding find_bad
visit nodes n =
    if is_terminal n.status
    then (n, false)
    else elim (find_bad nodes n.depends_on) [ none ↦ (n, false) | some bad ↦ (skip n bad, true) ]

-- One round of the `for` loop: the nodes before the cursor, those from it on, and `changed`.
pub sweep : List Node → List Node → List Node × Bool
unfolding visit
sweep before [] = (before, false)
sweep before (n ∷ rest) =
    let (n', changed) = visit (before ++ n ∷ rest) n in
    let (after, more) = sweep (before ++ n' ∷ []) rest in (after, changed || more)

-- The `while` loop; `none` means that the fuel ran out.
pub cascade : ℕ → List Node → Option (List Node)
unfolding sweep
cascade zero nodes = none
cascade (suc fuel) nodes =
    let (after, changed) = sweep [] nodes in
    let again = cascade fuel after in if changed then again else some after

pub cascade_skip : Dag → Option Dag
unfolding cascade
cascade_skip dag = elim (cascade (suc (length dag.nodes)) dag.nodes) [
  | none ↦ none
  | some nodes ↦ some (record dag { nodes = nodes })
]

abbrev pub status_name : NodeStatus → String
status_name pending = "pending"
status_name implementing = "implementing"
status_name reviewing = "reviewing"
status_name completed = "completed"
status_name failed = "failed"
status_name skipped = "skipped"

abbrev pub statuses : List NodeStatus
statuses = pending ∷ implementing ∷ reviewing ∷ completed ∷ failed ∷ skipped ∷ []

-- `summarizeDag`; `counts` is 0 where the source has no key, and the rows that it prints for the
-- nodes are left out.
pub record Summary : Type 0 where
  pub counts : NodeStatus → ℕ
  pub ready : List String
  pub in_flight : List String
  pub done : Bool

abbrev same_status : NodeStatus → NodeStatus → Bool
same_status a b = status_name a == status_name b

abbrev pub is_ready_node : List Node → Node → Bool
is_ready_node nodes n =
    is_pending n.status && all (λ dep. status_is is_completed nodes dep) n.depends_on

abbrev pub is_in_flight : Node → Bool
is_in_flight n = not (is_terminal n.status) && not (is_pending n.status)

pub summarize_dag : Dag → Summary
unfolding status_is
summarize_dag dag = record {
  counts = λ s. length (filter (λ (n : Node). same_status n.status s) dag.nodes);
  ready = map (λ (n : Node). n.id) (filter (is_ready_node dag.nodes) dag.nodes);
  in_flight = map (λ (n : Node). n.id) (filter is_in_flight dag.nodes);
  done = all (λ (n : Node). is_terminal n.status) dag.nodes;
}
