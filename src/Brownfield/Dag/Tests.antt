-- ===== src/Brownfield/Dag/Tests.antt =====
-- A DAG of three pull requests: the first failed, the second waits on it, the third is free.
use legion_cli.Prelude.{
  ℕ, ◌<◌, ◌≡◌, refl, ◌⊎◌, ◌↔◌, true, false, none, some, List, [], ◌∷◌, Memᴰ, String, arith,
  if◌then◌else◌, ◌==◌, string_eq, subst, sym, ap, Memᴰ-nil,
}
use mathlib.Core.Path.{subst₂}
use legion_cli.Refusal.{allowed, refused}
use legion_cli.Brownfield.Dag.{
  Node, Dag, NodeStatus, pending, failed, skipped, completed, find_node, status_is, is_bad,
  cascade_skip, summarize_dag,
}
use legion_cli.Brownfield.Dag.Update.{Value, dag_update}
use legion_cli.Brownfield.Dag.Doomed.{Doomed}
use legion_cli.Brownfield.Dag.Skipped.{Each, Stays, Skips, cascade_skip_nodes}
use legion_cli.Brownfield.Dag.Progress.{IsAcyclic, cascade_skip_progress}

abbrev node : String → List String → NodeStatus → Node
node id deps status = record {
  id = id;
  number = 1;
  title = "t";
  branch = "b";
  depends_on = deps;
  files = [];
  traces_to = "";
  risk = "";
  spec = "";
  status = status;
  level = 0;
  base = "main";
  merge_in = [];
  commit = none;
  worktree = none;
  agent_id = none;
  review_rounds = 0;
  error = none;
}

abbrev sample : Dag
sample = record {
  run_id = "run";
  nodes = node "pr-2" ("pr-1" ∷ []) pending ∷ node "pr-1" [] failed ∷ node "pr-3" [] pending ∷ [];
}

abbrev skipped_second : Node
skipped_second = record (node "pr-2" ("pr-1" ∷ []) skipped) {
  error = some "Skipped: dependency pr-1 did not complete";
}

cascade_sample :
    cascade_skip sample
    ≡ some (record sample {
      nodes = skipped_second ∷ node "pr-1" [] failed ∷ node "pr-3" [] pending ∷ [];
    })
unfolding cascade_skip
cascade_sample = refl

update_unknown :
    dag_update sample (some "pr-9") [] "hint"
    ≡ refused "brownfield dag: unknown node pr-9 (have pr-2, pr-1, pr-3)" "hint"
unfolding dag_update
update_unknown = refl

abbrev completed_value : Value
completed_value = record {
  is_null = false;
  status = some completed;
  rendered = "completed";
  whole = none;
}

-- Completing the failed node lets the second start.
update_status :
    dag_update sample (some "pr-1") (("status", completed_value) ∷ []) "hint"
    ≡ allowed (
        some (record sample {
          nodes =
              node "pr-2" ("pr-1" ∷ []) pending
              ∷ node "pr-1" [] completed
              ∷ node "pr-3" [] pending
              ∷ [];
        }))
unfolding dag_update
update_status = refl

abbrev order : String → ℕ
order id = if id == "pr-2" then 1 else 0

only_edge :
    (n : Node) (dep : String)
    → Memᴰ n sample.nodes
    → Memᴰ dep n.depends_on
    → (dep ≡ "pr-1") × (n.id ≡ "pr-2")
only_edge n dep (Memᴰ.head e) m = elim (subst (λ (x : Node). Memᴰ dep x.depends_on) e m) [
  | Memᴰ.head d ↦ (d, ap (λ (x : Node). x.id) e)
  | Memᴰ.tail t ↦ elim t [ ]
]
only_edge n dep (Memᴰ.tail (Memᴰ.head e)) m = absurd (nothing_in m e)
  where
    nothing_in : Memᴰ dep n.depends_on → n ≡ node "pr-1" [] failed → ⊥
    nothing_in m e = Memᴰ-nil dep (subst (λ (x : Node). Memᴰ dep x.depends_on) e m)
only_edge n dep (Memᴰ.tail (Memᴰ.tail (Memᴰ.head e))) m =
    absurd (Memᴰ-nil dep (subst (λ (x : Node). Memᴰ dep x.depends_on) e m))
only_edge n dep (Memᴰ.tail (Memᴰ.tail (Memᴰ.tail r))) m = elim r [ ]

sample_known : (m : Node) × (find_node sample.nodes "pr-1" ≡ some m)
unfolding find_node
sample_known = (node "pr-1" [] failed, refl)

order_falls : (order "pr-1" ≡ 0) × (order "pr-2" ≡ 1)
order_falls = (refl, refl)

sample-IsAcyclic : IsAcyclic order sample.nodes
sample-IsAcyclic = record {
  known = λ n dep here needs.
      subst (λ d. (m : Node) × (find_node sample.nodes d ≡ some m))
        (sym (only_edge n dep here needs).0) sample_known;
  lower = λ n dep here needs.
      let (d, id) = only_edge n dep here needs in
      subst₂ (λ x y. order x < order y) (sym d) (sym id) (omega arith);
}

cascade_skip_progress_example :
    (after : Dag) × (cascade_skip sample ≡ some after)
    × (((summarize_dag after).done ≡ true)
        ⊎ ((id : String) × Memᴰ id (summarize_dag after).ready)
        ⊎ ((id : String) × Memᴰ id (summarize_dag after).in_flight))
cascade_skip_progress_example = cascade_skip_progress order sample sample-IsAcyclic

cascade_skip_nodes_example :
    (after : List Node) × (cascade_skip sample ≡ some (record sample { nodes = after }))
    × Each (λ n m. Stays sample.nodes n m ⊎ Skips sample.nodes n m) sample.nodes after
    × ((id : String) → (status_is is_bad after id ≡ true) ↔ Doomed sample.nodes id)
cascade_skip_nodes_example = cascade_skip_nodes sample
