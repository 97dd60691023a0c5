-- ===== src/Graph/Cycles/Progress.antt =====
-- What a valid task graph promises to `pickNextTask` of packages/graph/src/ready.ts.
use legion_cli.Prelude.{
  ◌≡◌, ◌≢◌, ◌⊎◌, refl, sym, subst, inl, inr, Bool, true, false, not, ◌||◌, some, List, [], ◌==◌,
  ==_iff, Memᴰ, Memᴰ-filter, arith, List-cases, is_empty_iff,
}
use legion_cli.Text.{Text}
use legion_cli.Lifecycle.{
  TaskStatus, plan_ready, executing, todo, ready, in_progress, verifying, done, compacted, advisory,
  status_eq,
}
use legion_cli.Graph.Tasks.{Task}
use legion_cli.Graph.Contract.{Platform}
use legion_cli.Graph.Contract.Laws.{IsAllowList, IsPromise}
use legion_cli.Grounded.{grounded}
use legion_cli.Graph.Subgraph.{find_task, parents_of}
use legion_cli.Graph.Ready.{
  Assumption, ReadyContext, is_open_blocking, is_done_for_deps, is_running, unresolved_blockers,
  is_task_ready, pick_next_task,
}
use legion_cli.Graph.Ready.Laws.{
  Unblocked, Unassuming, Alone, CanStart, unresolved_blockers_iff, is_task_ready_iff,
}
use legion_cli.Graph.Ready.Pick.{pick_next_task-Pick}
use legion_cli.Graph.Cycles.{valid, validate_task_graph}
use legion_cli.Graph.Cycles.Rank.{find_task-Memᴰ}
use legion_cli.Graph.Cycles.Steps.{Ends}
use legion_cli.Graph.Cycles.Valid.{Coherent, find_task-some, validate_task_graph_iff}

-- A task that is open and waits for no other.
abbrev Waitless : List Task → Task → Type 0
Waitless tasks u =
    Memᴰ u tasks × (is_done_for_deps (some u) ≡ false) × (unresolved_blockers u tasks ≡ [])

root_of_chain :
    (tasks : List Task)
    → Coherent tasks
    → (id : Text) → Ends tasks id
    → (t : Task) → find_task tasks id ≡ some t
    → is_done_for_deps (some t) ≡ false
    → (u : Task) × Waitless tasks u
unfolding unresolved_blockers parents_of
root_of_chain tasks c id (grounded f) t e open_task =
    let (m, same) = find_task-Memᴰ tasks id t e in
    elim (List-cases (unresolved_blockers t tasks)) [
      | inl free ↦ (t, (m, open_task, free))
      | inr (b, bs, waits) ↦
          let on : Memᴰ b (unresolved_blockers t tasks) =
            subst (λ l. Memᴰ b l) (sym waits) (Memᴰ.head refl) in
          let (blocks, unresolved) =
            (Memᴰ-filter (λ x. not (is_done_for_deps (find_task tasks x))) b t.blocked_by).0 on in
          let (v, n, k) = (c.blockers t m).1 b blocks in
          let (u, w) = find_task-some tasks v n in
          let known : find_task tasks b ≡ some u = subst (λ x. find_task tasks x ≡ some u) k w in
          let pending : is_done_for_deps (some u) ≡ false =
            ground (arith, subst (λ o. not (is_done_for_deps o) ≡ true) known unresolved) in
          let parent : Memᴰ b (parents_of tasks id) = rw (e, parents_of) blocks in
          root_of_chain tasks c b (f b parent) u known pending
    ]

module _ (lower : Text → Text) (platform : Platform) where
  -- The task is to do, with a verification command and a settled file contract.
  pub record IsRunnable (t : Task) : Type 0 where
    pub to_do : (t.status ≡ todo) ⊎ (t.status ≡ ready)
    pub checked : t.contract.verification_commands ≢ []
    pub allowed : IsAllowList lower t.contract.files_allowed
    pub promised : IsPromise lower platform t.contract.files_allowed t.contract.expected_artifacts

  -- Nothing but a dependency keeps an open task from starting: the phase allows work, control is not
  -- advisory, no blocking assumption for the user is open, and every task that is neither done nor
  -- compacted is runnable.
  pub record IsUnhindered (ctx : ReadyContext) : Type 0 where
    pub phase : (ctx.phase ≡ plan_ready) ⊎ (ctx.phase ≡ executing)
    pub steered : ctx.control_mode ≢ advisory
    pub decided : (a : Assumption) → Memᴰ a ctx.assumptions → is_open_blocking a ≡ false
    pub runnable : (t : Task) → Memᴰ t ctx.tasks → is_done_for_deps (some t) ≡ false → IsRunnable t

  running_status :
      (s : TaskStatus)
      → (s == in_progress || s == verifying) ≡ true
      → (s == done || s == compacted) ≡ false
  running_status s r =
      ground (arith, ==_iff s in_progress, ==_iff s verifying, ==_iff s done, ==_iff s compacted)

  running_open : (o : Task) → is_running o ≡ true → is_done_for_deps (some o) ≡ false
  running_open o r = running_status o.status r

  waiting : (o : Task) → (o.status ≡ todo) ⊎ (o.status ≡ ready) → is_running o ≡ false
  waiting o (inl e) = rw e refl
  waiting o (inr e) = rw e refl

  Waitless-CanStart :
      (ctx : ReadyContext)
      → IsUnhindered ctx
      → (u : Task) → Waitless ctx.tasks u
      → CanStart lower platform u ctx
  Waitless-CanStart ctx h u (m, open_task, free) =
      let r = h.runnable u m open_task in
      let alone : Alone u ctx.tasks = λ o n running.
        let other = waiting o (h.runnable o n (running_open o running)).to_do in cc in
      let unassuming : Unassuming u ctx = λ a n o. let closed = h.decided a n in cc in
      let unblocked : Unblocked u ctx.tasks =
        (unresolved_blockers_iff u ctx.tasks).0
          ((is_empty_iff (unresolved_blockers u ctx.tasks)).1 free) in
      (h.phase, h.steered, r.to_do, r.checked, r.allowed, r.promised, unblocked, unassuming, alone)

  -- Dependencies alone never stop the work. Let the list of tasks be valid, the phase allow work,
  -- control not be advisory, no blocking assumption for the user be open, and every task that is neither
  -- done nor compacted be to do, with a verification command and a settled file contract. Then, as long
  -- as the task of some id is neither done nor compacted, `pickNextTask` picks a task, one that is ready.
  pub validate_task_graph-picks :
      (id_le : Text → Text → Bool) (ctx : ReadyContext) (id : Text) (t : Task)
      → IsUnhindered ctx
      → validate_task_graph ctx.tasks ≡ valid
      → find_task ctx.tasks id ≡ some t
      → is_done_for_deps (some t) ≡ false
      → (u : Task) × (pick_next_task lower platform id_le ctx ≡ some u)
        × Memᴰ u ctx.tasks
        × (is_task_ready lower platform u ctx ≡ true)
  validate_task_graph-picks id_le ctx id t h v e open_task =
      let c = (validate_task_graph_iff ctx.tasks).0 v in
      let (w, waitless) = root_of_chain ctx.tasks c id (c.all_end id) t e open_task in
      let start = Waitless-CanStart ctx h w waitless in
      elim (pick_next_task-Pick lower platform id_le ctx) [
        | inl (nothing, all) ↦ absurd (all w waitless.0 start)
        | inr (u, picks, m, starts, first) ↦
            (u, picks, m, (is_task_ready_iff lower platform u ctx).1 starts)
      ]
