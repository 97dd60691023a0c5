-- ===== src/Graph/Ready/Laws.antt =====
-- A ready task, and the task that is picked.
use legion_cli.Prelude.{
  is_empty, is_empty_iff, some_iff, ◌≡◌, ◌≢◌, ◌↔◌, ◌⊎◌, refl, sym, subst, Bool, true, false, not,
  ◌&&◌, ◌||◌, List, [], any, any-eq-false, filter-eq-nil, contains, contains_iff, ==_iff, ◌==◌,
  nat_eq, list_eq, option_eq, Memᴰ, arith,
}
use legion_cli.Text.{Text}
use legion_cli.Lifecycle.{
  Phase, TaskStatus, ControlMode, plan_ready, executing, todo, ready, advisory, phase_eq, status_eq,
  mode_eq,
}
use legion_cli.Graph.Tasks.{Task, FileContract}
use legion_cli.Graph.Contract.{Platform, file_contract_fails_plan}
use legion_cli.Graph.Contract.Laws.{
  IsAllowList, IsPromise, files_allowed_iff, expected_artifacts_iff,
}
use legion_cli.Graph.Subgraph.{find_task, dependency_subgraph}
use legion_cli.Graph.Subgraph.Reach.{Reach, dependency_subgraph_iff}
use legion_cli.Graph.Ready.{
  Assumption, ReadyContext, spec_wide_created_in, is_done_for_deps, unresolved_blockers,
  subgraph_of, is_open_blocking, concerns_task, has_open_blocking_assumption, is_running,
  is_task_ready,
}

ready_bits :
    (phase mode status commands bad blocked assumed busy : Bool)
    → ((phase
          && not mode
          && status
          && not commands
          && not bad
          && blocked
          && not assumed
          && not busy)
        ≡ true)
      ↔ ((phase ≡ true)
          × (mode ≡ false)
          × (status ≡ true)
          × (commands ≡ false)
          × (bad ≡ false)
          × (blocked ≡ true)
          × (assumed ≡ false)
          × (busy ≡ false))
ready_bits phase mode status commands bad blocked assumed busy = ground arith

-- Every blocker of the task is a task that is done.
abbrev pub Unblocked : Task → List Task → Type 0
Unblocked task tasks =
    (id : Text) → Memᴰ id task.blocked_by → is_done_for_deps (find_task tasks id) ≡ true

pub unresolved_blockers_iff :
    (task : Task) (tasks : List Task)
    → (is_empty (unresolved_blockers task tasks) ≡ true) ↔ Unblocked task tasks
unfolding unresolved_blockers
unresolved_blockers_iff task tasks =
    let none_left =
      filter-eq-nil (λ id. not (is_done_for_deps (find_task tasks id))) task.blocked_by in
    let empty = is_empty_iff (unresolved_blockers task tasks) in
    (
      λ h id m. let fine = none_left.0 (empty.0 h) id m in ground arith,
      λ h. empty.1 (none_left.1 (λ id m. let fine = h id m in ground arith)),
    )

-- No open blocking assumption for the user was made for the whole spec, for the task's spec, or in
-- anything that the task waits for.
abbrev pub Unassuming : Task → ReadyContext → Type 0
Unassuming task ctx =
    (a : Assumption)
    → Memᴰ a ctx.assumptions
    → is_open_blocking a ≡ true
    → (¬ Memᴰ a.created_in spec_wide_created_in)
      × (a.created_in ≢ task.spec_id)
      × (¬ Reach ctx.tasks task.id a.created_in)

subgraph_iff :
    (task : Task) (tasks : List Task) (x : Text)
    → (contains (subgraph_of (dependency_subgraph task tasks)) x ≡ true) ↔ Reach tasks task.id x
subgraph_iff task tasks x =
    let (out, e, reach) = dependency_subgraph_iff task tasks in
    let same : subgraph_of (dependency_subgraph task tasks) ≡ out = rw e refl in
    let found = contains_iff (subgraph_of (dependency_subgraph task tasks)) x in
    (
      λ h. (reach x).0 (subst (λ l. Memᴰ x l) same (found.0 h)),
      λ h. found.1 (subst (λ l. Memᴰ x l) (sym same) ((reach x).1 h)),
    )

quiet_bits :
    (opened wide spec sub : Bool)
    → ((opened && (wide || spec || sub)) ≡ false)
      ↔ (opened ≡ true → (wide ≡ false) × (spec ≡ false) × (sub ≡ false))
quiet_bits opened wide spec sub = ground arith

not_true : (b : Bool) → (b ≡ false) ↔ (¬ (b ≡ true))
not_true b = ground arith

has_open_blocking_assumption_iff :
    (task : Task) (ctx : ReadyContext)
    → (has_open_blocking_assumption task ctx ≡ false) ↔ Unassuming task ctx
unfolding has_open_blocking_assumption
has_open_blocking_assumption_iff task ctx =
    (λ h a m. (quiet a).0 (each.0 h a m), λ h. each.1 (λ a m. (quiet a).1 (h a m)))
  where
    subgraph : List Text
    subgraph = subgraph_of (dependency_subgraph task ctx.tasks)

    each :
        (any (λ a. is_open_blocking a && concerns_task task subgraph a) ctx.assumptions ≡ false) ↔ (
          (a : Assumption)
          → Memᴰ a ctx.assumptions
          → (is_open_blocking a && concerns_task task subgraph a) ≡ false)
    each = any-eq-false (λ a. is_open_blocking a && concerns_task task subgraph a) ctx.assumptions

    quiet :
        (a : Assumption)
        → ((is_open_blocking a && concerns_task task subgraph a) ≡ false) ↔ (
            is_open_blocking a ≡ true
            → (¬ Memᴰ a.created_in spec_wide_created_in)
              × (a.created_in ≢ task.spec_id)
              × (¬ Reach ctx.tasks task.id a.created_in))
    quiet a =
        let wide = contains spec_wide_created_in a.created_in in
        let spec = a.created_in == task.spec_id in
        let sub = contains subgraph a.created_in in
        let bits = quiet_bits (is_open_blocking a) wide spec sub in
        (
          λ h o.
              let (w, s, r) = bits.0 h o in
              (
                λ k. (not_true wide).0 w ((contains_iff spec_wide_created_in a.created_in).1 k),
                λ e. (not_true spec).0 s ((==_iff a.created_in task.spec_id).1 e),
                λ k. (not_true sub).0 r ((subgraph_iff task ctx.tasks a.created_in).1 k),
              ),
          λ h. bits.1 (λ o.
              let (w, s, r) = h o in
              (
                (not_true wide).1 (λ k. w ((contains_iff spec_wide_created_in a.created_in).0 k)),
                (not_true spec).1 (λ k. s ((==_iff a.created_in task.spec_id).0 k)),
                (not_true sub).1 (λ k. r ((subgraph_iff task ctx.tasks a.created_in).0 k)),
              )),
        )

-- No other task is in progress or being verified.
abbrev pub Alone : Task → List Task → Type 0
Alone task tasks = (o : Task) → Memᴰ o tasks → is_running o ≡ true → o.id ≡ task.id

busy_iff :
    (task : Task) (tasks : List Task)
    → (any (λ (o : Task). is_running o && not (o.id == task.id)) tasks ≡ false) ↔ Alone task tasks
busy_iff task tasks =
    let each = any-eq-false (λ (o : Task). is_running o && not (o.id == task.id)) tasks in
    (
      λ h o m r. (==_iff o.id task.id).0 (other_bits.0 (each.0 h o m) r),
      λ h. each.1 (λ o m. other_bits.1 (λ r. (==_iff o.id task.id).1 (h o m r))),
    )
  where
    other_bits : {r same : Bool} → ((r && not same) ≡ false) ↔ (r ≡ true → same ≡ true)
    other_bits = ground arith

module _ (lower : Text → Text) (platform : Platform) where
  -- A task that can start.
  abbrev pub CanStart : Task → ReadyContext → Type 0
  CanStart task ctx =
      ((ctx.phase ≡ plan_ready) ⊎ (ctx.phase ≡ executing))
      × (ctx.control_mode ≢ advisory)
      × ((task.status ≡ todo) ⊎ (task.status ≡ ready))
      × (task.contract.verification_commands ≢ [])
      × IsAllowList lower task.contract.files_allowed
      × IsPromise lower platform task.contract.files_allowed task.contract.expected_artifacts
      × Unblocked task ctx.tasks
      × Unassuming task ctx
      × Alone task ctx.tasks

  contract_iff :
      (p : Platform) (files promised : List Text)
      → (file_contract_fails_plan lower platform files promised ≡ false)
        ↔ (IsAllowList lower files × IsPromise lower platform files promised)
  unfolding file_contract_fails_plan
  contract_iff p files promised =
      let allowed = files_allowed_iff lower files in
      let promise = expected_artifacts_iff lower platform files promised in
      (
        λ h. (allowed.0 (either_bits.0 h).0, promise.0 (either_bits.0 h).1),
        λ (a, e). either_bits.1 (allowed.1 a, promise.1 e),
      )
    where
      either_bits : {a b : Bool} → ((a || b) ≡ false) ↔ ((a ≡ false) × (b ≡ false))
      either_bits = ground arith

  phase_bits :
      (p : Phase)
      → ((p == plan_ready || p == executing) ≡ true) ↔ ((p ≡ plan_ready) ⊎ (p ≡ executing))
  phase_bits p = ground (arith, ==_iff p plan_ready, ==_iff p executing)

  status_bits : (s : TaskStatus) → ((s == todo || s == ready) ≡ true) ↔ ((s ≡ todo) ⊎ (s ≡ ready))
  status_bits s = ground (arith, ==_iff s todo, ==_iff s ready)

  mode_bits : (m : ControlMode) → ((m == advisory) ≡ false) ↔ (m ≢ advisory)
  mode_bits m = ground (arith, ==_iff m advisory)

  -- A task is ready exactly when it can start: the phase allows work and control is not advisory; it
  -- is to do; it has a verification command and a settled file contract; each of its blockers is a
  -- task that is done; no open blocking assumption for the user was made for the whole spec, for its
  -- own spec or in anything that it waits for; and no other task is running.
  pub is_task_ready_iff :
      (task : Task) (ctx : ReadyContext)
      → (is_task_ready lower platform task ctx ≡ true) ↔ CanStart task ctx
  unfolding is_task_ready
  is_task_ready_iff task ctx = (to, from)
    where
      c : FileContract
      c = task.contract

      bits : (is_task_ready lower platform task ctx ≡ true) ↔ (
          ((ctx.phase == plan_ready || ctx.phase == executing) ≡ true)
          × ((ctx.control_mode == advisory) ≡ false)
          × ((task.status == todo || task.status == ready) ≡ true)
          × (is_empty c.verification_commands ≡ false)
          × (file_contract_fails_plan lower platform c.files_allowed c.expected_artifacts ≡ false)
          × (is_empty (unresolved_blockers task ctx.tasks) ≡ true)
          × (has_open_blocking_assumption task ctx ≡ false)
          × (any (λ (o : Task). is_running o && not (o.id == task.id)) ctx.tasks ≡ false))
      bits =
          ready_bits (ctx.phase == plan_ready || ctx.phase == executing)
            (ctx.control_mode == advisory) (task.status == todo || task.status == ready)
            (is_empty c.verification_commands)
            (file_contract_fails_plan lower platform c.files_allowed c.expected_artifacts)
            (is_empty (unresolved_blockers task ctx.tasks)) (has_open_blocking_assumption task ctx)
            (any (λ (o : Task). is_running o && not (o.id == task.id)) ctx.tasks)

      to : is_task_ready lower platform task ctx ≡ true → CanStart task ctx
      to h =
          let (p, m, s, v, f, b, a, o) = bits.0 h in
          let (allowed, promise) =
            (contract_iff platform c.files_allowed c.expected_artifacts).0 f in
          (
            (phase_bits ctx.phase).0 p,
            (mode_bits ctx.control_mode).0 m,
            (status_bits task.status).0 s,
            (some_iff c.verification_commands).0 v,
            allowed,
            promise,
            (unresolved_blockers_iff task ctx.tasks).0 b,
            (has_open_blocking_assumption_iff task ctx).0 a,
            (busy_iff task ctx.tasks).0 o,
          )

      from : CanStart task ctx → is_task_ready lower platform task ctx ≡ true
      from (p, m, s, v, allowed, promise, b, a, o) = bits.1 (
        (phase_bits ctx.phase).1 p,
        (mode_bits ctx.control_mode).1 m,
        (status_bits task.status).1 s,
        (some_iff c.verification_commands).1 v,
        (contract_iff platform c.files_allowed c.expected_artifacts).1 (allowed, promise),
        (unresolved_blockers_iff task ctx.tasks).1 b,
        (has_open_blocking_assumption_iff task ctx).1 a,
        (busy_iff task ctx.tasks).1 o,
      )
