-- ===== src/Graph/Readiness/Executable.antt =====
-- What a plan that is not failed is.
use legion_cli.Prelude.{
  is_empty, ◌≡◌, ◌≢◌, ◌↔◌, refl, List, [], ◌∷◌, ◌++◌, Memᴰ, list_eq, nat_eq, arith, append-eq-nil,
  flat_map, flat_map-nil, if◌then◌else◌,
}
use legion_cli.Text.{Text}
use legion_cli.Lifecycle.{priority_eq}
use legion_cli.Graph.Tasks.{Task}
use legion_cli.Graph.Contract.{Platform}
use legion_cli.Graph.Readiness.{
  PlanInput, Readiness, spec_fails, task_fails, overlap_fails, plan_fails, plan_concerns,
  verdict_of, evaluate_readiness,
}
use legion_cli.Graph.Readiness.Planned.{IsPlanned, spec_fails-nil_iff}
use legion_cli.Graph.Readiness.Runnable.{
  IsRunnable, NoOverlap, task_fails-nil_iff, overlap_fails-nil_iff,
}

module _ (lower : Text → Text) (platform : Platform) where
  -- A plan that can be executed.
  abbrev pub IsExecutable : PlanInput → Type 0
  IsExecutable input =
      IsPlanned input
      × ((t : Task) → Memᴰ t input.tasks → IsRunnable lower platform t)
      × NoOverlap lower platform input.tasks

  plan_fails-nil_iff :
      (input : PlanInput) → (plan_fails lower platform input ≡ []) ↔ IsExecutable input
  unfolding plan_fails
  plan_fails-nil_iff input =
      let each = flat_map-nil (task_fails lower platform) input.tasks in
      let outer =
        append-eq-nil (spec_fails input ++ flat_map (task_fails lower platform) input.tasks)
          (overlap_fails lower platform input.tasks) in
      let inner =
        append-eq-nil (spec_fails input) (flat_map (task_fails lower platform) input.tasks) in
      (
        λ h. (
          (spec_fails-nil_iff input).0 (inner.0 (outer.0 h).0).0,
          λ t m. (task_fails-nil_iff lower platform t).0 (each.0 (inner.0 (outer.0 h).0).1 t m),
          (overlap_fails-nil_iff lower platform input.tasks).0 (outer.0 h).1,
        ),
        λ (p, r, o). outer.1 (
          inner.1 (
            (spec_fails-nil_iff input).1 p,
            each.1 (λ t m. (task_fails-nil_iff lower platform t).1 (r t m)),
          ),
          (overlap_fails-nil_iff lower platform input.tasks).1 o,
        ),
      )

verdict_of-fail :
    (failed doubts : List Text) → (verdict_of failed doubts ≢ Readiness.fail) ↔ (failed ≡ [])
verdict_of-fail [] [] = ground arith
verdict_of-fail [] (d ∷ ds) = ground arith
verdict_of-fail (f ∷ fs) doubts = (λ h. absurd (h refl), λ e. cc)

-- The verdict on a plan is not FAIL exactly when the plan can be executed: its spec is frozen and
-- says what must be true; there is a P0 criterion and a P0 task, or, under preparation policy 2,
-- some task; each task has a verification command, a list of allowed files that are task paths, and
-- promises only task paths that are allowed; and no two tasks' allowed files collide.
pub evaluate_readiness-fail_iff :
    (lower : Text → Text) (platform : Platform) (input : PlanInput)
    → ((evaluate_readiness lower platform input).readiness ≢ Readiness.fail)
      ↔ IsExecutable lower platform input
unfolding evaluate_readiness
evaluate_readiness-fail_iff lower platform input =
    let verdict =
      verdict_of-fail (plan_fails lower platform input)
        (if is_empty (plan_fails lower platform input) then plan_concerns input else []) in
    let fails = plan_fails-nil_iff lower platform input in
    (λ h. fails.0 (verdict.0 h), λ h. verdict.1 (fails.1 h))
