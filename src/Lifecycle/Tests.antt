-- ===== src/Lifecycle/Tests.antt =====
-- The tables at small inputs, and the theorems at walks that the engine makes.
use legion_cli.Prelude.{◌≡◌, refl, [], ◌∷◌, Memᴰ, arith, none}
use legion_cli.Refusal.{refused}
use legion_cli.Lifecycle.{
  spec_frozen, planning, plan_ready, executing, shipped, todo, ready, in_progress, verifying, done,
  assert_can_transition, assert_legal_phase,
}
use legion_cli.Lifecycle.Walks.{
  Walk, stay, move, engine_phase_edge, engine_task_edge, phases_not_skipped,
  task_stages_not_skipped,
}

skips_planning :
    assert_can_transition spec_frozen executing
    ≡ refused "cannot transition from spec_frozen to executing" "legion-cli plan"
unfolding assert_can_transition
skips_planning = refl

unknown_phase :
    assert_legal_phase (λ name. none) "surgical"
    ≡ refused "unknown phase surgical" "legion-cli spec or legion-cli spec approve"
unfolding assert_legal_phase
unknown_phase = refl

delivery :
    Walk engine_phase_edge spec_frozen
      (spec_frozen ∷ planning ∷ plan_ready ∷ executing ∷ shipped ∷ [])
      shipped
unfolding engine_phase_edge
delivery = move refl (move refl (move refl (move refl (stay shipped))))

phases_not_skipped_example :
    Memᴰ plan_ready (spec_frozen ∷ planning ∷ plan_ready ∷ executing ∷ shipped ∷ [])
phases_not_skipped_example = phases_not_skipped delivery 8 refl (omega arith) (omega arith)

task_run : Walk engine_task_edge todo (todo ∷ ready ∷ in_progress ∷ verifying ∷ done ∷ []) done
unfolding engine_task_edge
task_run = move refl (move refl (move refl (move refl (stay done))))

task_stages_not_skipped_example :
    Memᴰ verifying (todo ∷ ready ∷ in_progress ∷ verifying ∷ done ∷ [])
task_stages_not_skipped_example = task_stages_not_skipped task_run 3 (omega arith) (omega arith)
