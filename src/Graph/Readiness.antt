-- ===== src/Graph/Readiness.antt =====
-- The verdict on a plan: packages/core/src/readiness.ts.
mod Planned
mod Runnable
pub mod Executable
use legion_cli.Prelude.{
  is_empty, is_empty_iff, some_iff, ℕ, Bool, true, false, not, ◌&&◌, ◌||◌, List, [], ◌∷◌, ◌++◌, map,
  any, length, leb, ◌==◌, nat_eq, list_eq, if◌then◌else◌, Option, none, some, flat_map, String,
}
use legion_cli.Text.{Text, codes}
use legion_cli.Lifecycle.{Priority, p0, priority_eq}
use legion_cli.Graph.Tasks.{Task, FileContract}
use legion_cli.Graph.Contract.{
  Platform, is_implicit_forbidden_path, files_allowed_fails_plan, expected_artifacts_fails_plan,
  overlapping_files_allowed,
}

pub data SpecStatus : Type 0 where
  draft frozen superseded : SpecStatus

abbrev pub is_frozen : SpecStatus → Bool
is_frozen SpecStatus.frozen = true
is_frozen _ = false

pub record AcceptanceCriterion : Type 0 where
  pub id : Text
  pub statement : String
  pub priority : Priority

-- The fields of a spec that the verdict reads.
pub record Spec : Type 0 where
  pub status : SpecStatus
  pub must_be_true : List String
  pub must_not_change : List String
  pub out_of_scope : List String
  pub acceptance : List AcceptanceCriterion

-- `preparationPolicy` is 2 or absent; `hasStories` and `skipWireframes` are never read.
pub record PlanInput : Type 0 where
  pub spec : Spec
  pub tasks : List Task
  pub open_non_blocking_assumptions : Bool
  pub preparation_policy_2 : Bool

pub data Readiness : Type 0 where
  pass concerns fail : Readiness

pub record ReadinessReport : Type 0 where
  pub readiness : Readiness
  pub fails : List Text
  pub concerns : List Text

abbrev pub say : Bool → Text → List Text
say test message = if test then message ∷ [] else []

abbrev pub spec_fails : PlanInput → List Text
spec_fails input =
    say (not (is_frozen input.spec.status)) (codes "spec not frozen")
    ++ say (is_empty input.spec.must_be_true) (codes "mustBeTrue empty")
    ++ say
        (not input.preparation_policy_2
          && not (any (λ (ac : AcceptanceCriterion). ac.priority == p0) input.spec.acceptance))
        (codes "no P0 acceptance criterion")
    ++ say
        (not input.preparation_policy_2 && not (any (λ (t : Task). t.priority == p0) input.tasks))
        (codes "plan did not emit at least one P0 task")
    ++ say (input.preparation_policy_2 && is_empty input.tasks) (codes "plan emitted no tasks")

abbrev pub plan_concerns : PlanInput → List Text
plan_concerns input =
    say input.open_non_blocking_assumptions (codes "open non-blocking assumption")
    ++ say (any (λ (t : Task). not (leb (length t.contract.files_allowed) 12)) input.tasks)
        (codes "filesAllowed length > 12")
    ++ say (is_empty input.spec.must_not_change && not (is_empty input.spec.out_of_scope))
        (codes "mustNotChange empty")

abbrev pub verdict_of : List Text → List Text → Readiness
verdict_of failed doubts =
    if not (is_empty failed)
    then Readiness.fail
    else if not (is_empty doubts)
    then Readiness.concerns
    else Readiness.pass

module _ (lower : Text → Text) (platform : Platform) where
  abbrev pub command_fails : Task → List Text
  command_fails t =
      say (is_empty t.contract.verification_commands)
        (t.id ++ codes " missing verificationCommands")

  abbrev pub allowed_fails : Task → List Text
  allowed_fails t =
      if any (is_implicit_forbidden_path lower) t.contract.files_allowed
      then (t.id ++ codes " filesAllowed includes a forbidden path") ∷ []
      else say (files_allowed_fails_plan lower t.contract.files_allowed)
          (t.id ++ codes " filesAllowed must be concrete paths")

  abbrev pub artifact_fails : Task → List Text
  artifact_fails t =
      if any (is_implicit_forbidden_path lower) t.contract.expected_artifacts
      then (t.id ++ codes " expectedArtifacts includes a forbidden path") ∷ []
      else say
          (expected_artifacts_fails_plan lower platform t.contract.files_allowed
            t.contract.expected_artifacts)
          (t.id ++ codes " expectedArtifacts must be a subset of filesAllowed")

  abbrev pub task_fails : Task → List Text
  task_fails t = command_fails t ++ allowed_fails t ++ artifact_fails t

  abbrev pub overlap_fails : List Task → List Text
  overlap_fails tasks =
      map (λ overlap. codes "overlapping filesAllowed " ++ overlap)
        (overlapping_files_allowed lower tasks)

  unfoldable pub plan_fails : PlanInput → List Text
  plan_fails input =
      spec_fails input ++ flat_map task_fails input.tasks ++ overlap_fails input.tasks

  unfoldable pub evaluate_readiness : PlanInput → ReadinessReport
  unfolding plan_fails
  evaluate_readiness input =
      let fails = plan_fails input in
      let doubts = if is_empty fails then plan_concerns input else [] in
      record { readiness = verdict_of fails doubts; fails = fails; concerns = doubts }
