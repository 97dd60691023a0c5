-- ===== src/Assurance/Plan/Accepted.antt =====
-- A plan that AssurancePlanSchema accepts, in the words of its parts.
use legion_cli.Prelude.{◌≡◌, ◌↔◌, Bool, Option, List, [], Memᴰ}
use legion_cli.Text.{Text}
use legion_cli.Grounded.{Grounded}
use legion_cli.Assurance.Contract.{Assertion}
use legion_cli.Assurance.Plan.Visits.{KnowledgeUnit, dependencies}
use legion_cli.Assurance.Plan.{
  AssurancePlan, SecurityTask, ExternalCall, Validator, task_issues, call_issues, knowledge_issues,
  validator_issues, plan_issues,
}
use legion_cli.Assurance.Plan.Silent.{cycle_issues-nil}
use legion_cli.Assurance.Plan.Sound.{
  UniqueNames, uniqueness_issues-nil, SoundTask, task_issues-nil, both-nil, each-nil,
}
use legion_cli.Assurance.Plan.Links.{
  Governed, mode_issues-nil, SoundCall, call_issues-nil, SoundUnit, knowledge_issues-nil,
  SoundValidator, validator_issues-nil,
}

module _ {J N : Type 0} (lower : Text → Text) (json_contract : J → Option (List (Assertion N)))
    (safe : N → Bool) where
  pub record SoundPlan (v : AssurancePlan J) : Type 0 where
    pub names : UniqueNames lower json_contract safe v
    pub tasks : (x : SecurityTask) → Memᴰ x v.tasks → SoundTask lower json_contract safe v x
    pub governed : Governed lower json_contract safe v
    pub calls :
        (x : ExternalCall J) → Memᴰ x v.external_calls → SoundCall lower json_contract safe v x
    pub knowledge :
        (x : KnowledgeUnit) → Memᴰ x v.knowledge → SoundUnit lower json_contract safe v x
    pub acyclic : (id : Text) → Grounded (dependencies v.knowledge) id
    pub validators :
        (x : Validator J) → Memᴰ x v.validators → SoundValidator lower json_contract safe v x

  -- The refinement of a plan adds no issue exactly when its names are unique; tasks, transformations,
  -- sinks, criteria, units and checks are declared where they are named; every task has a contract if
  -- information flow governs the plan; the data pointers of a call name places apart from each other;
  -- a check reads a unit exactly where the unit names the check; validators of the built-in extension
  -- have a contract over declared files; and every path of dependencies between units ends.
  pub plan_issues-nil_iff :
      (v : AssurancePlan J) → (plan_issues lower json_contract safe v ≡ []) ↔ SoundPlan v
  unfolding plan_issues
  plan_issues-nil_iff v =
      let (to, from) =
        both-nil
          (both-nil
            (both-nil
              (both-nil
                (both-nil
                  (both-nil (uniqueness_issues-nil lower json_contract safe v) (
                    each-nil (task_issues lower json_contract safe v) v.tasks
                      (task_issues-nil lower json_contract safe v)))
                  (mode_issues-nil lower json_contract safe v))
                (each-nil (call_issues lower json_contract safe v) v.external_calls
                  (call_issues-nil lower json_contract safe v)))
              (each-nil (knowledge_issues lower json_contract safe v) v.knowledge
                (knowledge_issues-nil lower json_contract safe v)))
            (cycle_issues-nil v.knowledge))
          (each-nil (validator_issues lower json_contract safe v) v.validators
            (validator_issues-nil lower json_contract safe v)) in
      (
        λ h.
            let ((((((a, b), c), d), e), f), g) = to h in
            record {
              names = a;
              tasks = b;
              governed = c;
              calls = d;
              knowledge = e;
              acyclic = f;
              validators = g;
            },
        λ s.
            from (
              (((((s.names, s.tasks), s.governed), s.calls), s.knowledge), s.acyclic),
              s.validators,
            ),
      )
