-- ===== src/Graph/Readiness/Planned.antt =====
-- The spec that a plan is made for.
use legion_cli.Prelude.{
  is_empty, some_iff, ◌≡◌, ◌≢◌, ◌↔◌, Bool, true, false, not, ◌&&◌, List, [], ◌++◌, Memᴰ, any,
  any_iff, ◌==◌, ==_iff, list_eq, nat_eq, arith,
}
use legion_cli.Text.{Text, codes}
use legion_cli.Lifecycle.{p0, priority_eq}
use legion_cli.Graph.Tasks.{Task}
use legion_cli.Graph.Readiness.{
  SpecStatus, AcceptanceCriterion, PlanInput, is_frozen, say, spec_fails,
}

pub say-nil : (b : Bool) (m : Text) → (say b m ≡ []) ↔ (b ≡ false)
say-nil true m = ground arith
say-nil false m = ground arith

pub is_frozen_iff : (s : SpecStatus) → (is_frozen s ≡ true) ↔ (s ≡ SpecStatus.frozen)
is_frozen_iff s = ground arith

-- A spec that a plan can be made for.
pub record IsPlanned (input : PlanInput) : Type 0 where
  pub frozen : input.spec.status ≡ SpecStatus.frozen
  pub must_be_true : input.spec.must_be_true ≢ []
  pub p0_criterion :
      input.preparation_policy_2 ≡ false
      → (ac : AcceptanceCriterion) × Memᴰ ac input.spec.acceptance × (ac.priority ≡ p0)
  pub p0_task :
      input.preparation_policy_2 ≡ false → (t : Task) × Memᴰ t input.tasks × (t.priority ≡ p0)
  pub some_task : input.preparation_policy_2 ≡ true → input.tasks ≢ []

pub has_p0_criterion :
    (acs : List AcceptanceCriterion)
    → (any (λ (ac : AcceptanceCriterion). ac.priority == p0) acs ≡ true)
      ↔ (ac : AcceptanceCriterion) × Memᴰ ac acs × (ac.priority ≡ p0)
has_p0_criterion acs =
    let found = any_iff (λ (ac : AcceptanceCriterion). ac.priority == p0) acs in
    (
      λ h. let (ac, m, e) = found.0 h in (ac, m, (==_iff ac.priority p0).0 e),
      λ (ac, m, e). found.1 (ac, m, (==_iff ac.priority p0).1 e),
    )

pub has_p0_task :
    (ts : List Task)
    → (any (λ (t : Task). t.priority == p0) ts ≡ true) ↔ (t : Task) × Memᴰ t ts × (t.priority ≡ p0)
has_p0_task ts =
    let found = any_iff (λ (t : Task). t.priority == p0) ts in
    (
      λ h. let (t, m, e) = found.0 h in (t, m, (==_iff t.priority p0).0 e),
      λ (t, m, e). found.1 (t, m, (==_iff t.priority p0).1 e),
    )

pub spec_bits :
    (fixed bare old_ac old_task policy no_task : Bool) (m n k l r : Text)
    → (say (not fixed) m
          ++ say bare n
          ++ say (not policy && not old_ac) k
          ++ say (not policy && not old_task) l
          ++ say (policy && no_task) r
        ≡ [])
      ↔ ((fixed ≡ true)
          × (bare ≡ false)
          × (policy ≡ false → old_ac ≡ true)
          × (policy ≡ false → old_task ≡ true)
          × (policy ≡ true → no_task ≡ false))
spec_bits fixed bare old_ac old_task policy no_task m n k l r = ground arith

pub spec_fails-nil_iff : (input : PlanInput) → (spec_fails input ≡ []) ↔ IsPlanned input
spec_fails-nil_iff input = (to, from)
  where
    bits : (spec_fails input ≡ []) ↔ (
        (is_frozen input.spec.status ≡ true)
        × (is_empty input.spec.must_be_true ≡ false)
        × (input.preparation_policy_2 ≡ false
            → any (λ (ac : AcceptanceCriterion). ac.priority == p0) input.spec.acceptance ≡ true)
        × (input.preparation_policy_2 ≡ false
            → any (λ (t : Task). t.priority == p0) input.tasks ≡ true)
        × (input.preparation_policy_2 ≡ true → is_empty input.tasks ≡ false))
    bits =
        spec_bits (is_frozen input.spec.status) (is_empty input.spec.must_be_true)
          (any (λ (ac : AcceptanceCriterion). ac.priority == p0) input.spec.acceptance)
          (any (λ (t : Task). t.priority == p0) input.tasks) input.preparation_policy_2
          (is_empty input.tasks) (codes "spec not frozen") (codes "mustBeTrue empty")
          (codes "no P0 acceptance criterion") (codes "plan did not emit at least one P0 task")
          (codes "plan emitted no tasks")

    to : spec_fails input ≡ [] → IsPlanned input
    to h =
        let (a, b, c, d, e) = bits.0 h in
        record {
          frozen = (is_frozen_iff input.spec.status).0 a;
          must_be_true = (some_iff input.spec.must_be_true).0 b;
          p0_criterion = λ old. (has_p0_criterion input.spec.acceptance).0 (c old);
          p0_task = λ old. (has_p0_task input.tasks).0 (d old);
          some_task = λ new. (some_iff input.tasks).0 (e new);
        }

    from : IsPlanned input → spec_fails input ≡ []
    from p = bits.1 (
      (is_frozen_iff input.spec.status).1 p.frozen,
      (some_iff input.spec.must_be_true).1 p.must_be_true,
      λ old. (has_p0_criterion input.spec.acceptance).1 (p.p0_criterion old),
      λ old. (has_p0_task input.tasks).1 (p.p0_task old),
      λ new. (some_iff input.tasks).1 (p.some_task new),
    )
