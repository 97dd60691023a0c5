-- ===== src/Assurance/Evidence/Tests.antt =====
-- Evidence of a check that passed, evidence that does not match its output, an execution that passed,
-- and the adoption of a plan.
use legion_cli.Prelude.{◌≡◌, ◌↔◌, refl, false, none, some, ℕ, List, [], ◌∷◌}
use legion_cli.Text.{codes, ascii_lower_case}
use legion_cli.Attempt.{returned, thrown}
use legion_cli.Assurance.Labels.{public}
use legion_cli.Assurance.Labels.Product.{PolicySource}
use legion_cli.Assurance.Contract.{issue}
use legion_cli.Assurance.Plan.{AssurancePlan, SecurityMode}
use legion_cli.Assurance.Evidence.{
  ComponentRuntimeIdentity, NativeTarget, Guard, Verdict, ObservationStatus, CheckResult,
  ValidatorOutput, CheckInputIdentity, CheckEvidence, evidence_issues, AssuranceExecution,
  ExecutionStatus, PolicyStatus, TraceStatus, execution_issues, AssuranceApproval,
  validate_assurance_adoption, approval_issues,
}
use legion_cli.Assurance.Evidence.Honest.{SoundEvidence, evidence_issues-nil_iff}

abbrev linux : ComponentRuntimeIdentity
linux = record {
  host_sha256 = [];
  version = codes "1.0.0";
  target = NativeTarget.x86_64_unknown_linux_gnu;
  settings_digest = [];
  guard = Guard.unix_address_space;
}

abbrev output : Verdict → ObservationStatus → ValidatorOutput
output verdict status = record {
  check_id = codes "json-contract";
  status = verdict;
  observations = record { id = codes "o"; status = status; code = codes "ok" } ∷ [];
}

abbrev evidence : CheckResult → ValidatorOutput → CheckEvidence
evidence result told = record {
  check_id = codes "c";
  approval_id = codes "a";
  extension_check_id = codes "json-contract";
  manifest_digest = [];
  input_digest = some (codes "i");
  reuse_key = [];
  inputs = CheckInputIdentity.missing (codes "a.json") ∷ [];
  module_sha256 = [];
  runtime = linux;
  parser_version = none;
  configuration_digest = [];
  result = result;
  output = some told;
  reason = none;
  observation_digest = some (codes "d");
  execution_id = codes "e";
  reused_from = none;
  recorded_at = [];
  observation_label = none;
}

abbrev good : CheckEvidence
good = evidence CheckResult.passed (output Verdict.passed ObservationStatus.passed)

good_accepted : evidence_issues ascii_lower_case good ≡ []
unfolding evidence_issues
good_accepted = refl

bluff_refused :
    evidence_issues ascii_lower_case
      (evidence CheckResult.passed (output Verdict.passed ObservationStatus.error))
    ≡ issue "Failed/error observation cannot yield passed" ∷ []
unfolding evidence_issues
bluff_refused = refl

mismatch_refused :
    evidence_issues ascii_lower_case
      (evidence CheckResult.passed (output Verdict.failed ObservationStatus.failed))
    ≡ issue "Result/output identity mismatch" ∷ []
unfolding evidence_issues
mismatch_refused = refl

evidence_issues-nil_iff_example :
    (evidence_issues ascii_lower_case good ≡ []) ↔ SoundEvidence ascii_lower_case good
evidence_issues-nil_iff_example = evidence_issues-nil_iff ascii_lower_case good

abbrev execution : CheckResult → AssuranceExecution
execution result = record {
  execution_id = codes "e";
  approval_id = codes "a";
  manifest_digest = [];
  product_fingerprint = [];
  environment_fingerprint = [];
  checks =
      record {
        check_id = codes "c";
        receipt_digest = [];
        execution_id = codes "e";
        result = result;
        reused = false;
      }
      ∷ [];
  policy_status = PolicyStatus.enforced;
  trace_status = TraceStatus.valid;
  status = ExecutionStatus.passed;
  blocker = none;
  recorded_at = [];
}

passes : execution_issues (execution CheckResult.passed) ≡ []
unfolding execution_issues
passes = refl

unmet :
    execution_issues (execution CheckResult.failed) ≡ issue "Passed execution has unmet gates" ∷ []
unfolding execution_issues
unmet = refl

abbrev plan : List PolicySource → AssurancePlan ℕ
plan sources = record {
  spec_id = codes "s";
  acceptance_ids = [];
  task_ids = [];
  mode = SecurityMode.adapter_default;
  sources = sources;
  sinks = [];
  transformations = [];
  tasks = [];
  external_calls = [];
  knowledge = [];
  validators = [];
  artifacts = [];
}

abbrev docs : PolicySource
docs = record { id = codes "docs"; path = codes "docs/a.md"; classification = public }

abbrev approval : AssuranceApproval
approval = record {
  approval_id = codes "a";
  spec_id = codes "s";
  plan_fingerprint = [];
  manifest_digest = [];
  approved_at = [];
  native_host = none;
  baseline_sources = record { path = codes "docs/a.md"; sha256 = none } ∷ [];
}

adopted : validate_assurance_adoption (plan (docs ∷ [])) approval ≡ returned tt
unfolding validate_assurance_adoption
adopted = refl

unbound :
    validate_assurance_adoption (plan []) approval
    ≡ thrown "Baseline must bind every declared source"
unfolding validate_assurance_adoption
unbound = refl

approval_fine : approval_issues ascii_lower_case approval ≡ []
unfolding approval_issues
approval_fine = refl
