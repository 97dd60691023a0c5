-- ===== src/Assurance/Evidence.antt =====
-- The records of assurance.ts and component.ts of packages/schema/src that a run leaves: the
-- approval of a plan, the output of a validator, the evidence of a check and the execution of all
-- checks, with the issues that their refinements add. Digests, versions and times are texts.
pub mod Honest
mod Tests
use legion_cli.Prelude.{
  ◌≡◌, Bool, true, false, not, ◌&&◌, ◌||◌, ℕ, Option, none, some, List, [], ◌∷◌, ◌++◌, any, all,
  contains, length, nat_beq, ◌==◌, nat_eq, list_eq, option_eq, if◌then◌else◌, String, is_empty,
}
use legion_cli.Text.{Text, codes, unique}
use legion_cli.Paths.{normalize_path_key}
use legion_cli.Assurance.Labels.{ProvenanceLabel}
use legion_cli.Assurance.Labels.Product.{BaselineSource, PolicySource}
use legion_cli.Assurance.Contract.{Issue, issue_if, unique_by}
use legion_cli.Assurance.Plan.{AssurancePlan}
use legion_cli.Assurance.Plan.Visits.{KnowledgeSelector}
use legion_cli.Attempt.{Attempt, returned, thrown, ◌>>=◌}

pub data NativeTarget : Type 0 where
  x86_64_pc_windows_msvc x86_64_unknown_linux_gnu aarch64_unknown_linux_gnu : NativeTarget
  x86_64_unknown_linux_musl aarch64_unknown_linux_musl : NativeTarget
  x86_64_apple_darwin aarch64_apple_darwin : NativeTarget

pub data Guard : Type 0 where
  windows_job_committed unix_address_space : Guard

pub record ComponentRuntimeIdentity : Type 0 where
  pub host_sha256 : Text
  pub version : Text
  pub target : NativeTarget
  pub settings_digest : Text
  pub guard : Guard

abbrev pub is_windows : NativeTarget → Bool
is_windows NativeTarget.x86_64_pc_windows_msvc = true
is_windows _ = false

abbrev pub is_job : Guard → Bool
is_job Guard.windows_job_committed = true
is_job Guard.unix_address_space = false

-- `a !== b` on Booleans
abbrev pub differ : Bool → Bool → Bool
differ true b = not b
differ false b = b

unfoldable pub guard_issues : ComponentRuntimeIdentity → List Issue
guard_issues v =
    issue_if (differ (is_windows v.target) (is_job v.guard))
      "Native budget kind must match platform"

pub record AssuranceApproval : Type 0 where
  pub approval_id : Text
  pub spec_id : Text
  pub plan_fingerprint : Text
  pub manifest_digest : Text
  pub approved_at : Text
  pub native_host : Option ComponentRuntimeIdentity
  pub baseline_sources : List BaselineSource

pub data Verdict : Type 0 where
  passed failed : Verdict

pub data ObservationStatus : Type 0 where
  passed failed error : ObservationStatus

pub data CheckResult : Type 0 where
  passed failed unavailable : CheckResult

pub record Observation : Type 0 where
  pub id : Text
  pub status : ObservationStatus
  pub code : Text

pub record ValidatorOutput : Type 0 where
  pub check_id : Text
  pub status : Verdict
  pub observations : List Observation

abbrev pub verdict_passed : Verdict → Bool
verdict_passed Verdict.passed = true
verdict_passed Verdict.failed = false

abbrev pub observation_passed : ObservationStatus → Bool
observation_passed ObservationStatus.passed = true
observation_passed _ = false

unfoldable pub output_issues : ValidatorOutput → List Issue
unfolding unique_by
output_issues v =
    unique_by (λ (x : Observation). x.id) v.observations
    ++ issue_if
        (verdict_passed v.status
          && any (λ (x : Observation). not (observation_passed x.status)) v.observations)
        "Failed/error observation cannot yield passed"

pub data CheckInputIdentity : Type 0 where
  file : (path mode sha256 : Text) → CheckInputIdentity
  missing : (path : Text) → CheckInputIdentity
  unit :
      (unit_id path mode syntax_digest observed_file_digest : Text)
      → (selector : Option KnowledgeSelector) → CheckInputIdentity

pub record CheckEvidence : Type 0 where
  pub check_id : Text
  pub approval_id : Text
  pub extension_check_id : Text
  pub manifest_digest : Text
  pub input_digest : Option Text
  pub reuse_key : Text
  pub inputs : List CheckInputIdentity
  pub module_sha256 : Text
  pub runtime : ComponentRuntimeIdentity
  pub parser_version : Option Text
  pub configuration_digest : Text
  pub result : CheckResult
  pub output : Option ValidatorOutput
  pub reason : Option Text
  pub observation_digest : Option Text
  pub execution_id : Text
  pub reused_from : Option Text
  pub recorded_at : Text
  pub observation_label : Option ProvenanceLabel

abbrev pub is_passed : CheckResult → Bool
is_passed CheckResult.passed = true
is_passed _ = false

abbrev pub is_unavailable : CheckResult → Bool
is_unavailable CheckResult.unavailable = true
is_unavailable _ = false

-- `x === null`
abbrev pub is_null {ℓ} : {A : Type ℓ} → Option A → Bool
is_null none = true
is_null (some a) = false

-- `status === result`, of the status of an output and the result of a check.
abbrev pub says_result : Verdict → CheckResult → Bool
says_result Verdict.passed CheckResult.passed = true
says_result Verdict.failed CheckResult.failed = true
says_result _ _ = false

-- `output === null || output.status !== result`
abbrev pub lacks_output : Option ValidatorOutput → CheckResult → Bool
lacks_output none result = true
lacks_output (some o) result = not (says_result o.status result)

abbrev pub mismatch : CheckEvidence → Bool
mismatch v =
    if is_unavailable v.result
    then not (is_null v.output) || not (is_null v.observation_digest)
    else (lacks_output v.output v.result || is_null v.observation_digest)

-- `reusedFrom !== null && (result !== "passed" || reusedFrom === executionId)`
abbrev pub bad_reuse : CheckEvidence → Bool
bad_reuse v = elim v.reused_from [
  | none ↦ false
  | some source ↦ not (is_passed v.result) || (source == v.execution_id)
]

abbrev pub other_check : CheckEvidence → Bool
other_check v = elim v.output [ none ↦ false | some o ↦ not (o.check_id == v.extension_check_id) ]

-- The issues of the output itself.
abbrev pub nested_issues : Option ValidatorOutput → List Issue
nested_issues none = []
nested_issues (some o) = output_issues o

pub record CheckReference : Type 0 where
  pub check_id : Text
  pub receipt_digest : Text
  pub execution_id : Text
  pub result : CheckResult
  pub reused : Bool

pub data PolicyStatus : Type 0 where
  enforced not_enforced blocked : PolicyStatus

pub data TraceStatus : Type 0 where
  valid incomplete invalid : TraceStatus

pub data ExecutionStatus : Type 0 where
  passed blocked : ExecutionStatus

pub record AssuranceExecution : Type 0 where
  pub execution_id : Text
  pub approval_id : Text
  pub manifest_digest : Text
  pub product_fingerprint : Text
  pub environment_fingerprint : Text
  pub checks : List CheckReference
  pub policy_status : PolicyStatus
  pub trace_status : TraceStatus
  pub status : ExecutionStatus
  pub blocker : Option Text
  pub recorded_at : Text

abbrev pub execution_passed : ExecutionStatus → Bool
execution_passed ExecutionStatus.passed = true
execution_passed ExecutionStatus.blocked = false

abbrev pub trace_valid : TraceStatus → Bool
trace_valid TraceStatus.valid = true
trace_valid _ = false

abbrev pub policy_blocked : PolicyStatus → Bool
policy_blocked PolicyStatus.blocked = true
policy_blocked _ = false

unfoldable pub execution_issues : AssuranceExecution → List Issue
unfolding unique_by
execution_issues v =
    unique_by (λ (x : CheckReference). x.check_id) v.checks
    ++ issue_if
        (execution_passed v.status
          && (any (λ (x : CheckReference). not (is_passed x.result)) v.checks
              || not (trace_valid v.trace_status)
              || policy_blocked v.policy_status
              || not (is_null v.blocker)))
        "Passed execution has unmet gates"
    ++ issue_if (not (execution_passed v.status) && is_null v.blocker)
        "Blocked execution requires a concrete blocker"

module _ (lower : Text → Text) where
  unfoldable pub approval_issues : AssuranceApproval → List Issue
  unfolding unique_by normalize_path_key
  approval_issues v =
      unique_by (λ (x : BaselineSource). normalize_path_key lower x.path) v.baseline_sources

  abbrev pub input_key : CheckInputIdentity → Text
  input_key (CheckInputIdentity.unit id path mode syntax observed selector) = codes "unit:" ++ id
  input_key (CheckInputIdentity.file path mode sha256) =
      codes "file:" ++ normalize_path_key lower path
  input_key (CheckInputIdentity.missing path) = codes "file:" ++ normalize_path_key lower path

  -- The issues that a record of evidence adds, after those of its runtime and of its output.
  unfoldable pub evidence_issues : CheckEvidence → List Issue
  unfolding unique_by guard_issues output_issues
  evidence_issues v =
      guard_issues v.runtime
      ++ nested_issues v.output
      ++ unique_by input_key v.inputs
      ++ issue_if (bad_reuse v) "Only a prior passed execution may be reused"
      ++ issue_if (mismatch v) "Result/output identity mismatch"
      ++ issue_if (not (is_unavailable v.result) && is_null v.input_digest)
          "An executed validator result requires the admitted packet digest"
      ++ issue_if (differ (is_unavailable v.result) (not (is_null v.reason)))
          "A host-unavailable result requires its diagnostic; executed results use observations"
      ++ issue_if (other_check v) "Module output must name the approved extension check"

-- `validateAssuranceAdoption`, which throws the message of the first test that fails.
unfoldable pub validate_assurance_adoption :
    {J : Type 0} → AssurancePlan J → AssuranceApproval → Attempt String (Unit {0})
validate_assurance_adoption plan approval =
    if not (plan.spec_id == approval.spec_id)
    then thrown "Assurance spec identity mismatch"
    else if differ (is_empty plan.validators) (is_null approval.native_host)
    then thrown "Native host identity required exactly when validators are declared"
    else if not (nat_beq (length approval.baseline_sources) (length plan.sources))
        || any
            (λ (x : PolicySource).
              not (any (λ (b : BaselineSource). b.path == x.path) approval.baseline_sources))
            plan.sources
    then thrown "Baseline must bind every declared source"
    else returned tt
