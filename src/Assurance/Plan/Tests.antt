-- ===== src/Assurance/Plan/Tests.antt =====
-- A small plan of two units and one validator, and what the refinement says of it and of a plan whose
-- units wait for each other.
use legion_cli.Prelude.{◌≡◌, ◌↔◌, refl, true, none, some, Option, ℕ, List, [], ◌∷◌}
use legion_cli.Text.{Text, codes, ascii_lower_case}
use legion_cli.Assurance.Labels.{workspace}
use legion_cli.Assurance.Contract.{issue, Assertion, Predicate, Comparison}
use legion_cli.Json.Canonical.{Value}
use legion_cli.Assurance.Plan.Visits.{KnowledgeUnit}
use legion_cli.Assurance.Plan.{
  AssurancePlan, SecurityMode, Validator, ExternalCall, Effect, plan_issues, overlapping_pointers,
}
use legion_cli.Assurance.Plan.Accepted.{SoundPlan, plan_issues-nil_iff}

abbrev unit : Text → List Text → List Text → KnowledgeUnit
unit name depends checks = record {
  id = name;
  statement = codes "it holds";
  path = codes "src/a.ts";
  selector = none;
  acceptance_ids = codes "a" ∷ [];
  task_ids = [];
  depends_on = depends;
  check_ids = checks;
}

-- A configuration is a number, and stands for a contract on one file.
abbrev contract : ℕ → Option (List (Assertion ℕ))
contract n = some (
    record {
      id = codes "one";
      predicate = Predicate.compares (codes "a.json") [] Comparison.lt_ (Value.number n);
    }
    ∷ [])

abbrev check : Validator ℕ
check = record {
  id = codes "c";
  extension_ref = codes "extension:json-contract";
  extension_check_id = codes "json-contract";
  component_sha256 = [];
  input_unit_ids = codes "u" ∷ [];
  input_files = codes "a.json" ∷ [];
  acceptance_ids = codes "a" ∷ [];
  configuration = 3;
}

abbrev upload : ExternalCall ℕ
upload = record {
  id = codes "upload";
  task_ids = codes "t" ∷ [];
  tool = codes "put";
  sink_id = codes "host";
  authority = 0;
  data_pointers = codes "/body" ∷ codes "/name" ∷ [];
  effect = Effect.http_mcp;
}

abbrev plan : List KnowledgeUnit → AssurancePlan ℕ
plan units = record {
  spec_id = codes "s";
  acceptance_ids = codes "a" ∷ [];
  task_ids = codes "t" ∷ [];
  mode = SecurityMode.information_flow;
  sources = [];
  sinks =
      record { id = codes "host"; origin = codes "https://h"; classifications = workspace ∷ [] }
      ∷ [];
  transformations = [];
  tasks = record { task_id = codes "t"; read_paths = []; transformation_ids = [] } ∷ [];
  external_calls = upload ∷ [];
  knowledge = units;
  validators = check ∷ [];
  artifacts = [];
}

abbrev chain : List KnowledgeUnit
chain = unit (codes "u") (codes "v" ∷ []) (codes "c" ∷ []) ∷ unit (codes "v") [] [] ∷ []

abbrev ring : List KnowledgeUnit
ring =
    unit (codes "u") (codes "v" ∷ []) (codes "c" ∷ []) ∷ unit (codes "v") (codes "u" ∷ []) [] ∷ []

chain_accepted : plan_issues ascii_lower_case contract (λ n. true) (plan chain) ≡ []
unfolding plan_issues
chain_accepted = refl

ring_refused :
    plan_issues ascii_lower_case contract (λ n. true) (plan ring)
    ≡ issue "Cyclic knowledge dependency" ∷ []
unfolding plan_issues
ring_refused = refl

below : overlapping_pointers (codes "/body/a" ∷ codes "/body" ∷ []) ≡ true
unfolding overlapping_pointers
below = refl

plan_issues-nil_iff_example :
    (plan_issues ascii_lower_case contract (λ n. true) (plan chain) ≡ [])
    ↔ SoundPlan ascii_lower_case contract (λ n. true) (plan chain)
plan_issues-nil_iff_example = plan_issues-nil_iff ascii_lower_case contract (λ n. true) (plan chain)
