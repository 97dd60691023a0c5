-- ===== src/Assurance/Plan.antt =====
-- AssurancePlanSchema of packages/schema/src/assurance.ts: the refinement that it makes of a plan of
-- the right shape, as the list of the issues that it adds. `toLowerCase` is a parameter, and so are
-- the numbers of JSON and the check that a configuration has the shape and the size of a JSON
-- contract. Visits has the units of knowledge and the search for cycles, which Found and Silent
-- compare with the graph of units; Sound, Pointers and Links say what each part of a plan without
-- issues is, Accepted what the plan is.
pub mod Visits
pub mod Found
pub mod Silent
pub mod Sound
pub mod Pointers
pub mod Links
pub mod Accepted
mod Tests
use legion_cli.Prelude.{
  ◌≡◌, Bool, true, false, not, ◌&&◌, ◌||◌, ℕ, zero, suc, ◌+◌, Option, none, some, List, [], ◌∷◌,
  ◌++◌, map, flat_map, any, all, contains, length, nat_beq, ◌==◌, nat_eq, list_eq, if◌then◌else◌,
  String,
}
use legion_cli.Text.{Text, codes, starts_with}
use legion_cli.Paths.{normalize_path_key}
use legion_cli.Assurance.Labels.{Confidentiality, confidentiality_rank}
use legion_cli.Assurance.Labels.Product.{PolicySource, find}
use legion_cli.Assurance.Contract.{
  Issue, issue, issue_if, unique_by, Predicate, Assertion, json_contract_files, contract_issues,
}
use legion_cli.Assurance.Plan.Visits.{KnowledgeUnit, unit_of, cycle_issues}

pub data SecurityMode : Type 0 where
  information_flow adapter_default : SecurityMode

pub record Sink : Type 0 where
  pub id : Text
  pub origin : Text
  pub classifications : List Confidentiality

pub record Transformation : Type 0 where
  pub id : Text
  pub instruction : Text

pub record SecurityTask : Type 0 where
  pub task_id : Text
  pub read_paths : List Text
  pub transformation_ids : List Text

pub data Effect : Type 0 where
  provider http_mcp : Effect

-- `J` is the type of a configuration, a value of JSON.
pub record ExternalCall (J : Type 0) : Type 0 where
  pub id : Text
  pub task_ids : List Text
  pub tool : Text
  pub sink_id : Text
  pub authority : J
  pub data_pointers : List Text
  pub effect : Effect

pub record Validator (J : Type 0) : Type 0 where
  pub id : Text
  pub extension_ref : Text
  pub extension_check_id : Text
  pub component_sha256 : Text
  pub input_unit_ids : List Text
  pub input_files : List Text
  pub acceptance_ids : List Text
  pub configuration : J

pub record Artifact : Type 0 where
  pub name : Text
  pub path : Text

pub record AssurancePlan (J : Type 0) : Type 0 where
  pub spec_id : Text
  pub acceptance_ids : List Text
  pub task_ids : List Text
  pub mode : SecurityMode
  pub sources : List PolicySource
  pub sinks : List Sink
  pub transformations : List Transformation
  pub tasks : List SecurityTask
  pub external_calls : List (ExternalCall J)
  pub knowledge : List KnowledgeUnit
  pub validators : List (Validator J)
  pub artifacts : List Artifact

abbrev pub confidentiality_name : Confidentiality → Text
confidentiality_name Confidentiality.public = codes "public"
confidentiality_name Confidentiality.workspace = codes "workspace"
confidentiality_name Confidentiality.sealed = codes "sealed"

-- `ids.some((id) => !declared.includes(id))`
abbrev pub any_undeclared : List Text → List Text → Bool
any_undeclared ids declared = any (λ id. not (contains declared id)) ids

abbrev pub refs : List Text → List Text → String → List Issue
refs ids declared message = issue_if (any_undeclared ids declared) message

-- `p === q || p.startsWith(q + "/")`
abbrev pub is_within : Text → Text → Bool
is_within p q = (p == q) || starts_with (q ++ b'/' ∷ []) p

-- Whether a pointer overlaps with one at another place of the list: those before it, those after it.
unfoldable pub overlaps_from : List Text → List Text → Bool
overlaps_from before [] = false
overlaps_from before (p ∷ ps) =
    let rest = overlaps_from (p ∷ before) ps in
    any (is_within p) before || any (is_within p) ps || rest

unfoldable pub overlapping_pointers : List Text → Bool
unfolding overlaps_from
overlapping_pointers pointers = overlaps_from [] pointers

abbrev pub is_information_flow : SecurityMode → Bool
is_information_flow SecurityMode.information_flow = true
is_information_flow SecurityMode.adapter_default = false

-- `units.get(id)?.checkIds.includes(checkId)`
abbrev pub unit_checks : List KnowledgeUnit → Text → Text → Bool
unit_checks units id check_id = elim (unit_of units id) [
  | none ↦ false
  | some unit ↦ contains unit.check_ids check_id
]

module _ {J N : Type 0} (lower : Text → Text) (json_contract : J → Option (List (Assertion N)))
    (safe : N → Bool) where
  -- `validators.find((c) => c.id === id)?.inputUnitIds.includes(unitId)`
  abbrev pub validator_reads : List (Validator J) → Text → Text → Bool
  validator_reads validators id unit_id = elim (find (λ (c : Validator J). c.id == id) validators) [
    | none ↦ false
    | some c ↦ contains c.input_unit_ids unit_id
  ]

  unfoldable pub uniqueness_issues : AssurancePlan J → List Issue
  unfolding unique_by normalize_path_key
  uniqueness_issues v =
      unique_by (λ (x : PolicySource). x.id) v.sources
      ++ unique_by (λ (x : PolicySource). normalize_path_key lower x.path) v.sources
      ++ unique_by (λ (x : Sink). x.id) v.sinks
      ++ flat_map (λ (x : Sink). unique_by confidentiality_name x.classifications) v.sinks
      ++ unique_by (λ (x : Transformation). x.id) v.transformations
      ++ unique_by (λ (x : SecurityTask). x.task_id) v.tasks
      ++ unique_by (λ (x : ExternalCall J). x.id) v.external_calls
      ++ unique_by (λ (x : KnowledgeUnit). x.id) v.knowledge
      ++ unique_by (λ (x : Validator J). x.id) v.validators
      ++ unique_by (λ (x : Artifact). x.name) v.artifacts
      ++ unique_by (λ (x : Artifact). normalize_path_key lower x.path) v.artifacts

  unfoldable pub task_issues : AssurancePlan J → SecurityTask → List Issue
  task_issues v x =
      refs (x.task_id ∷ []) v.task_ids "Undeclared task"
      ++ issue_if
          (any_undeclared x.transformation_ids
            (map (λ (t : Transformation). t.id) v.transformations))
          "Undeclared transformation"

  unfoldable pub mode_issues : AssurancePlan J → List Issue
  mode_issues v =
      issue_if
        (is_information_flow v.mode
          && any_undeclared v.task_ids (map (λ (x : SecurityTask). x.task_id) v.tasks))
        "Every governed task requires an explicit read/transformation contract"

  unfoldable pub call_issues : AssurancePlan J → ExternalCall J → List Issue
  unfolding unique_by overlapping_pointers
  call_issues v x =
      refs x.task_ids v.task_ids "Undeclared external-call task"
      ++ issue_if (not (contains (map (λ (s : Sink). s.id) v.sinks) x.sink_id)) "Undeclared sink"
      ++ unique_by (λ p. p) x.data_pointers
      ++ issue_if (overlapping_pointers x.data_pointers) "Overlapping data pointers"
      ++ issue_if (contains x.data_pointers []) "Root request cannot be a data-only pointer"

  unfoldable pub knowledge_issues : AssurancePlan J → KnowledgeUnit → List Issue
  knowledge_issues v x =
      refs x.acceptance_ids v.acceptance_ids "Undeclared knowledge acceptance"
      ++ refs x.task_ids v.task_ids "Undeclared knowledge task"
      ++ issue_if (any_undeclared x.depends_on (map (λ (u : KnowledgeUnit). u.id) v.knowledge))
          "Undeclared knowledge dependency"
      ++ issue_if (any_undeclared x.check_ids (map (λ (c : Validator J). c.id) v.validators))
          "Undeclared knowledge check"
      ++ flat_map
          (λ id.
            issue_if (not (validator_reads v.validators id x.id))
              "Knowledge/check link must be reciprocal")
          x.check_ids

  -- `config.success` or not, by the issues that the refinement of the contract adds.
  abbrev pub file_issues : List Issue → List (Assertion N) → List Text → List Issue
  file_issues (i ∷ is) assertions files = issue "Invalid JSON-contract configuration" ∷ []
  file_issues [] assertions files =
      issue_if
        (any_undeclared (flat_map (λ (a : Assertion N). json_contract_files a.predicate) assertions)
          files)
        "Predicate file is not a declared raw input"

  abbrev pub configuration_issues : Option (List (Assertion N)) → List Text → List Issue
  configuration_issues none files = issue "Invalid JSON-contract configuration" ∷ []
  configuration_issues (some assertions) files =
      file_issues (contract_issues safe assertions) assertions files

  -- The issues of a validator that the built-in extension checks.
  unfoldable pub json_contract_issues : Validator J → List Issue
  unfolding contract_issues json_contract_files
  json_contract_issues x =
      issue_if (not (x.extension_check_id == codes "json-contract"))
        "JSON contract requires its declared check ID"
      ++ configuration_issues (json_contract x.configuration) x.input_files

  unfoldable pub validator_issues : AssurancePlan J → Validator J → List Issue
  unfolding json_contract_issues
  validator_issues v x =
      refs x.acceptance_ids v.acceptance_ids "Undeclared validator acceptance"
      ++ issue_if (any_undeclared x.input_unit_ids (map (λ (u : KnowledgeUnit). u.id) v.knowledge))
          "Undeclared validator unit"
      ++ flat_map
          (λ id.
            issue_if (not (unit_checks v.knowledge id x.id))
              "Check/knowledge link must be reciprocal")
          x.input_unit_ids
      ++ (if x.extension_ref == codes "extension:json-contract" then json_contract_issues x else [])

  -- `superRefine`
  unfoldable pub plan_issues : AssurancePlan J → List Issue
  unfolding uniqueness_issues task_issues mode_issues call_issues knowledge_issues validator_issues
      cycle_issues
  plan_issues v =
      uniqueness_issues v
      ++ flat_map (task_issues v) v.tasks
      ++ mode_issues v
      ++ flat_map (call_issues v) v.external_calls
      ++ flat_map (knowledge_issues v) v.knowledge
      ++ cycle_issues v.knowledge
      ++ flat_map (validator_issues v) v.validators
