-- ===== src/Assurance/Plan/Visits.antt =====
-- The units of knowledge of a plan, and the search for cyclic dependencies between them
-- (packages/schema/src/assurance.ts).
use legion_cli.Prelude.{
  true, false, ℕ, zero, suc, ◌+◌, Option, none, some, List, [], ◌∷◌, ◌++◌, map, contains, length,
  ◌==◌, nat_eq, list_eq, if◌then◌else◌,
}
use legion_cli.Text.{Text}
use legion_cli.Assurance.Contract.{Issue, issue, out_of_fuel}

pub data SelectorKind : Type 0 where
  function class method type interface variable : SelectorKind

pub record KnowledgeSelector : Type 0 where
  pub kind : SelectorKind
  pub qualified_name : Text

pub record KnowledgeUnit : Type 0 where
  pub id : Text
  pub statement : Text
  pub path : Text
  pub selector : Option KnowledgeSelector
  pub acceptance_ids : List Text
  pub task_ids : List Text
  pub depends_on : List Text
  pub check_ids : List Text

-- `new Map(knowledge.map((x) => [x.id, x])).get(id)`: the last unit of an id wins.
unfoldable pub unit_of : List KnowledgeUnit → Text → Option KnowledgeUnit
unit_of [] id = none
unit_of (u ∷ us) id = elim (unit_of us id) [
  | some later ↦ some later
  | none ↦ if u.id == id then some u else none
]

-- `units.get(id)?.dependsOn`
unfoldable pub dependencies : List KnowledgeUnit → Text → List Text
unfolding unit_of
dependencies units id = elim (unit_of units id) [ none ↦ [] | some u ↦ u.depends_on ]

-- The set `done` and the issues so far.
pub record Visited : Type 0 where
  pub done_ids : List Text
  pub issues : List Issue

-- `forEach(visit)`
abbrev pub visit_all : (Text → Visited → Visited) → List Text → Visited → Visited
visit_all visit [] state = state
visit_all visit (id ∷ ids) state = visit_all visit ids (visit id state)

-- After the dependencies of an id: `done.add(id)`.
abbrev pub leave : Text → Visited → Visited
leave id state = record state { done_ids = id ∷ state.done_ids }

-- `visit(id)`. The ids in `active` are those of the calls that have not returned.
unfoldable pub visit_unit : List KnowledgeUnit → ℕ → List Text → Text → Visited → Visited
unfolding dependencies
visit_unit units zero active id state = record state { issues = state.issues ++ out_of_fuel ∷ [] }
visit_unit units (suc fuel) active id state = elim (contains active id) [
  | true ↦ record state { issues = state.issues ++ issue "Cyclic knowledge dependency" ∷ [] }
  | false ↦ elim (contains state.done_ids id) [
    | true ↦ state
    | false ↦
        leave id (visit_all (visit_unit units fuel (id ∷ active)) (dependencies units id) state)
  ]
]

unfoldable pub cycle_issues : List KnowledgeUnit → List Issue
unfolding visit_unit
cycle_issues units =
    (visit_all (visit_unit units (2 + length units) []) (map (λ (u : KnowledgeUnit). u.id) units)
      (record { done_ids = []; issues = [] })).issues
