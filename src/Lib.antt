-- ===== src/Lib.antt =====
-- Verification of the decision logic of legion-cli: the life cycle of phases and tasks, the
-- governance boundary model over a trace of frames, the overlap of write scopes, the DAG of pull
-- requests of a brownfield run, the file contracts of tasks with the verdict on a plan and the graph
-- of its tasks, the reader of strict JSON and the canonical text of a value, the labels of an
-- information flow with the records of assurance, the score of a spec's tests, and the classifier of
-- private hosts.
--
-- Parts and files:
-- - Lifecycle: packages/schema/src/versions.ts (PhaseSchema, TaskStatusSchema), the transition
--   tables and canTransition, canTransitionTaskStatus, statusAfterUndoDependency of
--   packages/schema/src/governance.ts, and the guards of packages/core/src/phases.ts and tasks.ts.
--   Lifecycle/Names has the enumerations and their names; Lifecycle/Walks the walks that the engine's
--   edges allow. What Zod reads as a phase or a status is an argument of the code that calls it;
--   validateGovernancePhase and validateGovernanceTaskStatus only call Zod and are not modelled.
-- - Refusal: `refuse` of packages/core/src/errors.ts, as a result with a message and a hint.
-- - Text, Paths: packages/schema/src/paths.ts over the UTF-16 units of a string. toLowerCase is a
--   parameter of every definition that calls it, since its tables are not in the repository.
-- - Governance: packages/schema/src/governance.ts and governance-records.ts. Records has the
--   projections and frames; Overlap is overlappingWritePaths; Rules has one function for each `if`
--   of the loop of validateGovernanceFrames and Rules/Obeys the statements that they stand for;
--   Frames is the loop, which pairs each end frame with its begin, Frames/History describes the
--   loop's map and variable from the frames read, Frames/Clean compares the two, and
--   Frames/Delivery joins the boundary model with the walks of Lifecycle.
-- - Brownfield: packages/core/src/brownfield/dag.ts. Dag has the nodes, the cascade and the
--   summary, Dag/Doomed and Dag/Skipped what the cascade makes of each node, Dag/Update the updates of a node and what dagRun does between reading and writing.
--   Slug is slugify of packages/core/src/brownfield/pr-plan.ts.
-- - Graph: the tasks of packages/schema/src/schemas.ts (Tasks), the checks of their file contracts
--   in packages/graph/src/contract.ts (Contract), the choice of tasks that run at once in
--   packages/core/src/parallel.ts (Parallel), and the verdict on a plan in
--   packages/core/src/readiness.ts (Readiness). They use Paths and Governance/Overlap as the
--   source does: a plan's tasks claim their allowed files as the active tasks of a boundary claim
--   theirs. The platform that allowKey reads is an argument. Subgraph and Ready are
--   packages/graph/src/ready.ts: dependencySubgraph, isTaskReady and pickNextTask; Cycles is
--   detectDependencyCycle and validateTaskGraph of that file, Cycles/Steps says what a cycle is and
--   Cycles/Progress what a valid graph means to pickNextTask; and
--   Slice is packages/core/src/slice.ts; localeCompare is a parameter, and the order that sort gives to
--   equal tasks is that of an insertion sort.
-- - Json: packages/persist/src/strict-json.ts, with jsonDepthLimit of canonical-json.ts.
--   Surrogates is assertWellFormed, Strings and Numbers read literals, Reader has value, its loops
--   and parseStrictJson; Grammar says by inductive types what a strict document is, and Scans,
--   Steps, Sound and Accepts compare the two. A scanner returns what is left of the text where the
--   source moves a cursor, and a loop is a function that calls the next round. JSON.parse, the
--   UTF-8 decoder and Number are a record of the runtime. Canonical is canonicalJson of
--   packages/persist/src/canonical-json.ts, over values that are trees.
-- - Qa: packages/qa/src/score.ts and tags.ts, checklistComplete of checklist.ts, and QAScoreSchema
--   with computeQaPass of packages/schema/src/schemas.ts. Tags and Titles are the tags of titles,
--   Score the schema, Outcomes and Scoring the score, Checklist the checklist. The floating-point
--   arithmetic of rates is a record, of which Qa/Bounds names the laws that the code relies on;
--   the readers of reports are an interface. The constants `max` of the buckets, the schema's
--   version and the usage of agents are left out, and a number of failures is a natural number.
-- - Host: packages/schema/src/host.ts. Ipv4 has isPrivateIPv4 and the blocks it stands for,
--   Literals the readers of address literals, Classify the classifier, Words, Lacking,
--   Colons and Private what they ensure. toLowerCase is a parameter, and so is Number, which gives the
--   natural numbers among what it reads; shifts and masks are quotients and remainders.
-- - Assurance: the information flow and the records of assurance. Labels is
--   packages/core/src/assurance-flow-labels.ts: Flow has the order of labels, Bounds and Lattice the
--   join, Origins the names of origins, Product, Parts and Explained the label of a file's bytes,
--   Disclosure the release of the label of a response.
--   Contract, Plan and Evidence are the refinements of packages/schema/src/assurance.ts and
--   component.ts, as lists of the issues that they add, with uniqueBy of assurance-primitives.ts:
--   Plan/Visits is the search for cyclic knowledge, Plan/Accepted and Evidence/Honest say what a
--   record without issues is. They use the labels and the canonical text of Json, as the source does.
-- - Attempt has results that throw, Grounded graphs without endless paths, which Graph/Cycles and
--   Assurance/Plan share.
--
-- A record of the source is a record, a union of names an enumeration, a Map an association list,
-- and a thrown refusal a value. The rules and Paths are total functions. The while loop of
-- cascadeSkip runs on fuel, one more than the number of nodes: every round but the last finishes a
-- node that was open, and Dag/Cascade shows that this is enough. The while loop of
-- dependencySubgraph has two more than the parents that all tasks name: it pushes the parents of
-- an id only once, and Graph/Subgraph/Reach shows that this is enough. The search for
-- cycles has two more steps than tasks: a path of the search holds no id twice, and all its ids but
-- the last are tasks (Graph/Cycles/Acyclic). The search for cyclic knowledge has two more steps than
-- units (Assurance/Plan/Silent). The reader of JSON has two steps for each unit of the text and one
-- more, and Json/Sound shows that this is enough.
--
-- Not modelled: the text of a violation's detail, the digests and times of frames, the refinements
-- of the other Zod schemas, their patterns and sizes, the readers of test reports, and everything that
-- reads or writes files, runs Git or agents, or draws.
mod Prelude
mod Refusal
mod Text
mod Attempt
mod Grounded
pub mod Paths
pub mod Lifecycle
pub mod Governance
pub mod Brownfield
pub mod Graph
pub mod Json
pub mod Qa
pub mod Host
pub mod Assurance
