-- ===== src/Lifecycle/Names.antt =====
-- The enumerations of packages/schema/src/versions.ts with the names that they have on disk.
use legion_cli.Prelude.{
  Bool, true, false, ◌≡◌, ◌↔◌, String, Comparable, string_eq, ℕ, nat_beq, arith,
}

pub data Phase : Type 0 where
  uninitialized initialized intent_draft intent_ready discussing spec_draft spec_frozen : Phase
  planning plan_failed plan_ready executing ready_to_ship shipped abandoned : Phase

pub data TaskStatus : Type 0 where
  todo ready in_progress verifying blocked done compacted : TaskStatus

pub data ControlMode : Type 0 where
  guarded advisory : ControlMode

pub data Priority : Type 0 where
  p0 p1 p2 : Priority

abbrev phase_index : Phase → ℕ
phase_index uninitialized = 0
phase_index initialized = 1
phase_index intent_draft = 2
phase_index intent_ready = 3
phase_index discussing = 4
phase_index spec_draft = 5
phase_index spec_frozen = 6
phase_index planning = 7
phase_index plan_failed = 8
phase_index plan_ready = 9
phase_index executing = 10
phase_index ready_to_ship = 11
phase_index shipped = 12
phase_index abandoned = 13

abbrev status_index : TaskStatus → ℕ
status_index todo = 0
status_index ready = 1
status_index in_progress = 2
status_index verifying = 3
status_index blocked = 4
status_index done = 5
status_index compacted = 6

abbrev priority_index : Priority → ℕ
priority_index p0 = 0
priority_index p1 = 1
priority_index p2 = 2

abbrev pub phase_beq : Phase → Phase → Bool
phase_beq a b = nat_beq (phase_index a) (phase_index b)

abbrev pub status_beq : TaskStatus → TaskStatus → Bool
status_beq a b = nat_beq (status_index a) (status_index b)

abbrev pub mode_beq : ControlMode → ControlMode → Bool
mode_beq guarded guarded = true
mode_beq advisory advisory = true
mode_beq _ _ = false

abbrev pub priority_beq : Priority → Priority → Bool
priority_beq a b = nat_beq (priority_index a) (priority_index b)

pub phase_beq_iff : (a b : Phase) → (phase_beq a b ≡ true) ↔ (a ≡ b)
phase_beq_iff a b = ground arith

pub status_beq_iff : (a b : TaskStatus) → (status_beq a b ≡ true) ↔ (a ≡ b)
status_beq_iff a b = ground arith

pub mode_beq_iff : (a b : ControlMode) → (mode_beq a b ≡ true) ↔ (a ≡ b)
mode_beq_iff a b = ground arith

pub priority_beq_iff : (a b : Priority) → (priority_beq a b ≡ true) ↔ (a ≡ b)
priority_beq_iff a b = ground arith

instance abbrev pub phase_eq : Comparable Phase
phase_eq = record { equals = phase_beq; equals_iff = phase_beq_iff }

instance abbrev pub status_eq : Comparable TaskStatus
status_eq = record { equals = status_beq; equals_iff = status_beq_iff }

instance abbrev pub mode_eq : Comparable ControlMode
mode_eq = record { equals = mode_beq; equals_iff = mode_beq_iff }

instance abbrev pub priority_eq : Comparable Priority
priority_eq = record { equals = priority_beq; equals_iff = priority_beq_iff }

-- The name by which the files and messages spell a phase.
abbrev pub phase_name : Phase → String
phase_name uninitialized = "uninitialized"
phase_name initialized = "initialized"
phase_name intent_draft = "intent_draft"
phase_name intent_ready = "intent_ready"
phase_name discussing = "discussing"
phase_name spec_draft = "spec_draft"
phase_name spec_frozen = "spec_frozen"
phase_name planning = "planning"
phase_name plan_failed = "plan_failed"
phase_name plan_ready = "plan_ready"
phase_name executing = "executing"
phase_name ready_to_ship = "ready_to_ship"
phase_name shipped = "shipped"
phase_name abandoned = "abandoned"

abbrev pub task_status_name : TaskStatus → String
task_status_name todo = "todo"
task_status_name ready = "ready"
task_status_name in_progress = "in_progress"
task_status_name verifying = "verifying"
task_status_name blocked = "blocked"
task_status_name done = "done"
task_status_name compacted = "compacted"
