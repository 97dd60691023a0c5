-- ===== src/Graph/Tasks.antt =====
-- The task record of packages/schema/src/schemas.ts, with its file contract.
use legion_cli.Prelude.{ℕ, List, Option, String}
use legion_cli.Text.{Text}
use legion_cli.Lifecycle.{TaskStatus, Priority}

pub record FileContract : Type 0 where
  pub files_allowed : List Text
  pub files_forbidden : List Text
  pub expected_artifacts : List Text
  pub verification_commands : List Text
  pub max_files_touched : ℕ

pub data TaskType : Type 0 where
  feature fix bug : TaskType

pub data Assignee : Type 0 where
  agent human : Assignee

pub record Task : Type 0 where
  pub id : Text
  pub title : String
  pub status : TaskStatus
  pub type : TaskType
  pub priority : Priority
  pub spec_id : Text
  pub adapter : Option String
  pub profile : Option String
  pub parent_id : Option Text
  pub blocked_by : List Text
  pub blocks : List Text
  pub contract : FileContract
  pub assignee : Assignee
  pub notes : String
