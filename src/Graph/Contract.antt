-- ===== src/Graph/Contract.antt =====
-- The checks of a file contract at plan time: packages/graph/src/contract.ts.
pub mod Laws
use legion_cli.Prelude.{
  ℕ, Bool, true, false, not, ◌&&◌, ◌||◌, List, [], ◌∷◌, ◌++◌, map, any, contains, filter, ◌==◌,
  nat_eq, list_eq, Option, none, some, if◌then◌else◌,
}
use legion_cli.Text.{after_prefix, Text, codes, split, starts_with, unique}
use legion_cli.Paths.{
  slash, dotgit, is_digit, digits_to_end, normalize_path_key, is_concrete_posix_repo_relative_path,
}
use legion_cli.Governance.Overlap.{Entry, overlapping_write_paths}
use legion_cli.Graph.Tasks.{Task, FileContract}

-- `process.platform`, by what `allowKey` tells apart.
pub data Platform : Type 0 where
  win32 darwin other : Platform

abbrev pub default_files_forbidden : List Text
default_files_forbidden =
    codes ".git/**"
    ∷ codes ".legion-cli/config.yaml"
    ∷ codes ".legion-cli/index/**"
    ∷ codes ".env"
    ∷ codes ".env.*"
    ∷ []

-- `/^…~\d+$/` for the part before the digits.
abbrev pub is_alias : Text → Text → Bool
is_alias prefix s = elim (after_prefix prefix s) [ none ↦ false | some rest ↦ digits_to_end rest ]

-- `/^\d*(\.|$)/`
abbrev pub digits_to_dot : Text → Bool
digits_to_dot [] = true
digits_to_dot (c ∷ s) = (is_digit c && digits_to_dot s) || (c == b'.')

-- `/^\d+(\.|$)/`
abbrev pub digits_then_dot : Text → Bool
digits_then_dot [] = false
digits_then_dot (c ∷ s) = is_digit c && digits_to_dot s

-- `/^env~\d+(\.|$)/`
abbrev pub is_env_alias : Text → Bool
is_env_alias s = elim (after_prefix (codes "env~") s) [
  | none ↦ false
  | some rest ↦ digits_then_dot rest
]

abbrev pub is_git_segment : Text → Bool
is_git_segment part = (part == dotgit) || is_alias (codes "git~") part

abbrev pub is_env_segment : Text → Bool
is_env_segment part =
    (part == codes ".env") || starts_with (codes ".env.") part || is_env_alias part

-- `segments[0] ?? ""`
abbrev pub first_segment : List Text → Text
first_segment [] = []
first_segment (s ∷ ss) = s

abbrev pub scope_of : Task → Entry
scope_of t = record { id = t.id; paths = t.contract.files_allowed }

module _ (lower : Text → Text) where
  unfoldable pub is_engine_sot_path : Text → Bool
  unfolding normalize_path_key
  is_engine_sot_path path =
      let key = normalize_path_key lower path in
      (key == codes ".legion-cli") || starts_with (codes ".legion-cli/") key

  unfoldable pub is_implicit_forbidden_path : Text → Bool
  unfolding normalize_path_key is_engine_sot_path split
  is_implicit_forbidden_path path =
      let key = normalize_path_key lower path in
      let segments = split slash key in
      let first = first_segment segments in
      is_git_segment first
      || any is_git_segment segments
      || (is_engine_sot_path key || is_alias (codes "legion~") first)
      || any is_env_segment segments

  abbrev pub bad_path : Text → Bool
  bad_path path =
      not (is_concrete_posix_repo_relative_path lower path) || is_implicit_forbidden_path path

  unfoldable pub files_allowed_fails_plan : List Text → Bool
  files_allowed_fails_plan files_allowed = (files_allowed == []) || any bad_path files_allowed

  unfoldable pub allow_key : Platform → Text → Text
  unfolding normalize_path_key
  allow_key Platform.win32 path = normalize_path_key lower path
  allow_key Platform.darwin path = lower path
  allow_key Platform.other path = path

  unfoldable pub expected_artifacts_fails_plan : Platform → List Text → List Text → Bool
  unfolding allow_key
  expected_artifacts_fails_plan platform files_allowed expected_artifacts =
      let allowed = map (allow_key platform) files_allowed in
      any (λ path. bad_path path || not (contains allowed (allow_key platform path)))
        expected_artifacts

  unfoldable pub file_contract_fails_plan : Platform → List Text → List Text → Bool
  unfolding files_allowed_fails_plan expected_artifacts_fails_plan
  file_contract_fails_plan platform files_allowed expected_artifacts =
      files_allowed_fails_plan files_allowed
      || expected_artifacts_fails_plan platform files_allowed expected_artifacts

  unfoldable pub overlapping_files_allowed : List Task → List Text
  unfolding overlapping_write_paths
  overlapping_files_allowed tasks = overlapping_write_paths lower (map scope_of tasks)

unfoldable pub merge_files_forbidden : List Text → List Text
unfolding unique
merge_files_forbidden files_forbidden = unique (default_files_forbidden ++ files_forbidden)
