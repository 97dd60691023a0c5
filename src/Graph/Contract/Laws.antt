-- ===== src/Graph/Contract/Laws.antt =====
-- What the checks of a file contract let pass.
use legion_cli.Prelude.{
  ◌≡◌, ◌≢◌, ◌↔◌, true, false, not, ◌||◌, List, [], map, Memᴰ, any-eq-false, contains, contains_iff,
  ==_iff, list_eq, nat_eq, arith,
}
use legion_cli.Text.{Text}
use legion_cli.Paths.{is_concrete_posix_repo_relative_path}
use legion_cli.Graph.Contract.{
  Platform, is_implicit_forbidden_path, bad_path, files_allowed_fails_plan, allow_key,
  expected_artifacts_fails_plan,
}

module _ (lower : Text → Text) where
  -- A concrete path of the repository that the engine does not keep for itself.
  abbrev pub IsTaskPath : Text → Type 0
  IsTaskPath path =
      (is_concrete_posix_repo_relative_path lower path ≡ true)
      × (is_implicit_forbidden_path lower path ≡ false)

  bad_path-IsTaskPath : (path : Text) → (bad_path lower path ≡ false) ↔ IsTaskPath path
  bad_path-IsTaskPath path = ground arith

  -- The files that a task may write: some, and each a task path.
  abbrev pub IsAllowList : List Text → Type 0
  IsAllowList allowed = (allowed ≢ []) × ((path : Text) → Memᴰ path allowed → IsTaskPath path)

  pub files_allowed_iff :
      (allowed : List Text) → (files_allowed_fails_plan lower allowed ≡ false) ↔ IsAllowList allowed
  unfolding files_allowed_fails_plan
  files_allowed_iff allowed =
      let each = any-eq-false (bad_path lower) allowed in
      (
        λ h. (
          λ e. ground (arith, ==_iff allowed []),
          λ path m. (bad_path-IsTaskPath path).0 (each.0 (ground arith) path m),
        ),
        λ (some_path, paths).
            let fine = each.1 (λ path m. (bad_path-IsTaskPath path).1 (paths path m)) in
            ground (arith, ==_iff allowed []),
      )

  -- The files that a task promises: task paths that are among the allowed ones.
  abbrev pub IsPromise : Platform → List Text → List Text → Type 0
  IsPromise platform allowed expected =
      (path : Text)
      → Memᴰ path expected
      → IsTaskPath path
        × Memᴰ (allow_key lower platform path) (map (allow_key lower platform) allowed)

  pub expected_artifacts_iff :
      (platform : Platform) (allowed expected : List Text)
      → (expected_artifacts_fails_plan lower platform allowed expected ≡ false)
        ↔ IsPromise platform allowed expected
  unfolding expected_artifacts_fails_plan
  expected_artifacts_iff platform allowed expected =
      let keys = map (allow_key lower platform) allowed in
      let each =
        any-eq-false
          (λ path. bad_path lower path || not (contains keys (allow_key lower platform path)))
          expected in
      (
        λ h path m.
            let fine = each.0 h path m in
            (
              (bad_path-IsTaskPath path).0 (ground arith),
              (contains_iff keys (allow_key lower platform path)).0 (ground arith),
            ),
        λ h. each.1 (λ path m.
            let (fine, known) = h path m in
            let good = (bad_path-IsTaskPath path).1 fine in
            let has = (contains_iff keys (allow_key lower platform path)).1 known in ground arith),
      )
