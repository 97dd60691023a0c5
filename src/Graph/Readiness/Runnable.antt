-- ===== src/Graph/Readiness/Runnable.antt =====
-- The tasks of a plan.
use legion_cli.Prelude.{
  is_empty, some_iff, ◌≡◌, ◌≢◌, ◌↔◌, Bool, true, false, List, [], ◌∷◌, ◌++◌, map, Memᴰ, any,
  any_iff, list_eq, nat_eq, arith, append-eq-nil, map-eq-nil, if◌then◌else◌,
}
use legion_cli.Text.{Text, codes}
use legion_cli.Lifecycle.{priority_eq}
use legion_cli.Graph.Tasks.{Task}
use legion_cli.Graph.Contract.{
  Platform, is_implicit_forbidden_path, bad_path, files_allowed_fails_plan,
  expected_artifacts_fails_plan, overlapping_files_allowed, scope_of,
}
use legion_cli.Graph.Contract.Laws.{
  IsAllowList, IsPromise, files_allowed_iff, expected_artifacts_iff,
}
use legion_cli.Governance.Overlap.Laws.{Collide, Claim, claims, overlapping_write_paths-nil_iff}
use legion_cli.Graph.Readiness.{
  say, command_fails, allowed_fails, artifact_fails, task_fails, overlap_fails,
}
use legion_cli.Graph.Readiness.Planned.{say-nil}

-- What the loop over the tasks asks of each.
pub guarded_say :
    (bad fails : Bool) (m n : Text)
    → (bad ≡ true → fails ≡ true)
    → ((if bad then m ∷ [] else say fails n) ≡ []) ↔ (fails ≡ false)
guarded_say bad fails m n h = ground arith

pub any-weaker :
    {A : Type 0} (p q : A → Bool) (xs : List A)
    → ((x : A) → p x ≡ true → q x ≡ true)
    → any p xs ≡ true
    → any q xs ≡ true
any-weaker p q xs h e = let (x, m, k) = (any_iff p xs).0 e in (any_iff q xs).1 (x, m, h x k)

module _ (lower : Text → Text) (platform : Platform) where
  -- A task that can run: it can be verified, and its files are settled.
  abbrev pub IsRunnable : Task → Type 0
  IsRunnable t =
      (t.contract.verification_commands ≢ [])
      × IsAllowList lower t.contract.files_allowed
      × IsPromise lower platform t.contract.files_allowed t.contract.expected_artifacts

  pub allowed_fails-nil :
      (t : Task)
      → (allowed_fails lower platform t ≡ []) ↔ IsAllowList lower t.contract.files_allowed
  unfolding files_allowed_fails_plan
  allowed_fails-nil t =
      let files = t.contract.files_allowed in
      let forbids = λ (e : any (is_implicit_forbidden_path lower) files ≡ true).
        let bad =
          any-weaker (is_implicit_forbidden_path lower) (bad_path lower) files (λ x k. ground arith)
            e in
        let fails : files_allowed_fails_plan lower files ≡ true = ground arith in fails in
      let both =
        guarded_say (any (is_implicit_forbidden_path lower) files)
          (files_allowed_fails_plan lower files)
          (t.id ++ codes " filesAllowed includes a forbidden path")
          (t.id ++ codes " filesAllowed must be concrete paths") forbids in
      (
        λ h. (files_allowed_iff lower files).0 (both.0 h),
        λ h. both.1 ((files_allowed_iff lower files).1 h),
      )

  pub artifact_fails-nil :
      (t : Task)
      → (artifact_fails lower platform t ≡ [])
        ↔ IsPromise lower platform t.contract.files_allowed t.contract.expected_artifacts
  unfolding expected_artifacts_fails_plan
  artifact_fails-nil t =
      let files = t.contract.files_allowed in
      let promised = t.contract.expected_artifacts in
      let fails = expected_artifacts_fails_plan lower platform files promised in
      let forbids = λ (e : any (is_implicit_forbidden_path lower) promised ≡ true).
        let all_fail : fails ≡ true =
          any-weaker (is_implicit_forbidden_path lower) _ promised (λ x k. ground arith) e in
        all_fail in
      let both =
        guarded_say (any (is_implicit_forbidden_path lower) promised) fails
          (t.id ++ codes " expectedArtifacts includes a forbidden path")
          (t.id ++ codes " expectedArtifacts must be a subset of filesAllowed") forbids in
      let promise = expected_artifacts_iff lower platform files promised in
      (λ h. promise.0 (both.0 h), λ h. both.1 (promise.1 h))

  pub task_fails-nil_iff : (t : Task) → (task_fails lower platform t ≡ []) ↔ IsRunnable t
  task_fails-nil_iff t =
      let commands =
        say-nil (is_empty t.contract.verification_commands)
          (t.id ++ codes " missing verificationCommands") in
      let some_command = some_iff t.contract.verification_commands in
      let outer =
        append-eq-nil (command_fails lower platform t ++ allowed_fails lower platform t)
          (artifact_fails lower platform t) in
      let inner = append-eq-nil (command_fails lower platform t) (allowed_fails lower platform t) in
      (
        λ h. (
          some_command.0 (commands.0 (inner.0 (outer.0 h).0).0),
          (allowed_fails-nil t).0 (inner.0 (outer.0 h).0).1,
          (artifact_fails-nil t).0 (outer.0 h).1,
        ),
        λ (c, a, e). outer.1 (
          inner.1 (commands.1 (some_command.1 c), (allowed_fails-nil t).1 a),
          (artifact_fails-nil t).1 e,
        ),
      )

  -- No two tasks may write the same path, or one path inside the other.
  abbrev pub NoOverlap : List Task → Type 0
  NoOverlap tasks =
      let all = claims lower (map scope_of tasks) in
      (c d : Claim) → Memᴰ c all → Memᴰ d all → ¬ Collide d c

  pub overlap_fails-nil_iff :
      (tasks : List Task) → (overlap_fails lower platform tasks ≡ []) ↔ NoOverlap tasks
  unfolding overlapping_files_allowed
  overlap_fails-nil_iff tasks =
      let none_found =
        map-eq-nil (λ overlap. codes "overlapping filesAllowed " ++ overlap)
          (overlapping_files_allowed lower tasks) in
      let apart = overlapping_write_paths-nil_iff lower (map scope_of tasks) in
      (λ h. apart.0 (none_found.0 h), λ h. none_found.1 (apart.1 h))
