-- ===== src/Graph/Parallel.antt =====
-- The choice of tasks that run at once: packages/core/src/parallel.ts.
pub mod Batch
use legion_cli.Prelude.{
  ℕ, zero, suc, ◌-◌, Bool, true, false, not, ◌&&◌, ◌||◌, List, [], ◌∷◌, ◌++◌, map, any, all,
  contains, filter, length, leb, min, max, ◌==◌, nat_eq, list_eq, if◌then◌else◌, Option, none, some,
}
use legion_cli.Text.{Text, codes, starts_with, unique, sort_texts}
use legion_cli.Paths.{slash}
use legion_cli.Graph.Tasks.{Task, FileContract}

-- `path.replaceAll("\\", "/")`
abbrev pub forward : Text → Text
forward path = map (λ c. if c == 92 then slash else c) path

-- `.replace(/\/+$/, "")`
unfoldable pub strip_slashes : Text → Text
strip_slashes [] = []
strip_slashes (c ∷ s) = elim (strip_slashes s) [
  | [] ↦ if c == slash then [] else c ∷ []
  | d ∷ r ↦ c ∷ d ∷ r
]

abbrev pub paths_conflict : Text → Text → Bool
paths_conflict left right =
    contains left b'*'
    || contains right b'*'
    || (left == right)
    || starts_with (right ++ slash ∷ []) left
    || starts_with (left ++ slash ∷ []) right

module _ (lower : Text → Text) where
  abbrev pub owned_path : Text → Text
  owned_path path = lower (strip_slashes (forward path))

  unfoldable pub owned_paths : FileContract → List Text
  unfolding strip_slashes unique sort_texts
  owned_paths contract = sort_texts (
      filter (λ path. not (path == []))
        (map owned_path (unique (contract.files_allowed ++ contract.expected_artifacts))))

  unfoldable pub contracts_are_disjoint : FileContract → FileContract → Bool
  unfolding owned_paths
  contracts_are_disjoint left right =
      not (any (λ a. any (λ b. paths_conflict a b) (owned_paths right)) (owned_paths left))

  -- The loop, with the tasks selected so far.
  unfoldable pub select_from : ℕ → List Task → List Task → List Task
  unfolding contracts_are_disjoint
  select_from limit selected [] = selected
  select_from limit selected (task ∷ ready) =
      let fits = all (λ (o : Task). contracts_are_disjoint o.contract task.contract) selected in
      let next = if fits then selected ++ task ∷ [] else selected in
      let rest = select_from limit next ready in
      if leb limit (length selected) then selected else rest

  -- `max_workers` is `Math.trunc(maxWorkers)`, 0 where that is negative.
  unfoldable pub select_parallel_tasks : List Task → ℕ → List Task
  unfolding select_from
  select_parallel_tasks ready max_workers = select_from (max 1 (min 4 max_workers)) [] ready
