-- ===== src/Graph/Cycles/Valid.antt =====
-- The task graphs that `validateTaskGraph` of packages/graph/src/ready.ts lets through.
use legion_cli.Prelude.{
  ◌≡◌, ◌↔◌, refl, sym, ap, subst, inl, inr, true, none, some, List, [], ◌∷◌, contains, contains_iff,
  ◌==◌, ==_iff, nat_eq, list_eq, Memᴰ, Bool-cases, Option-cases,
}
use legion_cli.Text.{Text}
use legion_cli.Graph.Tasks.{Task}
use legion_cli.Graph.Subgraph.{find_task}
use legion_cli.Graph.Cycles.{
  Search, found_cycle, no_cycle, out_of_fuel, detect_dependency_cycle, valid, first_unknown,
  blocker_error, first_error, cycle_verdict, validate_task_graph,
}
use legion_cli.Graph.Cycles.Rank.{find_task-Memᴰ}
use legion_cli.Graph.Cycles.Steps.{Ends, Answer, IsCycle-none}
use legion_cli.Graph.Cycles.Acyclic.{detect_dependency_cycle-Answer}

pub find_task-some :
    (ts : List Task) (u : Task) → Memᴰ u ts → (t : Task) × (find_task ts u.id ≡ some t)
unfolding find_task
find_task-some [] u m = elim m [ ]
find_task-some (t ∷ ts) u m = elim (Option-cases (find_task ts u.id)) [
  | inr (later, l) ↦ (later, rw (l, find_task) refl)
  | inl last ↦ elim m [
    | Memᴰ.tail n ↦ let (t', e) = find_task-some ts u n in cc
    | Memᴰ.head e ↦
        let same : (t.id == u.id) ≡ true = (==_iff t.id u.id).1 (ap (λ (x : Task). x.id) (sym e)) in
        (t, simp (last, same))
  ]
]

-- Some task has the id.
abbrev pub IsKnown : List Task → Text → Type 0
IsKnown tasks id = (u : Task) × Memᴰ u tasks × (u.id ≡ id)

first_unknown-none :
    (tasks : List Task) (bs : List Text)
    → (first_unknown tasks bs ≡ none) ↔ ((b : Text) → Memᴰ b bs → IsKnown tasks b)
unfolding first_unknown
first_unknown-none tasks [] = (λ e b m. elim m [ ], λ k. refl)
first_unknown-none tasks (b ∷ bs) = elim (Option-cases (find_task tasks b)) [
  | inl e ↦ (
    λ h. cc,
    λ k.
        let (u, m, same) = k b (Memᴰ.head refl) in
        let (t, found) = find_task-some tasks u m in
        let here : find_task tasks b ≡ some t =
          subst (λ x. find_task tasks x ≡ some t) same found in
        cc,
  )
  | inr (t, e) ↦
      let known : IsKnown tasks b = let (m, k) = find_task-Memᴰ tasks b t e in (t, m, k) in
      (
        λ h c m. elim m [
          | Memᴰ.head k ↦ subst (IsKnown tasks) (sym k) known
          | Memᴰ.tail n ↦ (first_unknown-none tasks bs).0 (rw (e, first_unknown) at h) c n
        ],
        λ k. rw (e, first_unknown) ((first_unknown-none tasks bs).1 (λ c n. k c (Memᴰ.tail n))),
      )
]

-- No task blocks itself, and its blockers are tasks.
abbrev pub BlockersKnown : List Task → Task → Type 0
BlockersKnown tasks t =
    (¬ Memᴰ t.id t.blocked_by) × ((b : Text) → Memᴰ b t.blocked_by → IsKnown tasks b)

blocker_error-none :
    (tasks : List Task) (t : Task) → (blocker_error tasks t ≡ none) ↔ BlockersKnown tasks t
unfolding blocker_error
blocker_error-none tasks t = elim (Bool-cases (contains t.blocked_by t.id)) [
  | inl self ↦ (
    λ h. let impossible = rw (self, blocker_error) at h in cc,
    λ k. absurd (k.0 ((contains_iff t.blocked_by t.id).0 self)),
  )
  | inr other ↦
      let alone : ¬ Memᴰ t.id t.blocked_by =
        λ m. let self = (contains_iff t.blocked_by t.id).1 m in cc in
      elim (Option-cases (first_unknown tasks t.blocked_by)) [
        | inl e ↦ (
          λ h. (alone, (first_unknown-none tasks t.blocked_by).0 e),
          λ k. rw (other, e, blocker_error) refl,
        )
        | inr (b, e) ↦ (
          λ h. let impossible = rw (other, e, blocker_error) at h in cc,
          λ k. let none_unknown = (first_unknown-none tasks t.blocked_by).1 k.1 in cc,
        )
      ]
]

first_error-none :
    (tasks ts : List Task)
    → (first_error tasks ts ≡ none) ↔ ((t : Task) → Memᴰ t ts → BlockersKnown tasks t)
unfolding first_error
first_error-none tasks [] = (λ e t m. elim m [ ], λ k. refl)
first_error-none tasks (t ∷ ts) = elim (Option-cases (blocker_error tasks t)) [
  | inl e ↦ (
    λ h u m. elim m [
      | Memᴰ.head k ↦ subst (BlockersKnown tasks) (sym k) ((blocker_error-none tasks t).0 e)
      | Memᴰ.tail n ↦ (first_error-none tasks ts).0 (rw (e, first_error) at h) u n
    ],
    λ k. rw (e, first_error) ((first_error-none tasks ts).1 (λ u n. k u (Memᴰ.tail n))),
  )
  | inr (x, e) ↦ (
    λ h. let impossible = rw (e, first_error) at h in cc,
    λ k. let fine = (blocker_error-none tasks t).1 (k t (Memᴰ.head refl)) in cc,
  )
]

-- Every blocker that a task names is the id of a task and not its own, and every path of
-- dependencies ends.
pub record Coherent (tasks : List Task) : Type 0 where
  pub blockers : (t : Task) → Memᴰ t tasks → BlockersKnown tasks t
  pub all_end : (id : Text) → Ends tasks id

cycle_verdict-valid :
    (tasks : List Task) (s : Search)
    → Answer tasks s
    → (cycle_verdict s ≡ valid) ↔ ((id : Text) → Ends tasks id)
unfolding Answer
cycle_verdict-valid tasks (found_cycle c) a = (λ h. cc, λ all. absurd (IsCycle-none tasks all c a))
cycle_verdict-valid tasks (no_cycle v) (all, free) = (λ h. all, λ k. refl)
cycle_verdict-valid tasks out_of_fuel a = elim a [ ]

-- A list of tasks is valid exactly when no task blocks itself, every blocker that a task names is the
-- id of some task, and every path of dependencies ends.
pub validate_task_graph_iff :
    (tasks : List Task) → (validate_task_graph tasks ≡ valid) ↔ Coherent tasks
unfolding validate_task_graph
validate_task_graph_iff tasks = elim (Option-cases (first_error tasks tasks)) [
  | inr (x, e) ↦ (
    λ h. let impossible = rw (e, validate_task_graph) at h in cc,
    λ c. let fine = (first_error-none tasks tasks).1 c.blockers in cc,
  )
  | inl e ↦
      let (to, from) =
        cycle_verdict-valid tasks (detect_dependency_cycle tasks)
          (detect_dependency_cycle-Answer tasks) in
      (
        λ h. record {
          blockers = (first_error-none tasks tasks).0 e;
          all_end = to (rw (e, validate_task_graph) at h);
        },
        λ c. rw (e, validate_task_graph) (from c.all_end),
      )
]
