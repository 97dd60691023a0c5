-- ===== src/Graph/Slice.antt =====
-- The tasks of the active spec: packages/core/src/slice.ts.
use legion_cli.Prelude.{
  ℕ, ◌≡◌, ◌≢◌, ◌↔◌, ◌⊎◌, refl, sym, ap, ◌∙◌, Bool, true, false, not, ◌&&◌, Option, none, some, List,
  [], ◌∷◌, Memᴰ, Memᴰ-cons, Memᴰ-filter, ◌==◌, ==_iff, nat_eq, list_eq, any, any-eq-false, all,
  all_iff, filter, contains, is_empty, some_iff, if◌then◌else◌, arith,
}
use legion_cli.Text.{Text}
use legion_cli.Lifecycle.{
  TaskStatus, todo, ready, in_progress, verifying, blocked, done, compacted, status_eq, p0,
  priority_eq, is_terminal_task_status, open_task_statuses,
}
use legion_cli.Graph.Tasks.{Task}

-- `localeCompare` is a parameter: `id_le a b` when it does not put `b` first.
abbrev insert_by_id : (Text → Text → Bool) → Task → List Task → List Task
insert_by_id id_le t [] = t ∷ []
insert_by_id id_le t (u ∷ us) = if id_le t.id u.id then t ∷ u ∷ us else u ∷ insert_by_id id_le t us

abbrev sort_by_id : (Text → Text → Bool) → List Task → List Task
sort_by_id id_le [] = []
sort_by_id id_le (t ∷ ts) = insert_by_id id_le t (sort_by_id id_le ts)

-- `!activeSpecId`: absent, null or empty.
unfoldable pub slice_tasks : (Text → Text → Bool) → List Task → Option Text → List Task
slice_tasks id_le tasks none = []
slice_tasks id_le tasks (some []) = []
slice_tasks id_le tasks (some (c ∷ s)) =
    sort_by_id id_le (filter (λ (t : Task). t.spec_id == (c ∷ s)) tasks)

unfoldable pub is_slice_terminal : List Task → Bool
unfolding is_terminal_task_status
is_slice_terminal tasks =
    not (is_empty tasks) && all (λ (t : Task). is_terminal_task_status t.status) tasks

unfoldable pub slice_has_open_work : List Task → Bool
slice_has_open_work tasks = any (λ (t : Task). contains open_task_statuses t.status) tasks

unfoldable pub p0_tasks_not_done : List Task → List Task
p0_tasks_not_done tasks =
    filter (λ (t : Task). t.priority == p0 && not (t.status == done) && not (t.status == compacted))
      tasks

given : {a b : Text} → some a ≡ some b → a ≡ b
given e = cc

cons_not_nil : {c : ℕ} {s : Text} → c ∷ s ≢ []
cons_not_nil e = cc

both : (a b : Bool) → a && b ≡ true → (a ≡ true) × (b ≡ true)
both true true e = (refl, refl)
both true false e = cc
both false b e = cc

negated : (b : Bool) → not b ≡ true → b ≡ false
negated true e = cc
negated false e = refl

mem-insert_by_id :
    (id_le : Text → Text → Bool) (a t : Task) (us : List Task)
    → Memᴰ a (insert_by_id id_le t us) ↔ ((a ≡ t) ⊎ Memᴰ a us)
mem-insert_by_id id_le a t [] = Memᴰ-cons a t []
mem-insert_by_id id_le a t (u ∷ us) = ground (
  arith,
  mem-insert_by_id id_le a t us,
  Memᴰ-cons a t (u ∷ us),
  Memᴰ-cons a u us,
  Memᴰ-cons a u (insert_by_id id_le t us),
)

mem-sort_by_id :
    (id_le : Text → Text → Bool) (a : Task) (ts : List Task)
    → Memᴰ a (sort_by_id id_le ts) ↔ Memᴰ a ts
mem-sort_by_id id_le a [] = (λ m. m, λ m. m)
mem-sort_by_id id_le a (t ∷ ts) = ground (
  arith,
  mem-insert_by_id id_le a t (sort_by_id id_le ts),
  mem-sort_by_id id_le a ts,
  Memᴰ-cons a t ts,
)

-- The slice of a spec has exactly the tasks of that spec; without an active spec it has none.
pub slice_tasks_iff :
    (id_le : Text → Text → Bool) (tasks : List Task) (active : Option Text) (t : Task)
    → Memᴰ t (slice_tasks id_le tasks active)
      ↔ (Memᴰ t tasks × (active ≡ some t.spec_id) × (t.spec_id ≢ []))
unfolding slice_tasks
slice_tasks_iff id_le tasks none t = (λ m. elim m [ ], λ (m, e, n). cc)
slice_tasks_iff id_le tasks (some []) t =
    (λ m. elim m [ ], λ (m, e, n). elim (n (sym (given e))) [ ])
slice_tasks_iff id_le tasks (some (c ∷ s)) t =
    let ofs : Task → Bool = λ (t : Task). t.spec_id == (c ∷ s) in
    let f = mem-sort_by_id id_le t (filter ofs tasks) in
    let g = Memᴰ-filter ofs t tasks in
    (
      λ m.
          let (k, e) = g.0 (f.0 m) in
          let h = (==_iff t.spec_id (c ∷ s)).0 e in
          (k, ap (λ (x : Text). some x) (sym h), λ z. cons_not_nil (sym h ∙ z)),
      λ (m, e, n). f.1 (g.1 (m, (==_iff t.spec_id (c ∷ s)).1 (sym (given e)))),
    )

terminal_or_open :
    (s : TaskStatus) → (is_terminal_task_status s ≡ true) ↔ (contains open_task_statuses s ≡ false)
unfolding is_terminal_task_status
terminal_or_open todo = ground arith
terminal_or_open ready = ground arith
terminal_or_open in_progress = ground arith
terminal_or_open verifying = ground arith
terminal_or_open blocked = ground arith
terminal_or_open done = ground arith
terminal_or_open compacted = ground arith

-- A slice is terminal exactly when it has tasks and none of them is open work.
pub is_slice_terminal_iff :
    (tasks : List Task)
    → (is_slice_terminal tasks ≡ true) ↔ ((tasks ≢ []) × (slice_has_open_work tasks ≡ false))
unfolding is_slice_terminal slice_has_open_work
is_slice_terminal_iff tasks =
    let status : Task → Bool = λ (t : Task). is_terminal_task_status t.status in
    let open_work : Task → Bool = λ (t : Task). contains open_task_statuses t.status in
    (
      λ e.
          let (n, a) = both (not (is_empty tasks)) (all status tasks) e in
          (
            (some_iff tasks).0 (negated (is_empty tasks) n),
            (any-eq-false open_work tasks).1
                (λ t m. (terminal_or_open t.status).0 ((all_iff status tasks).0 a t m)),
          ),
      λ (n, a).
          rw
            (
              (some_iff tasks).1 n,
              (all_iff status tasks).1
                  (λ t m. (terminal_or_open t.status).1 ((any-eq-false open_work tasks).0 a t m)),
            )
            refl,
    )
