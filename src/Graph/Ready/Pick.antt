-- ===== src/Graph/Ready/Pick.antt =====
-- The task that is picked to run next.
use legion_cli.Prelude.{
  ℕ, ◌≤◌, ltb, nat_beq, ◌&&◌, ◌||◌, sym, subst, ◌≡◌, ◌↔◌, ◌⊎◌, inl, inr, refl, Bool, true, false,
  Option, none, some, List, [], ◌∷◌, filter, Memᴰ, Memᴰ-cons, Memᴰ-filter, arith, Bool-cases,
}
use legion_cli.Text.{Text}
use legion_cli.Graph.Tasks.{Task}
use legion_cli.Graph.Contract.{Platform}
use legion_cli.Graph.Ready.{
  ReadyContext, priority_rank, is_task_ready, ready_order, insert_ready, sort_ready, ready_tasks,
  pick_next_task,
}
use legion_cli.Graph.Ready.Laws.{CanStart, is_task_ready_iff}

abbrev rank : Task → ℕ
rank t = priority_rank t.priority

-- No task of the list has a higher priority.
abbrev First : Task → List Task → Type 0
First t ts = (u : Task) → Memᴰ u ts → rank t ≤ rank u

goes_before : (l r : ℕ) (b : Bool) → (ltb l r || (nat_beq l r && b)) ≡ true → l ≤ r
goes_before l r b h = ground arith

goes_after : (l r : ℕ) (b : Bool) → (ltb l r || (nat_beq l r && b)) ≡ false → r ≤ l
goes_after l r b h = ground arith

First-cons : (t x : Task) (xs : List Task) → rank t ≤ rank x → First t xs → First t (x ∷ xs)
First-cons t x xs le f u (Memᴰ.head e) = subst (λ (y : Task). rank t ≤ rank y) (sym e) le
First-cons t x xs le f u (Memᴰ.tail m) = f u m

First-lower : (t x : Task) (xs : List Task) → rank t ≤ rank x → First x xs → First t xs
First-lower t x xs le f u m = let later = f u m in omega arith

module _ (id_le : Text → Text → Bool) where
  mem-insert_ready :
      (u t : Task) (ts : List Task) → Memᴰ u (insert_ready id_le t ts) ↔ ((u ≡ t) ⊎ Memᴰ u ts)
  mem-insert_ready u t [] = Memᴰ-cons u t []
  mem-insert_ready u t (x ∷ xs) = ground (
    arith,
    mem-insert_ready u t xs,
    Memᴰ-cons u t (x ∷ xs),
    Memᴰ-cons u x xs,
    Memᴰ-cons u x (insert_ready id_le t xs),
  )

  mem-sort_ready : (u : Task) (ts : List Task) → Memᴰ u (sort_ready id_le ts) ↔ Memᴰ u ts
  mem-sort_ready u [] = (λ m. m, λ m. m)
  mem-sort_ready u (t ∷ ts) =
      ground
        (arith, mem-insert_ready u t (sort_ready id_le ts), mem-sort_ready u ts, Memᴰ-cons u t ts)

  -- Each task of the list has at most the priority of those before it.
  abbrev Sorted : List Task → Type 0
  Sorted [] = Unit
  Sorted (t ∷ ts) = First t ts × Sorted ts

  insert_ready-Sorted : (t : Task) (ts : List Task) → Sorted ts → Sorted (insert_ready id_le t ts)
  insert_ready-Sorted t [] s = (λ u m. elim m [ ], tt)
  insert_ready-Sorted t (x ∷ xs) (f, s) = elim (Bool-cases (ready_order id_le t x)) [
    | inl before ↦
        let le : rank t ≤ rank x = goes_before (rank t) (rank x) (id_le t.id x.id) before in
        let all : insert_ready id_le t (x ∷ xs) ≡ t ∷ x ∷ xs = simp before in
        subst Sorted (sym all) (First-cons t x xs le (First-lower t x xs le f), (f, s))
    | inr after ↦
        let le : rank x ≤ rank t = goes_after (rank t) (rank x) (id_le t.id x.id) after in
        let all : insert_ready id_le t (x ∷ xs) ≡ x ∷ insert_ready id_le t xs = simp after in
        subst Sorted (sym all) (
          λ u m. First-cons x t xs le f u ((Memᴰ-cons u t xs).1 ((mem-insert_ready u t xs).0 m)),
          insert_ready-Sorted t xs s,
        )
  ]

  sort_ready-Sorted : (ts : List Task) → Sorted (sort_ready id_le ts)
  sort_ready-Sorted [] = tt
  sort_ready-Sorted (t ∷ ts) = insert_ready-Sorted t (sort_ready id_le ts) (sort_ready-Sorted ts)

module _ (lower : Text → Text) (platform : Platform) (id_le : Text → Text → Bool) where
  mem-ready_tasks :
      (u : Task) (ctx : ReadyContext)
      → Memᴰ u (ready_tasks lower platform id_le ctx)
        ↔ (Memᴰ u ctx.tasks × CanStart lower platform u ctx)
  unfolding ready_tasks
  mem-ready_tasks u ctx =
      let some_ready = filter (λ t. is_task_ready lower platform t ctx) ctx.tasks in
      let sorted = mem-sort_ready id_le u some_ready in
      let kept = Memᴰ-filter (λ t. is_task_ready lower platform t ctx) u ctx.tasks in
      let start = is_task_ready_iff lower platform u ctx in
      (
        λ m. let (k, r) = kept.0 (sorted.0 m) in (k, start.0 r),
        λ (k, r). sorted.1 (kept.1 (k, start.1 r)),
      )

  -- What a pick means for the tasks of the context.
  abbrev pub Pick : ReadyContext → Option Task → Type 0
  Pick ctx result =
      ((result ≡ none) × ((u : Task) → Memᴰ u ctx.tasks → ¬ CanStart lower platform u ctx))
      ⊎ ((t : Task) × (result ≡ some t)
          × Memᴰ t ctx.tasks
          × CanStart lower platform t ctx
          × ((u : Task)
              → Memᴰ u ctx.tasks
              → CanStart lower platform u ctx
              → priority_rank t.priority ≤ priority_rank u.priority))

  -- The task that is picked is one of the tasks, can start, and no task that can start has a higher
  -- priority. Where none is picked, no task can start.
  pub pick_next_task-Pick :
      (ctx : ReadyContext) → Pick ctx (pick_next_task lower platform id_le ctx)
  unfolding pick_next_task
  pick_next_task-Pick ctx =
      picked (ready_tasks lower platform id_le ctx) (λ u. mem-ready_tasks u ctx) ready_sorted
    where
      ready_sorted : Sorted id_le (ready_tasks lower platform id_le ctx)
      ready_sorted =
          sort_ready-Sorted id_le (filter (λ t. is_task_ready lower platform t ctx) ctx.tasks)

      picked :
          (ts : List Task)
          → ((u : Task) → Memᴰ u ts ↔ (Memᴰ u ctx.tasks × CanStart lower platform u ctx))
          → Sorted id_le ts
          → Pick ctx (elim ts [ [] ↦ none | t ∷ rest ↦ some t ])
      picked [] mem sorted = inl (refl, λ u m c. elim ((mem u).1 (m, c)) [ ])
      picked (t ∷ ts) mem (first, sorted) =
          let (m, c) = (mem t).0 (Memᴰ.head refl) in
          inr (t, refl, m, c, λ u n d. First-cons t t ts (omega arith) first u ((mem u).1 (n, d)))
