-- ===== src/Graph/Cycles/Acyclic.antt =====
-- The search for cycles of dependencies against the graph that the tasks span.
use legion_cli.Prelude.{
  ℕ, zero, suc, ◌+◌, ◌<◌, ◌≡◌, ◌≢◌, inl, inr, refl, sym, subst, false, List, [], ◌∷◌, ◌++◌,
  contains, contains_iff, length, nat_eq, list_eq, Memᴰ, Memᴰ-cons, Memᴰ-nil, Memᴰ-append, arith,
  Bool-cases, Option-cases,
}
use legion_cli.Text.{Text}
use legion_cli.Graph.Tasks.{Task}
use legion_cli.Grounded.{grounded}
use legion_cli.Graph.Subgraph.{find_task, parents_of}
use legion_cli.Graph.Cycles.{
  Search, found_cycle, no_cycle, out_of_fuel, depth_first, search_roots, detect_dependency_cycle,
}
use legion_cli.Graph.Cycles.Rank.{off_path, off_path-nil, find_task-Memᴰ}
use legion_cli.Graph.Cycles.Steps.{
  Ends, LastWaits, IsPath, IsPath-extend, off_path_step, contains-last, IsCycle-none, Answer,
}
use legion_cli.Graph.Cycles.Loop.{
  Settled, Leaves, Leaves-unless_found, Leaves-map, Searched, IsSearch, AllEnd,
  search_deps-Searched,
}

module _ (tasks : List Task) where
  -- The id under search is settled when its dependencies are.
  Searched-leave :
      (path : List Text) (id : Text) (visited after : List Text)
      → (Searched tasks)
          (path ++ id ∷ [])
          (id ∷ visited)
          ((AllEnd tasks) (parents_of tasks id))
          after
      → (Searched tasks) path visited (λ v. Memᴰ id v) after
  unfolding AllEnd Settled
  Searched-leave path id visited after s = record {
    kept = λ x m. s.kept x (Memᴰ.tail m);
    gained = s.kept id (Memᴰ.head refl);
    settled = λ x m off. elim ((contains-last tasks) path id x off) [
      | inl e ↦ subst (Ends tasks) (sym e) (grounded s.gained)
      | inr free ↦ s.settled x m free
    ];
  }

  Settled-enter :
      (path : List Text) (id : Text) (visited : List Text)
      → (Settled tasks) path visited
      → (Settled tasks) (path ++ id ∷ []) (id ∷ visited)
  unfolding Settled
  Settled-enter path id visited s x m off =
      let away : (x ≢ id) × (contains path x ≡ false) = ground (
        arith,
        contains_iff path x,
        contains_iff (path ++ id ∷ []) x,
        Memᴰ-append x path (id ∷ []),
        Memᴰ-cons x id [],
      ) in
      elim m [ Memᴰ.head e ↦ absurd (away.0 e) | Memᴰ.tail old ↦ s x old away.1 ]

  depth_first-Searched :
      (fuel : ℕ) (path : List Text) (id : Text) (visited : List Text)
      → off_path path tasks < fuel
      → contains path id ≡ false
      → (IsPath tasks) path
      → (LastWaits tasks) path id
      → (Settled tasks) path visited
      → (Leaves tasks)
          ((Searched tasks) path visited (λ v. Memᴰ id v))
          (depth_first tasks fuel path id visited)
  unfolding depth_first IsSearch
  depth_first-Searched zero path id visited enough off p w s = absurd (omega arith)
  depth_first-Searched (suc fuel) path id visited enough off p w s =
      (Leaves-map tasks)
        ((Searched tasks) (path ++ id ∷ []) (id ∷ visited) ((AllEnd tasks) (parents_of tasks id))) _
        _
        ((search_deps-Searched tasks) (depth_first tasks fuel (path ++ id ∷ [])) path id
          (parents_of tasks id) (id ∷ visited)
          (λ dep seen free waits settled.
            let less = (off_path_step tasks) path id dep off waits in
            depth_first-Searched fuel (path ++ id ∷ []) dep seen (omega arith) free
              ((IsPath-extend tasks) path id p w) waits settled)
          ((IsPath-extend tasks) path id p w) (λ d m. m) (Settled-enter path id visited s))
        (Searched-leave path id visited)

  search_roots-Searched :
      (fuel : ℕ) (ts : List Task) (visited : List Text)
      → off_path [] tasks < fuel
      → (Settled tasks) [] visited
      → (Leaves tasks)
          ((Searched tasks) [] visited (λ v. (t : Task) → Memᴰ t ts → Memᴰ t.id v))
          (search_roots tasks fuel ts visited)
  unfolding search_roots Leaves IsPath LastWaits
  search_roots-Searched fuel [] visited enough s = record {
    kept = λ x m. m;
    gained = λ t m. elim m [ ];
    settled = s;
  }
  search_roots-Searched fuel (t ∷ ts) visited enough s =
      let again : (v : List Text)
          → (Settled tasks) [] v
          → (Leaves tasks) ((Searched tasks) [] v (λ w. (u : Task) → Memᴰ u ts → Memᴰ u.id w))
              (search_roots tasks fuel ts v) =
        λ v settled. search_roots-Searched fuel ts v enough settled in
      elim (Bool-cases (contains visited t.id)) [
        | inl seen ↦
            rw (seen, search_roots)
              ((Leaves-map tasks) _ _ (search_roots tasks fuel ts visited) (again visited s)
                (λ v f. roots v visited f (λ x m. m) ((contains_iff visited t.id).0 seen)))
        | inr new ↦
            rw (new, search_roots)
              ((Leaves-unless_found tasks) ((Searched tasks) [] visited (λ v. Memᴰ t.id v)) _
                (depth_first tasks fuel [] t.id visited) (search_roots tasks fuel ts)
                (depth_first-Searched fuel [] t.id visited enough refl tt tt s)
                (λ v f.
                  (Leaves-map tasks) _ _ (search_roots tasks fuel ts v) (again v f.settled)
                    (λ after g. roots after v g f.kept f.gained)))
      ]
    where
      roots :
          (after seen : List Text)
          → (Searched tasks) [] seen (λ w. (u : Task) → Memᴰ u ts → Memᴰ u.id w) after
          → ((x : Text) → Memᴰ x visited → Memᴰ x seen)
          → Memᴰ t.id seen
          → (Searched tasks) [] visited (λ w. (u : Task) → Memᴰ u (t ∷ ts) → Memᴰ u.id w) after
      roots after seen f more m = record {
        kept = λ x k. f.kept x (more x k);
        gained = λ u k. elim k [
          | Memᴰ.head e ↦ f.kept u.id (subst (λ (x : Task). Memᴰ x.id seen) (sym e) m)
          | Memᴰ.tail n ↦ f.gained u n
        ];
        settled = f.settled;
      }

  -- When every task's id is settled, no path of dependencies goes on for ever.
  all_end :
      (v : List Text)
      → (Searched tasks) [] [] (λ w. (t : Task) → Memᴰ t tasks → Memᴰ t.id w) v
      → (id : Text) → (Ends tasks) id
  unfolding Settled parents_of
  all_end v s id = elim (Option-cases (find_task tasks id)) [
    | inl nobody ↦ grounded (λ p m. absurd (Memᴰ-nil p (rw (nobody, parents_of) at m)))
    | inr (t, e) ↦
        let (m, same) = find_task-Memᴰ tasks id t e in
        subst (Ends tasks) same (s.settled t.id (s.gained t m) refl)
  ]

-- The search for a cycle of dependencies ends. What it finds is a cycle: a path of at least one
-- step, each id waiting for the next, that ends where it begins. If it finds none, there is none,
-- and every path of dependencies, from any id, ends.
pub detect_dependency_cycle-Answer :
    (tasks : List Task) → Answer tasks (detect_dependency_cycle tasks)
unfolding detect_dependency_cycle Leaves Answer Settled
detect_dependency_cycle-Answer tasks = answer (detect_dependency_cycle tasks) searched
  where
    searched :
        Leaves tasks
          (Searched tasks [] [] (λ w. (t : Task) → Memᴰ t tasks → Memᴰ t.id w))
          (detect_dependency_cycle tasks)
    searched =
        search_roots-Searched tasks (2 + length tasks) tasks []
          (let start = off_path-nil tasks in omega arith) (λ x m off. absurd (Memᴰ-nil x m))

    answer :
        (s : Search)
        → Leaves tasks (Searched tasks [] [] (λ w. (t : Task) → Memᴰ t tasks → Memᴰ t.id w)) s
        → Answer tasks s
    answer (found_cycle c) o = o
    answer (no_cycle v) o = let all = all_end tasks v o in (all, IsCycle-none tasks all)
    answer out_of_fuel o = o
