-- ===== src/Graph/Cycles/Loop.antt =====
-- The loop over the dependencies of one id, where the search of each of them is right.
use legion_cli.Prelude.{
  ◌≡◌, inl, inr, refl, sym, subst, false, List, [], ◌∷◌, ◌++◌, contains, contains_iff, ◌==◌, ==_iff,
  nat_eq, list_eq, Memᴰ, Bool-cases,
}
use legion_cli.Text.{Text}
use legion_cli.Graph.Tasks.{Task}
use legion_cli.Graph.Subgraph.{parents_of}
use legion_cli.Graph.Cycles.{Search, found_cycle, no_cycle, out_of_fuel, unless_found, search_deps}
use legion_cli.Graph.Cycles.Steps.{
  IsCycle, Ends, LastWaits, IsPath, LastWaits-last, from_first-IsCycle, one, step,
}

module _ (tasks : List Task) where
  -- Every dependency path from an id that is visited and left ends.
  unfoldable pub Settled : List Text → List Text → Type 0
  Settled path visited = (x : Text) → Memᴰ x visited → contains path x ≡ false → (Ends tasks) x

  -- What a search comes back with, where `Done` says what holds of the ids visited.
  unfoldable pub Leaves : (List Text → Type 0) → Search → Type 0
  Leaves Done (found_cycle c) = (IsCycle tasks) c
  Leaves Done (no_cycle visited) = Done visited
  Leaves Done out_of_fuel = ⊥

  pub Leaves-unless_found :
      (First Second : List Text → Type 0) (s : Search) (rest : List Text → Search)
      → Leaves First s
      → ((v : List Text) → First v → Leaves Second (rest v))
      → Leaves Second (unless_found s rest)
  unfolding Leaves
  Leaves-unless_found First Second (found_cycle c) rest o k = o
  Leaves-unless_found First Second (no_cycle v) rest o k = k v o
  Leaves-unless_found First Second out_of_fuel rest o k = o

  pub Leaves-map :
      (First Second : List Text → Type 0) (s : Search)
      → Leaves First s
      → ((v : List Text) → First v → Second v)
      → Leaves Second s
  unfolding Leaves
  Leaves-map First Second (found_cycle c) o k = o
  Leaves-map First Second (no_cycle v) o k = k v o
  Leaves-map First Second out_of_fuel o k = o

  -- What a search leaves: it forgets no id, has shown `shown`, and every id left is settled.
  pub record Searched (path before : List Text) (shown : List Text → Type 0) (after : List Text)
      : Type 0 where
    pub kept : (x : Text) → Memᴰ x before → Memᴰ x after
    pub gained : shown after
    pub settled : Settled path after

  -- That the search `dfs` of an id off the path is right.
  unfoldable pub IsSearch : List Text → (Text → List Text → Search) → Type 0
  IsSearch path dfs =
      (dep : Text) (seen : List Text)
      → contains path dep ≡ false
      → (LastWaits tasks) path dep
      → Settled path seen
      → Leaves (Searched path seen (λ after. Memᴰ dep after)) (dfs dep seen)

  -- The dependencies that the loop is through with end.
  unfoldable pub AllEnd : List Text → List Text → Type 0
  AllEnd deps after = (d : Text) → Memᴰ d deps → (Ends tasks) d

  pub AllEnd-cons :
      (path before visited : List Text) (dep : Text) (deps : List Text)
      → ((x : Text) → Memᴰ x before → Memᴰ x visited)
      → (Ends tasks) dep
      → (after : List Text) → Searched path visited (AllEnd deps) after
      → Searched path before (AllEnd (dep ∷ deps)) after
  unfolding AllEnd
  AllEnd-cons path before visited dep deps more e after s = record {
    kept = λ x m. s.kept x (more x m);
    gained =
        λ d m. elim m [ Memᴰ.head k ↦ subst (Ends tasks) (sym k) e | Memᴰ.tail k ↦ s.gained d k ];
    settled = s.settled;
  }

  pub search_deps-Searched :
      (dfs : Text → List Text → Search) (before : List Text) (current : Text)
      (deps visited : List Text)
      → IsSearch (before ++ current ∷ []) dfs
      → (IsPath tasks) (before ++ current ∷ [])
      → ((d : Text) → Memᴰ d deps → Memᴰ d (parents_of tasks current))
      → Settled (before ++ current ∷ []) visited
      → Leaves
          (Searched (before ++ current ∷ []) visited (AllEnd deps))
          (search_deps dfs current (before ++ current ∷ []) deps visited)
  unfolding Leaves AllEnd Settled IsSearch
  search_deps-Searched dfs before current [] visited good p theirs s = record {
    kept = λ x m. m;
    gained = λ d m. elim m [ ];
    settled = s;
  }
  search_deps-Searched dfs before current (dep ∷ deps) visited good p theirs s =
      let again : (v : List Text)
          → Settled (before ++ current ∷ []) v
          → Leaves (Searched (before ++ current ∷ []) v (AllEnd deps))
              (search_deps dfs current (before ++ current ∷ []) deps v) =
        λ v settled.
          search_deps-Searched dfs before current deps v good p (λ d m. theirs d (Memᴰ.tail m))
            settled in
      elim (Bool-cases (dep == current)) [
        | inl self ↦
            let e : dep ≡ current = (==_iff dep current).0 self in
            let waits = subst (λ x. Memᴰ x (parents_of tasks current)) e waits_for_dep in
            rw (self, search_deps)
              record { start = current; middle = []; shape = refl; steps = step waits one }
        | inr other ↦
            rw (other, search_deps)
              (elim (Bool-cases (contains (before ++ current ∷ []) dep)) [
                | inl on ↦
                    rw (on, search_deps)
                      ((from_first-IsCycle tasks) dep (before ++ current ∷ []) p last on)
                | inr off ↦
                    rw (off, search_deps)
                      (elim (Bool-cases (contains visited dep)) [
                        | inl seen ↦
                            let e = s dep ((contains_iff visited dep).0 seen) off in
                            rw (seen, search_deps) (after again visited (λ x m. m) e s)
                        | inr new ↦
                            rw (new, search_deps)
                              (Leaves-unless_found
                                (Searched (before ++ current ∷ []) visited (λ v. Memᴰ dep v)) _
                                (dfs dep visited)
                                (search_deps dfs current (before ++ current ∷ []) deps)
                                (good dep visited off last s)
                                (λ v f.
                                  after again v f.kept (f.settled dep f.gained off) f.settled))
                      ])
              ])
      ]
    where
      waits_for_dep : Memᴰ dep (parents_of tasks current)
      waits_for_dep = theirs dep (Memᴰ.head refl)

      last : (LastWaits tasks) (before ++ current ∷ []) dep
      last = (LastWaits-last tasks) before current dep waits_for_dep

      after :
          ((v : List Text)
            → Settled (before ++ current ∷ []) v
            → Leaves
                (Searched (before ++ current ∷ []) v (AllEnd deps))
                (search_deps dfs current (before ++ current ∷ []) deps v))
          → (v : List Text) → ((x : Text) → Memᴰ x visited → Memᴰ x v)
          → (Ends tasks) dep
          → Settled (before ++ current ∷ []) v
          → Leaves
              (Searched (before ++ current ∷ []) visited (AllEnd (dep ∷ deps)))
              (search_deps dfs current (before ++ current ∷ []) deps v)
      after again v more e settled =
          Leaves-map (Searched (before ++ current ∷ []) v (AllEnd deps)) _
            (search_deps dfs current (before ++ current ∷ []) deps v) (again v settled)
            (AllEnd-cons (before ++ current ∷ []) visited v dep deps more e)
