-- ===== src/Graph/Cycles/Steps.antt =====
-- Paths and cycles of dependencies, and the dependencies that end.
use legion_cli.Prelude.{
  ◌<◌, ◌≡◌, ◌⊎◌, inl, inr, ap, subst, true, false, List, [], ◌∷◌, ◌++◌, contains, contains_iff,
  ◌==◌, ==_iff, nat_eq, list_eq, Memᴰ, Memᴰ-cons, Memᴰ-nil, Memᴰ-append, arith, Bool-cases,
  Option-cases,
}
use legion_cli.Text.{Text}
use legion_cli.Graph.Tasks.{Task}
use legion_cli.Graph.Subgraph.{find_task, parents_of}
use legion_cli.Graph.Cycles.{Search, found_cycle, no_cycle, out_of_fuel, from_first}
use legion_cli.Graph.Cycles.Rank.{off_path, off_path_found}
use legion_cli.Grounded.{Grounded, Behind, next, later, Grounded-loop}

module _ (tasks : List Task) where
  -- Each id waits for the one before it.
  pub data Steps : List Text → Type 0 where
    one : {a : Text} → Steps (a ∷ [])
    step :
        {a b : Text} {rest : List Text}
        → Memᴰ b (parents_of tasks a)
        → Steps (b ∷ rest)
        → Steps (a ∷ b ∷ rest)

  -- A path of at least one step that ends where it begins.
  pub record IsCycle (c : List Text) : Type 0 where
    pub start : Text
    pub middle : List Text
    pub shape : c ≡ start ∷ middle ++ start ∷ []
    pub steps : Steps c

  -- An id from which every path of dependencies ends.
  abbrev pub Ends : Text → Type 0
  Ends id = Grounded (parents_of tasks) id

  -- What the id holds of the last id of a path: nothing if the path is empty.
  unfoldable pub LastWaits : List Text → Text → Type 0
  LastWaits [] id = Unit
  LastWaits (a ∷ []) id = Memᴰ id (parents_of tasks a)
  LastWaits (a ∷ b ∷ rest) id = LastWaits (b ∷ rest) id

  -- A path of the search: empty, or steps.
  unfoldable pub IsPath : List Text → Type 0
  IsPath [] = Unit
  IsPath (a ∷ rest) = Steps (a ∷ rest)

  pub IsPath-extend :
      (path : List Text) (id : Text) → IsPath path → LastWaits path id → IsPath (path ++ id ∷ [])
  unfolding IsPath LastWaits
  IsPath-extend [] id p w = one
  IsPath-extend (a ∷ []) id p w = step w one
  IsPath-extend (a ∷ b ∷ rest) id (step m s) w = step m (IsPath-extend (b ∷ rest) id s w)

  pub LastWaits-last :
      (path : List Text) (a id : Text)
      → Memᴰ id (parents_of tasks a)
      → LastWaits (path ++ a ∷ []) id
  unfolding LastWaits
  LastWaits-last [] a id m = m
  LastWaits-last (x ∷ []) a id m = m
  LastWaits-last (x ∷ y ∷ rest) a id m = LastWaits-last (y ∷ rest) a id m

  pub from_first-IsCycle :
      (dep : Text) (path : List Text)
      → IsPath path
      → LastWaits path dep
      → contains path dep ≡ true
      → IsCycle (from_first dep path ++ dep ∷ [])
  unfolding IsPath LastWaits
  from_first-IsCycle dep [] p w on = cc
  from_first-IsCycle dep (x ∷ xs) p w on = elim (Bool-cases (x == dep)) [
    | inl here ↦
        let e : x ≡ dep = (==_iff x dep).0 here in
        rw here record {
          start = dep;
          middle = xs;
          shape = ap (λ y. y ∷ xs ++ dep ∷ []) e;
          steps = IsPath-extend (x ∷ xs) dep p w;
        }
    | inr other ↦
        let later : contains xs dep ≡ true = ground arith in
        let (q, v) = on_tail x xs p w later in rw other (from_first-IsCycle dep xs q v later)
  ]
    where
      on_tail :
          (y : Text) (ys : List Text)
          → IsPath (y ∷ ys)
          → LastWaits (y ∷ ys) dep
          → contains ys dep ≡ true
          → IsPath ys × LastWaits ys dep
      on_tail y [] q v m = absurd (Memᴰ-nil dep ((contains_iff [] dep).0 m))
      on_tail y (z ∷ zs) (step m s) v k = (s, v)

  pub waits-last :
      (path : List Text) (a id : Text)
      → LastWaits (path ++ a ∷ []) id
      → Memᴰ id (parents_of tasks a)
  unfolding LastWaits
  waits-last [] a id w = w
  waits-last (x ∷ []) a id w = w
  waits-last (x ∷ y ∷ rest) a id w = waits-last (y ∷ rest) a id w

  pub off_path_step :
      (path : List Text) (id dep : Text)
      → contains path id ≡ false
      → LastWaits (path ++ id ∷ []) dep
      → off_path (path ++ id ∷ []) tasks < off_path path tasks
  unfolding parents_of
  off_path_step path id dep new w = elim (Option-cases (find_task tasks id)) [
    | inr (t, e) ↦ off_path_found id path tasks t new e
    | inl nobody ↦
        let waits = waits-last path id dep w in
        let m : Memᴰ dep [] = rw (nobody, parents_of) at waits in absurd (Memᴰ-nil dep m)
  ]

  pub contains-last :
      (path : List Text) (id x : Text)
      → contains path x ≡ false
      → (x ≡ id) ⊎ (contains (path ++ id ∷ []) x ≡ false)
  contains-last path id x h = ground (
    arith,
    contains_iff path x,
    contains_iff (path ++ id ∷ []) x,
    Memᴰ-append x path (id ∷ []),
    Memᴰ-cons x id [],
    Memᴰ-nil x,
  )

  pub Steps-Behind :
      (a b : Text) (middle : List Text)
      → Steps (a ∷ middle ++ b ∷ [])
      → Behind (parents_of tasks) b a
  Steps-Behind a b [] (step m s) = next m
  Steps-Behind a b (c ∷ rest) (step m s) = later m (Steps-Behind c b rest s)

  pub IsCycle-none : ((id : Text) → Ends id) → (c : List Text) → ¬ IsCycle c
  IsCycle-none all c cycle =
      Grounded-loop (parents_of tasks) cycle.start (all cycle.start)
        (Steps-Behind cycle.start cycle.start cycle.middle (subst Steps cycle.shape cycle.steps))

  unfoldable pub Answer : Search → Type 0
  Answer (found_cycle c) = IsCycle c
  Answer (no_cycle visited) = ((id : Text) → Ends id) × ((c : List Text) → ¬ IsCycle c)
  Answer out_of_fuel = ⊥
