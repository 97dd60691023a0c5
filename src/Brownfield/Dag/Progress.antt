-- ===== src/Brownfield/Dag/Progress.antt =====
-- After `cascadeSkip` a run over an acyclic DAG is not stuck: it is done, or a node is in flight,
-- or a node is ready to start.
use legion_cli.Prelude.{
  ℕ, zero, suc, ◌<◌, ◌≡◌, refl, sym, ap, subst, ◌∙◌, ◌⊎◌, inl, inr, Bool, true, false, Option, none,
  some, List, [], ◌∷◌, map, all, Memᴰ, String, arith, Bool-cases, Memᴰ-filter, Memᴰ-append,
  Memᴰ-cons,
}
use legion_cli.Brownfield.Dag.{
  Node, Dag, NodeStatus, is_terminal, is_bad, is_pending, is_completed, find_node, status_is,
  find_bad, skip, is_ready_node, is_in_flight, summarize_dag, cascade_skip,
}
use legion_cli.Brownfield.Dag.Cascade.{
  Steps, still, more, Step, IsSettled, Cascaded, find_bad-none, cascade_skip_returns,
}
use legion_cli.Brownfield.Dag.Doomed.{status_is-found, mem-find_node, Steps-Inv, Related}

-- Every dependency names a node, and is of lower rank than the node that has it.
pub record IsAcyclic (rank : String → ℕ) (nodes : List Node) : Type 0 where
  pub known :
      (n : Node) (dep : String)
      → Memᴰ n nodes
      → Memᴰ dep n.depends_on
      → (m : Node) × (find_node nodes dep ≡ some m)
  pub lower :
      (n : Node) (dep : String) → Memᴰ n nodes → Memᴰ dep n.depends_on → rank dep < rank n.id

-- Somebody can go on: a node is ready, or one is in flight.
pub data Moves (nodes : List Node) : Type 0 where
  starts : (n : Node) → Memᴰ n nodes → is_ready_node nodes n ≡ true → Moves nodes
  runs : (n : Node) → Memᴰ n nodes → is_in_flight n ≡ true → Moves nodes

is_completed_of_is_terminal :
    (s : NodeStatus) → is_terminal s ≡ true → is_bad s ≡ false → is_completed s ≡ true
is_completed_of_is_terminal s h k = ground arith

module _ (nodes : List Node) where
  dep_cases :
      (dep : String) (m : Node)
      → find_node nodes dep ≡ some m
      → status_is is_bad nodes dep ≡ false
      → (status_is is_completed nodes dep ≡ true) ⊎ (is_terminal m.status ≡ false)
  dep_cases dep m found fine = elim (Bool-cases (is_terminal m.status)) [
    | inl over ↦ inl (
        status_is-found is_completed nodes dep found
        ∙ is_completed_of_is_terminal m.status over
            (sym (status_is-found is_bad nodes dep found) ∙ fine))
    | inr running ↦ inr running
  ]

  -- Either every dependency is completed, or one of them leads on to a node that moves.
  deps_move :
      (deps : List String)
      → ((dep : String) → Memᴰ dep deps → (status_is is_completed nodes dep ≡ true) ⊎ Moves nodes)
      → (all (λ dep. status_is is_completed nodes dep) deps ≡ true) ⊎ Moves nodes
  deps_move [] h = inl refl
  deps_move (d ∷ ds) h = elim (h d (Memᴰ.head refl)) [
    | inr moves ↦ inr moves
    | inl here ↦ elim (deps_move ds (λ dep m. h dep (Memᴰ.tail m))) [
      | inr moves ↦ inr moves
      | inl later ↦ inl (rw (here, later))
    ]
  ]

  module _ (rank : String → ℕ) (acyclic : IsAcyclic rank nodes)
      (settled : (n : Node) → Memᴰ n nodes → IsSettled nodes n) where
    dep-Moves :
        (fuel : ℕ) (n : Node)
        → Memᴰ n nodes
        → find_bad nodes n.depends_on ≡ none
        → (dep : String) → Memᴰ dep n.depends_on
        → rank n.id < suc fuel
        → ((m : Node)
            → rank m.id < fuel
            → Memᴰ m nodes
            → is_terminal m.status ≡ false
            → Moves nodes)
        → (status_is is_completed nodes dep ≡ true) ⊎ Moves nodes
    dep-Moves fuel n here fine dep needs h go =
        let (m, found) = acyclic.known n dep here needs in
        let (there, named) = mem-find_node nodes dep m found in
        elim (dep_cases dep m found (find_bad-none nodes n.depends_on dep fine needs)) [
          | inl completed ↦ inl completed
          | inr running ↦
              let less : rank m.id < fuel =
                omega (arith, ap rank named, acyclic.lower n dep here needs) in
              inr (go m less there running)
        ]

    open-Moves :
        (fuel : ℕ) (n : Node)
        → rank n.id < fuel
        → Memᴰ n nodes
        → is_terminal n.status ≡ false
        → Moves nodes
    open-Moves zero n h here running = absurd (omega arith)
    open-Moves (suc fuel) n h here running = elim (Bool-cases (is_pending n.status)) [
      | inr busy ↦ runs n here (rw (running, busy))
      | inl waits ↦ elim (settled n here) [
        | inl over ↦ cc
        | inr fine ↦
            elim (deps_move n.depends_on
              (λ dep needs. dep-Moves fuel n here fine dep needs h (open-Moves fuel))) [
                | inl ready ↦ starts n here (rw (waits, ready))
                | inr moves ↦ moves
              ]
      ]
    ]

-- Where a node of a later state comes from.
Step-member :
    {a b : List Node} (n : Node)
    → Step a b
    → Memᴰ n b
    → (m : Node) × Memᴰ m a × (n.id ≡ m.id) × (n.depends_on ≡ m.depends_on)
Step-member n s m =
    let there = subst (Memᴰ n) s.skips m in
    elim ((Memᴰ-append n s.before (skip s.node s.bad ∷ s.rest)).0 there) [
      | inl early ↦ (
        n,
        subst (Memᴰ n) (sym s.split) ((Memᴰ-append n s.before (s.node ∷ s.rest)).1 (inl early)),
        refl,
        refl,
      )
      | inr late ↦ elim ((Memᴰ-cons n (skip s.node s.bad) s.rest).0 late) [
        | inl e ↦ (
          s.node,
          subst (Memᴰ s.node) (sym s.split)
              ((Memᴰ-append s.node s.before (s.node ∷ s.rest)).1 (inr (Memᴰ.head refl))),
          ap (λ (x : Node). x.id) e,
          ap (λ (x : Node). x.depends_on) e,
        )
        | inr later ↦ (
          n,
          subst (Memᴰ n) (sym s.split)
              ((Memᴰ-append n s.before (s.node ∷ s.rest)).1 (inr (Memᴰ.tail later))),
          refl,
          refl,
        )
      ]
    ]

Steps-member :
    {a b : List Node} (n : Node)
    → Steps a b
    → Memᴰ n b
    → (m : Node) × Memᴰ m a × (n.id ≡ m.id) × (n.depends_on ≡ m.depends_on)
Steps-member n still m = (n, m, refl, refl)
Steps-member n (more p s) m =
    let (x, here, id, deps) = Step-member n s m in
    let (y, first, id', deps') = Steps-member x p here in (y, first, id ∙ id', deps ∙ deps')

Related-some :
    (a b : Option Node) → Related a b → {m : Node} → a ≡ some m → (n : Node) × (b ≡ some n)
Related-some none b r e = cc
Related-some (some m) none r e = elim r [ ]
Related-some (some m) (some n) r e = (n, refl)

Steps-IsAcyclic :
    (rank : String → ℕ) {a b : List Node} → Steps a b → IsAcyclic rank a → IsAcyclic rank b
Steps-IsAcyclic rank {a} {b} p acyclic = record {
  known = λ n dep here needs.
      let (m, was, id, deps) = Steps-member n p here in
      let (k, found) = acyclic.known m dep was (subst (Memᴰ dep) deps needs) in
      Related-some (find_node a dep) (find_node b dep) ((Steps-Inv a p).same dep) found;
  lower = λ n dep here needs.
      let (m, was, id, deps) = Steps-member n p here in
      subst (λ x. rank dep < rank x) (sym id)
        (acyclic.lower m dep was (subst (Memᴰ dep) deps needs));
}

not_all :
    {A : Type 0} (p : A → Bool) (xs : List A)
    → all p xs ≡ false
    → (x : A) × Memᴰ x xs × (p x ≡ false)
not_all p [] h = cc
not_all p (x ∷ xs) h = elim (Bool-cases (p x)) [
  | inr fails ↦ (x, Memᴰ.head refl, fails)
  | inl holds ↦ let (y, m, fails) = not_all p xs (rw holds at h) in (y, Memᴰ.tail m, fails)
]

mem-map_id : (n : Node) (xs : List Node) → Memᴰ n xs → Memᴰ n.id (map (λ (x : Node). x.id) xs)
mem-map_id n [] m = elim m [ ]
mem-map_id n (x ∷ xs) (Memᴰ.head e) = Memᴰ.head (ap (λ (y : Node). y.id) e)
mem-map_id n (x ∷ xs) (Memᴰ.tail m) = Memᴰ.tail (mem-map_id n xs m)

-- The cascade ends. If every dependency names a node of lower rank, that is if the DAG has no
-- cycle, then the summary of its result says that the run is done, or lists a node that is ready
-- to start, or lists one that is in flight: a run is never stuck.
pub cascade_skip_progress :
    (rank : String → ℕ) (dag : Dag)
    → IsAcyclic rank dag.nodes
    → (after : Dag) × (cascade_skip dag ≡ some after)
      × (((summarize_dag after).done ≡ true)
          ⊎ ((id : String) × Memᴰ id (summarize_dag after).ready)
          ⊎ ((id : String) × Memᴰ id (summarize_dag after).in_flight))
unfolding summarize_dag
cascade_skip_progress rank dag acyclic =
    let (after, ends, c) = cascade_skip_returns dag in
    (record dag { nodes = after }, ends, outcome after c)
  where
    outcome :
        (after : List Node)
        → Cascaded dag.nodes after
        → ((summarize_dag (record dag { nodes = after })).done ≡ true)
          ⊎ ((id : String) × Memᴰ id (summarize_dag (record dag { nodes = after })).ready)
          ⊎ ((id : String) × Memᴰ id (summarize_dag (record dag { nodes = after })).in_flight)
    outcome after c = elim (Bool-cases (all (λ (n : Node). is_terminal n.status) after)) [
      | inl done ↦ inl done
      | inr waiting ↦
          let (n, here, running) = not_all (λ (n : Node). is_terminal n.status) after waiting in
          elim (open-Moves after rank (Steps-IsAcyclic rank c.steps acyclic) c.settled
            (suc (rank n.id)) n (omega arith) here running) [
              | starts m there ready ↦ inr (
                  inl (
                    m.id,
                    mem-map_id m _ ((Memᴰ-filter (is_ready_node after) m after).1 (there, ready)),
                  ))
              | runs m there busy ↦
                  inr (
                    inr (m.id, mem-map_id m _ ((Memᴰ-filter is_in_flight m after).1 (there, busy))))
            ]
    ]
