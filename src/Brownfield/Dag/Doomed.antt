-- ===== src/Brownfield/Dag/Doomed.antt =====
-- Which nodes `cascadeSkip` skips: those that depend, over open nodes, on one that failed or was
-- skipped, and no others.
use legion_cli.Prelude.{
  ◌≡◌, refl, sym, ap, ◌∙◌, ◌⊎◌, inl, inr, Bool, true, false, Option, none, some, List, [], ◌∷◌,
  ◌++◌, Memᴰ, String, arith, ◌==◌, ==_iff, string_eq, Bool-cases, Option-cases,
}
use legion_cli.Brownfield.Dag.{Node, NodeStatus, is_terminal, is_bad, find_node, status_is, skip}
use legion_cli.Brownfield.Dag.Cascade.{Step, Steps, still, more, IsSettled, find_bad-none}

-- The node named `id` cannot complete: it failed or was skipped, or it is open and depends on one
-- that cannot.
pub data Doomed (nodes : List Node) : String → Type 0 where
  fallen : {id : String} → status_is is_bad nodes id ≡ true → Doomed nodes id
  behind :
      {id dep : String} (n : Node)
      → find_node nodes id ≡ some n
      → is_terminal n.status ≡ false
      → Memᴰ dep n.depends_on
      → Doomed nodes dep
      → Doomed nodes id

-- A node of the input and the one that stands under its name later: the same dependencies, and
-- the same status unless it was skipped.
abbrev pub Related : Option Node → Option Node → Type 0
Related none none = Unit {0}
Related (some m) (some n) =
    (n.depends_on ≡ m.depends_on) × ((n.status ≡ m.status) ⊎ (is_bad n.status ≡ true))
Related _ _ = ⊥

find-replace :
    (id : String) (before : List Node) (n : Node) (bad : String) (rest : List Node)
    → (find_node (before ++ skip n bad ∷ rest) id ≡ find_node (before ++ n ∷ rest) id)
      ⊎ ((find_node (before ++ n ∷ rest) id ≡ some n)
          × (find_node (before ++ skip n bad ∷ rest) id ≡ some (skip n bad)))
unfolding find_node
find-replace id [] n bad rest = ground arith
find-replace id (x ∷ before) n bad rest = ground (arith, find-replace id before n bad rest)

Related-refl : (o : Option Node) → Related o o
Related-refl none = tt
Related-refl (some n) = (refl, inl refl)

Related-skip :
    (o : Option Node) (n : Node) (bad : String) → Related o (some n) → Related o (some (skip n bad))
Related-skip none n bad r = r
Related-skip (some m) n bad r = (r.0, inr refl)

pub is_terminal_of_is_bad : (s : NodeStatus) → is_bad s ≡ true → is_terminal s ≡ true
is_terminal_of_is_bad s h = ground arith

pub record Inv (nodes now : List Node) : Type 0 where
  pub same : (id : String) → Related (find_node nodes id) (find_node now id)
  pub sound : (id : String) → status_is is_bad now id ≡ true → Doomed nodes id

status_is-cong :
    (xs ys : List Node) (id : String)
    → find_node xs id ≡ find_node ys id
    → status_is is_bad xs id ≡ true
    → status_is is_bad ys id ≡ true
unfolding status_is
status_is-cong xs ys id e h = rw (e, status_is) at h

pub status_is-found :
    (p : NodeStatus → Bool) (nodes : List Node) (id : String) {n : Node}
    → find_node nodes id ≡ some n
    → status_is p nodes id ≡ p n.status
unfolding status_is
status_is-found p nodes id e = rw (e, status_is)

pub status_is-some :
    (p : NodeStatus → Bool) (nodes : List Node) (id : String)
    → status_is p nodes id ≡ true
    → (n : Node) × (find_node nodes id ≡ some n) × (p n.status ≡ true)
unfolding status_is
status_is-some p nodes id h = elim (Option-cases (find_node nodes id)) [
  | inl gone ↦ cc (rw (gone, status_is) at h)
  | inr (n, found) ↦ (n, found, rw (found, status_is) at h)
]

pub mem-find_node :
    (nodes : List Node) (id : String) (n : Node)
    → find_node nodes id ≡ some n
    → Memᴰ n nodes × (n.id ≡ id)
unfolding find_node
mem-find_node [] id n h = cc
mem-find_node (x ∷ xs) id n h = elim (Option-cases (find_node xs id)) [
  | inl gone ↦ elim (Bool-cases (x.id == id)) [
    | inl here ↦
        let e : x ≡ n = ground arith in
        (Memᴰ.head (sym e), ap (λ (y : Node). y.id) (sym e) ∙ (==_iff x.id id).0 here)
    | inr other ↦ cc (rw (gone, other, find_node) at h)
  ]
  | inr (m, found) ↦
      let (there, named) = mem-find_node xs id n (found ∙ rw (found, find_node) at h) in
      (Memᴰ.tail there, named)
]

module _ (nodes : List Node) where
  Inv-start : Inv nodes nodes
  Inv-start = record { same = λ id. Related-refl (find_node nodes id); sound = λ id h. fallen h }

  -- The node that a step skips was open in the input too, and its dependency is doomed.
  Doomed-skip :
      {now : List Node} {id dep : String} (n : Node)
      → Inv nodes now
      → find_node now id ≡ some n
      → is_terminal n.status ≡ false
      → Memᴰ dep n.depends_on
      → Doomed nodes dep
      → Doomed nodes id
  Doomed-skip {now} {id} n v found running needs d = elim (Option-cases (find_node nodes id)) [
    | inl gone ↦ absurd (rw (found, gone) at (v.same id))
    | inr (m, was) ↦
        let (deps, kept) = rw (found, was) at (v.same id) in
        elim kept [
          | inl status ↦ behind m was (rw status at running) (rw deps at needs) d
          | inr bad ↦ cc (is_terminal_of_is_bad n.status bad)
        ]
  ]

  Step-Inv : {now after : List Node} → Inv nodes now → Step now after → Inv nodes after
  Step-Inv {now} {after} v s = record { same = same; sound = sound }
    where
      open s use {before, node, rest, bad, split, skips, running, needs, fell}

      change :
          (id : String)
          → (find_node after id ≡ find_node now id)
            ⊎ ((find_node now id ≡ some node) × (find_node after id ≡ some (skip node bad)))
      change id = rw (split, skips) (find-replace id before node bad rest)

      same : (id : String) → Related (find_node nodes id) (find_node after id)
      same id = elim (change id) [
        | inl kept ↦ rw kept (v.same id)
        | inr (was, is) ↦ rw is (Related-skip (find_node nodes id) node bad (rw was at (v.same id)))
      ]

      sound : (id : String) → status_is is_bad after id ≡ true → Doomed nodes id
      sound id h = elim (change id) [
        | inl kept ↦ v.sound id (status_is-cong after now id kept h)
        | inr (was, is) ↦ Doomed-skip node v was running needs (v.sound bad fell)
      ]

  pub Steps-Inv : {now : List Node} → Steps nodes now → Inv nodes now
  Steps-Inv still = Inv-start
  Steps-Inv (more p s) = Step-Inv (Steps-Inv p) s

  -- To show that `id` has fallen, show it where its status is still that of the input.
  falls_from :
      {now : List Node} (id : String)
      → Inv nodes now
      → (m : Node) → find_node nodes id ≡ some m
      → ((n : Node)
          → find_node now id ≡ some n
          → n.status ≡ m.status
          → n.depends_on ≡ m.depends_on
          → status_is is_bad now id ≡ true)
      → status_is is_bad now id ≡ true
  falls_from {now} id v m was unchanged = elim (Option-cases (find_node now id)) [
    | inl gone ↦ absurd (rw (gone, was) at (v.same id))
    | inr (n, found) ↦
        let (deps, kept) = rw (found, was) at (v.same id) in
        elim kept [
          | inl status ↦ unchanged n found status deps
          | inr bad ↦ status_is-found is_bad now id found ∙ bad
        ]
  ]

  -- What is doomed has failed or is skipped once nothing open waits on a fallen node.
  pub Doomed-falls :
      {now : List Node} {id : String}
      → Inv nodes now
      → ((n : Node) → Memᴰ n now → IsSettled now n)
      → Doomed nodes id
      → status_is is_bad now id ≡ true
  Doomed-falls {now} {id} v settled (fallen h) =
      let (m, was, bad) = status_is-some is_bad nodes id h in
      falls_from id v m was
        (λ n found status deps. status_is-found is_bad now id found ∙ rw status bad)
  Doomed-falls {now} v settled (behind {id} {dep} m was running needs d) =
      let fell = Doomed-falls v settled d in
      falls_from id v m was λ n found status deps.
        elim (settled n (mem-find_node now id n found).0) [
          | inl over ↦ cc (rw status at over)
          | inr none_bad ↦
              cc (find_bad-none now n.depends_on dep none_bad (rw (← deps) at needs), fell)
        ]
