-- ===== src/Brownfield/Dag/Cascade.antt =====
-- What one round of `cascadeSkip` does, as single skips, and that the rounds come to an end.
use mathlib.Core.List.{append_assoc, append-nil}
use legion_cli.Prelude.{
  ℕ, zero, suc, ◌+◌, ◌≤◌, ◌<◌, ◌≡◌, refl, sym, ap, ◌∙◌, subst, ◌⊎◌, inl, inr, true, false, none,
  some, List, [], ◌∷◌, ◌++◌, Memᴰ, String, arith, length, string_eq, Bool-cases, Option-cases,
  Memᴰ-cons, if◌then◌else◌,
}
use legion_cli.Brownfield.Dag.{
  Node, Dag, is_terminal, is_bad, status_is, find_bad, skip, visit, sweep, cascade, cascade_skip,
}

-- `after` is `nodes` with one open node skipped, for a dependency that failed or was skipped.
pub record Step (nodes after : List Node) : Type 0 where
  pub before : List Node
  pub node : Node
  pub rest : List Node
  pub bad : String
  pub split : nodes ≡ before ++ node ∷ rest
  pub skips : after ≡ before ++ skip node bad ∷ rest
  pub running : is_terminal node.status ≡ false
  pub needs : Memᴰ bad node.depends_on
  pub fell : status_is is_bad nodes bad ≡ true

pub data Steps (nodes : List Node) : List Node → Type 0 where
  still : Steps nodes nodes
  more : {mid after : List Node} → Steps nodes mid → Step mid after → Steps nodes after

pub find_bad-some :
    (nodes : List Node) (deps : List String) (bad : String)
    → find_bad nodes deps ≡ some bad
    → Memᴰ bad deps × (status_is is_bad nodes bad ≡ true)
unfolding find_bad
find_bad-some nodes [] bad h = cc
find_bad-some nodes (d ∷ ds) bad h = elim (Bool-cases (status_is is_bad nodes d)) [
  | inl fell ↦
      let same : d ≡ bad = ground arith in
      (Memᴰ.head (sym same), subst (λ x. status_is is_bad nodes x ≡ true) same fell)
  | inr fine ↦ let (m, fell) = find_bad-some nodes ds bad (ground arith) in (Memᴰ.tail m, fell)
]

pub find_bad-none :
    (nodes : List Node) (deps : List String) (dep : String)
    → find_bad nodes deps ≡ none
    → Memᴰ dep deps
    → status_is is_bad nodes dep ≡ false
unfolding find_bad
find_bad-none nodes [] dep h m = elim m [ ]
find_bad-none nodes (d ∷ ds) dep h (Memᴰ.head e) = rw e (ground arith)
find_bad-none nodes (d ∷ ds) dep h (Memᴰ.tail m) =
    ground (arith, find_bad-none nodes ds dep (ground arith) m)

-- A node waits on nothing that fell: it is over, or no dependency failed or was skipped.
abbrev pub IsSettled : List Node → Node → Type 0
IsSettled nodes n = (is_terminal n.status ≡ true) ⊎ (find_bad nodes n.depends_on ≡ none)

visit_cases :
    (nodes : List Node) (n : Node)
    → ((visit nodes n ≡ (n, false)) × IsSettled nodes n)
      ⊎ ((bad : String) × (visit nodes n ≡ (skip n bad, true))
          × (is_terminal n.status ≡ false)
          × (find_bad nodes n.depends_on ≡ some bad))
unfolding visit
visit_cases nodes n = elim (Bool-cases (is_terminal n.status)) [
  | inl over ↦ inl (rw over, inl over)
  | inr running ↦ elim (Option-cases (find_bad nodes n.depends_on)) [
    | inl fine ↦ inl (rw (running, fine), inr fine)
    | inr (bad, fell) ↦ inr (bad, rw (running, fell), running, fell)
  ]
]

trans : {a b c : List Node} → Steps a b → Steps b c → Steps a c
trans p still = p
trans p (more q s) = more (trans p q) s

regroup :
    (before : List Node) (n : Node) (rest : List Node)
    → (before ++ n ∷ []) ++ rest ≡ before ++ n ∷ rest
regroup before n rest = append_assoc before (n ∷ []) rest

sweep-Steps : (before l : List Node) → Steps (before ++ l) (sweep before l).0
unfolding sweep
sweep-Steps before [] = rw append-nil still
sweep-Steps before (n ∷ rest) = elim (visit_cases (before ++ n ∷ rest) n) [
  | inl (quiet, _) ↦ rw quiet (
      subst (λ l. Steps l (sweep (before ++ n ∷ []) rest).0) (regroup before n rest)
        (sweep-Steps (before ++ n ∷ []) rest))
  | inr (bad, skips, running, fell) ↦
      let (needs, down) = find_bad-some (before ++ n ∷ rest) n.depends_on bad fell in
      let first : Step (before ++ n ∷ rest) ((before ++ skip n bad ∷ []) ++ rest) = record {
        before = before;
        node = n;
        rest = rest;
        bad = bad;
        split = refl;
        skips = regroup before (skip n bad) rest;
        running = running;
        needs = needs;
        fell = down;
      } in
      rw skips (trans (more still first) (sweep-Steps (before ++ skip n bad ∷ []) rest))
]

-- A round that changes nothing finds every node settled.
sweep_quiet :
    (before l : List Node)
    → (sweep before l).1 ≡ false
    → ((sweep before l).0 ≡ before ++ l) × ((n : Node) → Memᴰ n l → IsSettled (before ++ l) n)
unfolding sweep
sweep_quiet before [] h = (sym (append-nil before), λ n m. elim m [ ])
sweep_quiet before (n ∷ rest) h = elim (visit_cases (before ++ n ∷ rest) n) [
  | inl (quiet, settled) ↦
      let (same, all) = sweep_quiet (before ++ n ∷ []) rest (rw (quiet, sweep) at h) in
      (
        rw quiet (same ∙ regroup before n rest),
        λ x m. elim ((Memᴰ-cons x n rest).0 m) [
          | inl e ↦ rw e settled
          | inr later ↦ subst (λ l. IsSettled l x) (regroup before n rest) (all x later)
        ],
      )
  | inr (bad, skips, _, _) ↦ cc (rw (skips, sweep) at h)
]

-- The nodes that a skip could still reach.
abbrev pub open_count : List Node → ℕ
open_count [] = 0
open_count (n ∷ ns) = if is_terminal n.status then open_count ns else suc (open_count ns)

open_count-append : (xs ys : List Node) → open_count (xs ++ ys) ≡ open_count xs + open_count ys
open_count-append [] ys = omega arith
open_count-append (x ∷ xs) ys = ground (arith, open_count-append xs ys)

open_count-le : (xs : List Node) → open_count xs ≤ length xs
open_count-le [] = omega arith
open_count-le (x ∷ xs) = ground (arith, open_count-le xs)

Step-falls : {a b : List Node} → Step a b → suc (open_count b) ≡ open_count a
Step-falls s =
    rw (s.split, s.skips) ground
      (
        arith,
        open_count-append s.before (s.node ∷ s.rest),
        open_count-append s.before (skip s.node s.bad ∷ s.rest),
        s.running,
      )

Steps-fall : {a b : List Node} → Steps a b → open_count b ≤ open_count a
Steps-fall still = omega arith
Steps-fall (more p s) = omega (arith, Steps-fall p, Step-falls s)

skip_counts :
    (n : Node) (bad : String) (rest : List Node)
    → is_terminal n.status ≡ false
    → suc (open_count (skip n bad ∷ rest)) ≡ open_count (n ∷ rest)
skip_counts n bad rest h = ground arith

sweep_falls :
    (before l : List Node)
    → (sweep before l).1 ≡ true
    → open_count (sweep before l).0 < open_count (before ++ l)
unfolding sweep
sweep_falls before [] h = cc
sweep_falls before (n ∷ rest) h = elim (visit_cases (before ++ n ∷ rest) n) [
  | inl (quiet, _) ↦
      rw (quiet, ← regroup before n rest)
        (sweep_falls (before ++ n ∷ []) rest (rw (quiet, sweep) at h))
  | inr (bad, skips, running, fell) ↦ rw skips omega (
    arith,
    Steps-fall (sweep-Steps (before ++ skip n bad ∷ []) rest),
    ap open_count (regroup before (skip n bad) rest),
    open_count-append before (n ∷ rest),
    open_count-append before (skip n bad ∷ rest),
    skip_counts n bad rest running,
  )
]

-- What the loop leaves behind.
pub record Cascaded (nodes after : List Node) : Type 0 where
  pub steps : Steps nodes after
  pub settled : (n : Node) → Memᴰ n after → IsSettled after n

cascade_ends :
    (fuel : ℕ) (nodes : List Node)
    → open_count nodes < fuel
    → (after : List Node) × (cascade fuel nodes ≡ some after) × Cascaded nodes after
unfolding cascade
cascade_ends zero nodes h = absurd (omega arith)
cascade_ends (suc fuel) nodes h = elim (Bool-cases (sweep [] nodes).1) [
  | inl changed ↦
      let (after, ends, c) =
        cascade_ends fuel (sweep [] nodes).0 (omega (arith, sweep_falls [] nodes changed)) in
      (
        after,
        rw changed ends,
        record { steps = trans (sweep-Steps [] nodes) c.steps; settled = c.settled },
      )
  | inr quiet ↦
      let (same, settled) = sweep_quiet [] nodes quiet in
      (nodes, rw quiet (ap some same), record { steps = still; settled = settled })
]

-- `cascadeSkip` ends: as many rounds as there are nodes, and one more, are enough.
pub cascade_skip_returns :
    (dag : Dag)
    → (after : List Node) × (cascade_skip dag ≡ some (record dag { nodes = after }))
      × Cascaded dag.nodes after
unfolding cascade_skip
cascade_skip_returns dag =
    let (after, ends, c) =
      cascade_ends (suc (length dag.nodes)) dag.nodes (omega (arith, open_count-le dag.nodes)) in
    (after, rw (ends, cascade_skip), c)
