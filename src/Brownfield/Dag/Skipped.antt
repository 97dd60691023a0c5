-- ===== src/Brownfield/Dag/Skipped.antt =====
-- What `cascadeSkip` makes of each node: which it leaves as they are, and what it writes in the others.
use Prim.Native.String
use legion_cli.Prelude.{
  ◌≡◌, refl, sym, ap, subst, ◌↔◌, ◌⊎◌, inl, inr, true, false, some, List, [], ◌∷◌, ◌++◌, Memᴰ,
  String, string_eq,
}
use legion_cli.Brownfield.Dag.{
  Node, Dag, skipped, is_terminal, is_bad, status_is, skip, cascade_skip,
}
use legion_cli.Brownfield.Dag.Cascade.{
  Steps, still, more, IsSettled, find_bad-none, cascade_skip_returns,
}
use legion_cli.Brownfield.Dag.Doomed.{Doomed, Inv, Steps-Inv, Doomed-falls}

-- The lists have the same length, and what stands at the same place is related.
pub data Each {A : Type 0} (R : A → A → Type 0) : List A → List A → Type 0 where
  ended : Each R [] []
  both : {x y : A} {xs ys : List A} → R x y → Each R xs ys → Each R (x ∷ xs) (y ∷ ys)

Each-refl : {A : Type 0} {R : A → A → Type 0} → ((x : A) → R x x) → (xs : List A) → Each R xs xs
Each-refl same [] = ended
Each-refl same (x ∷ xs) = both (same x) (Each-refl same xs)

Each-replace :
    {A : Type 0} {R : A → A → Type 0} (before : List A) (y z : A) (rest : List A)
    → ((x : A) → R x y → R x z)
    → {xs : List A} → Each R xs (before ++ y ∷ rest)
    → Each R xs (before ++ z ∷ rest)
Each-replace [] y z rest f (both {x} r e) = both (f x r) e
Each-replace (b ∷ before) y z rest f (both r e) = both r (Each-replace before y z rest f e)

Each-map :
    {A : Type 0} {R Q : A → A → Type 0} {xs ys : List A}
    → ((x y : A) → Memᴰ y ys → R x y → Q x y)
    → Each R xs ys
    → Each Q xs ys
Each-map f ended = ended
Each-map f (both {x} {y} r e) =
    both (f x y (Memᴰ.head refl) r) (Each-map (λ a b m. f a b (Memᴰ.tail m)) e)

-- The node was open and cannot complete, for a dependency of it cannot: it is marked as skipped, with
-- such a dependency in its error, and is otherwise the same.
pub record Skips (nodes : List Node) (n after : Node) : Type 0 where
  pub running : is_terminal n.status ≡ false
  pub bad : String
  pub needs : Memᴰ bad n.depends_on
  pub doomed : Doomed nodes bad
  pub written : after ≡ record n {
    status = skipped;
    error = some (String.◌++◌ (String.◌++◌ "Skipped: dependency " bad) " did not complete");
  }

-- The node is left as it is: it was over, or none of its dependencies is kept from completing.
pub record Stays (nodes : List Node) (n after : Node) : Type 0 where
  pub same : after ≡ n
  pub free :
      (is_terminal n.status ≡ true) ⊎ ((dep : String) → Memᴰ dep n.depends_on → ¬ Doomed nodes dep)

module _ (nodes : List Node) where
  abbrev Kept : Node → Node → Type 0
  Kept n after = (after ≡ n) ⊎ Skips nodes n after

  Kept-skip :
      (n node : Node) (bad : String)
      → is_terminal node.status ≡ false
      → Memᴰ bad node.depends_on
      → Doomed nodes bad
      → Kept n node
      → Kept n (skip node bad)
  Kept-skip n node bad running needs doomed (inl e) = inr record {
    running = subst (λ (x : Node). is_terminal x.status ≡ false) e running;
    bad = bad;
    needs = subst (λ (x : Node). Memᴰ bad x.depends_on) e needs;
    doomed = doomed;
    written = ap (λ x. skip x bad) e;
  }
  Kept-skip n node bad running needs doomed (inr s) =
      let over : is_terminal node.status ≡ true =
        ap (λ (x : Node). is_terminal x.status) s.written in
      cc

  Steps-Kept : {now : List Node} → Steps nodes now → Each Kept nodes now
  Steps-Kept still = Each-refl (λ n. inl refl) nodes
  Steps-Kept (more {mid} {after} p s) =
      let v = Steps-Inv nodes p in
      let earlier : Each Kept nodes (s.before ++ s.node ∷ s.rest) =
        subst (λ l. Each Kept nodes l) s.split (Steps-Kept p) in
      subst (λ l. Each Kept nodes l) (sym s.skips)
        (Each-replace s.before s.node (skip s.node s.bad) s.rest
          (λ n k. Kept-skip n s.node s.bad s.running s.needs (v.sound s.bad s.fell) k) earlier)

  Kept-cases :
      {now : List Node}
      → Inv nodes now
      → ((n : Node) → Memᴰ n now → IsSettled now n)
      → (n after : Node) → Memᴰ after now
      → Kept n after
      → Stays nodes n after ⊎ Skips nodes n after
  Kept-cases v settled n after m (inr s) = inr s
  Kept-cases {now} v settled n after m (inl e) = inl record {
    same = e;
    free = elim (subst (λ x. IsSettled now x) e (settled after m)) [
      | inl over ↦ inl over
      | inr none_bad ↦ inr (λ dep needs d.
          let fell = Doomed-falls nodes v settled d in
          let fine = find_bad-none now n.depends_on dep none_bad needs in cc)
    ];
  }

-- `cascadeSkip` ends, and makes of each node, in its place, exactly one of two things. A node that is
-- open and depends on one that cannot complete is marked as skipped, with the name of such a
-- dependency in its error, and is otherwise unchanged. Every other node stays the same: those that
-- were over, and those none of whose dependencies is kept from completing. A node cannot complete
-- when it failed or was skipped, or is open and depends on one that cannot. Nothing but the nodes
-- changes, and an id names a failed or skipped node of the result exactly if it is one of those.
pub cascade_skip_nodes :
    (dag : Dag)
    → (after : List Node) × (cascade_skip dag ≡ some (record dag { nodes = after }))
      × Each (λ n m. Stays dag.nodes n m ⊎ Skips dag.nodes n m) dag.nodes after
      × ((id : String) → (status_is is_bad after id ≡ true) ↔ Doomed dag.nodes id)
cascade_skip_nodes dag =
    let (after, ends, c) = cascade_skip_returns dag in
    let v = Steps-Inv dag.nodes c.steps in
    (
      after,
      ends,
      Each-map (λ n m here k. Kept-cases dag.nodes v c.settled n m here k)
          (Steps-Kept dag.nodes c.steps),
      λ id. (v.sound id, Doomed-falls dag.nodes v c.settled),
    )
