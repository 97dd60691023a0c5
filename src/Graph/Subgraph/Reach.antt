-- ===== src/Graph/Subgraph/Reach.antt =====
-- The dependency subgraph is what the task waits for, over any number of steps.
use legion_cli.Prelude.{
  ℕ, zero, suc, ◌+◌, ◌≤◌, ◌<◌, ◌≡◌, ◌≢◌, ◌↔◌, ◌⊎◌, inl, inr, refl, sym, ◌∙◌, ap, subst, true, false,
  Option, none, some, List, [], ◌∷◌, contains, contains_iff, length, ◌==◌, ==_iff, nat_eq, list_eq,
  if◌then◌else◌, Memᴰ, Memᴰ-cons, Memᴰ-nil, arith, Bool-cases, Option-cases,
}
use legion_cli.Text.{Text}
use legion_cli.Graph.Tasks.{Task}
use legion_cli.Graph.Subgraph.{
  find_task, parents_of, is_passed_over, push_all, walk, count_parents, dependency_subgraph,
}

mem-push_all :
    (x : Text) (stack ps : List Text) → Memᴰ x (push_all stack ps) ↔ (Memᴰ x stack ⊎ Memᴰ x ps)
mem-push_all x stack [] = ground (arith, Memᴰ-nil x)
mem-push_all x stack (p ∷ ps) =
    ground (arith, mem-push_all x (p ∷ stack) ps, Memᴰ-cons x p stack, Memᴰ-cons x p ps)

length-push_all : (stack ps : List Text) → length (push_all stack ps) ≡ length stack + length ps
length-push_all stack [] = omega arith
length-push_all stack (p ∷ ps) = omega (arith, length-push_all (p ∷ stack) ps)

-- The parents of tasks that are not yet reached.
abbrev waiting : List Text → List Task → ℕ
waiting out [] = 0
waiting out (t ∷ ts) =
    if contains out t.id then waiting out ts else length t.blocked_by + waiting out ts

waiting-start : (ts : List Task) → waiting [] ts ≡ count_parents ts
waiting-start [] = refl
waiting-start (t ∷ ts) = omega (arith, waiting-start ts)

waiting_less :
    (id : Text) (out : List Text) (ts : List Task) → waiting (id ∷ out) ts ≤ waiting out ts
waiting_less id out [] = omega arith
waiting_less id out (t ∷ ts) = ground (arith, waiting_less id out ts)

waiting_found :
    (id : Text) (out : List Text) (ts : List Task) (found : Task)
    → contains out id ≡ false
    → find_task ts id ≡ some found
    → waiting (id ∷ out) ts + length found.blocked_by ≤ waiting out ts
unfolding find_task
waiting_found id out [] found new e = cc
waiting_found id out (t ∷ ts) found new e = elim (Option-cases (find_task ts id)) [
  | inr (later, l) ↦
      let same : some later ≡ some found = rw l at e in
      let rest = waiting_found id out ts found new (l ∙ same) in ground arith
  | inl last ↦ elim (Bool-cases (t.id == id)) [
    | inr other ↦ let impossible : none ≡ some found = simp (last, other) at e in cc
    | inl here ↦
        let same : some t ≡ some found = simp (last, here) at e in
        let is_found : t ≡ found = cc in
        let same_id : t.id ≡ id = (==_iff t.id id).0 here in
        let known : contains (id ∷ out) t.id ≡ true =
          (contains_iff (id ∷ out) t.id).1 (Memᴰ.head same_id) in
        let fresh : contains out t.id ≡ false = cc in
        let fewer = waiting_less id out ts in
        subst
          (λ (x : Task). waiting (id ∷ out) (t ∷ ts) + length x.blocked_by ≤ waiting out (t ∷ ts))
          is_found (ground arith)
  ]
]

waiting_visit :
    (id : Text) (out : List Text) (tasks : List Task)
    → contains out id ≡ false
    → waiting (id ∷ out) tasks + length (parents_of tasks id) ≤ waiting out tasks
unfolding parents_of
waiting_visit id out tasks new = elim (Option-cases (find_task tasks id)) [
  | inl e ↦
      let nobody : parents_of tasks id ≡ [] = rw (e, parents_of) refl in
      let zero_parents : length (parents_of tasks id) ≡ 0 = ap length nobody in
      let fewer = waiting_less id out tasks in omega arith
  | inr (t, e) ↦
      let theirs : parents_of tasks id ≡ t.blocked_by = rw (e, parents_of) refl in
      let same : length (parents_of tasks id) ≡ length t.blocked_by = ap length theirs in
      let found = waiting_found id out tasks t new e in omega arith
]

passed_over : (id : Text) (out : List Text) → is_passed_over id out ≡ true → (id ≡ []) ⊎ Memᴰ id out
unfolding is_passed_over
passed_over id out h = ground (arith, ==_iff id [], contains_iff out id)

not_passed_over :
    (id : Text) (out : List Text)
    → is_passed_over id out ≡ false
    → (id ≢ []) × (contains out id ≡ false)
unfolding is_passed_over
not_passed_over id out h = (λ e. ground (arith, ==_iff id []), ground arith)

module _ (tasks : List Task) where
  -- What a task waits for, over any number of steps, itself included.
  pub data Reach (root : Text) : Text → Type 0 where
    here : root ≢ [] → Reach root root
    further : {a b : Text} → Reach root a → Memᴰ b (parents_of tasks a) → b ≢ [] → Reach root b

  -- The loop has found only what the root waits for, and still holds all that it has to visit.
  record Sound (root : Text) (stack out : List Text) : Type 0 where
    found : (x : Text) → Memᴰ x out → Reach root x
    open_ids : (x : Text) → Memᴰ x stack → x ≢ [] → Reach root x
    closed :
        (x y : Text) → Memᴰ x out → Memᴰ y (parents_of tasks x) → y ≢ [] → Memᴰ y out ⊎ Memᴰ y stack
    rooted : root ≢ [] → Memᴰ root out ⊎ Memᴰ root stack

  Sound-skip :
      (root id : Text) (stack out : List Text)
      → (id ≡ []) ⊎ Memᴰ id out
      → Sound root (id ∷ stack) out
      → Sound root stack out
  Sound-skip root id stack out old s = record {
    found = s.found;
    open_ids = λ x m n. s.open_ids x (Memᴰ.tail m) n;
    closed = λ x y m p n. keep y n (s.closed x y m p n);
    rooted = λ n. keep root n (s.rooted n);
  }
    where
      keep : (y : Text) → y ≢ [] → Memᴰ y out ⊎ Memᴰ y (id ∷ stack) → Memᴰ y out ⊎ Memᴰ y stack
      keep y n (inl m) = inl m
      keep y n (inr (Memᴰ.tail m)) = inr m
      keep y n (inr (Memᴰ.head e)) = elim old [
        | inl empty ↦ absurd (n (e ∙ empty))
        | inr known ↦ inl (subst (λ z. Memᴰ z out) (sym e) known)
      ]

  Sound-visit :
      (root id : Text) (stack out : List Text)
      → id ≢ []
      → Sound root (id ∷ stack) out
      → Sound root (push_all stack (parents_of tasks id)) (id ∷ out)
  Sound-visit root id stack out n s = record {
    found = λ x m. elim m [
      | Memᴰ.head e ↦ subst (Reach root) (sym e) reached
      | Memᴰ.tail k ↦ s.found x k
    ];
    open_ids = λ x m k. elim ((pushed x).0 m) [
      | inl old ↦ s.open_ids x (Memᴰ.tail old) k
      | inr parent ↦ further reached parent k
    ];
    closed = λ x y m p k. elim m [
      | Memᴰ.head e ↦ inr ((pushed y).1 (inr (subst (λ z. Memᴰ y (parents_of tasks z)) e p)))
      | Memᴰ.tail old ↦ move y (s.closed x y old p k)
    ];
    rooted = λ k. move root (s.rooted k);
  }
    where
      reached : Reach root id
      reached = s.open_ids id (Memᴰ.head refl) n

      pushed :
          (x : Text)
          → Memᴰ x (push_all stack (parents_of tasks id))
            ↔ (Memᴰ x stack ⊎ Memᴰ x (parents_of tasks id))
      pushed x = mem-push_all x stack (parents_of tasks id)

      move :
          (y : Text)
          → Memᴰ y out ⊎ Memᴰ y (id ∷ stack)
          → Memᴰ y (id ∷ out) ⊎ Memᴰ y (push_all stack (parents_of tasks id))
      move y (inl m) = inl (Memᴰ.tail m)
      move y (inr (Memᴰ.head e)) = inl (Memᴰ.head e)
      move y (inr (Memᴰ.tail m)) = inr ((pushed y).1 (inl m))

  Sound-end :
      (root : Text) (out : List Text) → Sound root [] out → (x : Text) → Memᴰ x out ↔ Reach root x
  Sound-end root out s x = (s.found x, from x)
    where
      only : {y : Text} → Memᴰ y out ⊎ Memᴰ y [] → Memᴰ y out
      only (inl m) = m
      only (inr m) = elim m [ ]

      from : (y : Text) → Reach root y → Memᴰ y out
      from y (here n) = only (s.rooted n)
      from y (further {a} r p n) = only (s.closed a y (from a r) p n)

  Found : Text → Option (List Text) → Type 0
  Found root result =
      (out : List Text) × (result ≡ some out) × ((x : Text) → Memᴰ x out ↔ Reach root x)

  -- With more fuel than ids on the stack and parents that are not reached, the loop ends.
  walk-Found :
      (root : Text) (fuel : ℕ) (stack out : List Text)
      → length stack + waiting out tasks < fuel
      → Sound root stack out
      → Found root (walk tasks fuel stack out)
  unfolding walk Found
  walk-Found root zero stack out enough s = absurd (omega arith)
  walk-Found root (suc fuel) [] out enough s = (out, refl, Sound-end root out s)
  walk-Found root (suc fuel) (id ∷ stack) out enough s = elim (Bool-cases (is_passed_over id out)) [
    | inl old ↦
        let same : walk tasks (suc fuel) (id ∷ stack) out ≡ walk tasks fuel stack out =
          simp (old, walk) in
        let known : (id ≡ []) ⊎ Memᴰ id out = passed_over id out old in
        subst (Found root) (sym same)
          (walk-Found root fuel stack out (omega arith) (Sound-skip root id stack out known s))
    | inr new ↦
        let same : walk tasks (suc fuel) (id ∷ stack) out
            ≡ walk tasks fuel (push_all stack (parents_of tasks id)) (id ∷ out) =
          simp (new, walk) in
        let (named, fresh) = not_passed_over id out new in
        let fewer = waiting_visit id out tasks fresh in
        let pushed = length-push_all stack (parents_of tasks id) in
        subst (Found root) (sym same) (
          walk-Found root fuel (push_all stack (parents_of tasks id)) (id ∷ out) (omega arith)
            (Sound-visit root id stack out named s))
  ]

-- The walk ends, and the dependency subgraph that it returns holds exactly the ids that the task
-- waits for, over any number of steps through the parents that the tasks name, the task's own id
-- included: no cycle of dependencies keeps it from ending. An empty id counts as none.
pub dependency_subgraph_iff :
    (task : Task) (tasks : List Task)
    → (out : List Text) × (dependency_subgraph task tasks ≡ some out)
      × ((x : Text) → Memᴰ x out ↔ Reach tasks task.id x)
unfolding dependency_subgraph Found
dependency_subgraph_iff task tasks =
    walk-Found tasks task.id (2 + count_parents tasks) (task.id ∷ []) []
      (let start = waiting-start tasks in omega arith)
      (record {
        found = λ x m. elim m [ ];
        open_ids = λ x m n. only_root x m n;
        closed = λ x y m p n. elim m [ ];
        rooted = λ n. inr (Memᴰ.head refl);
      })
  where
    only_root : (x : Text) → Memᴰ x (task.id ∷ []) → x ≢ [] → Reach tasks task.id x
    only_root x (Memᴰ.head e) n = subst (Reach tasks task.id) (sym e) (here (λ k. n (e ∙ k)))
    only_root x (Memᴰ.tail m) n = elim m [ ]
