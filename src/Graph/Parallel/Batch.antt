-- ===== src/Graph/Parallel/Batch.antt =====
-- What `selectParallelTasks` chooses.
use legion_cli.Prelude.{
  ℕ, ◌+◌, ◌≤◌, ◌≡◌, ◌↔◌, ◌⊎◌, inl, inr, refl, sym, subst, Bool, true, false, List, [], ◌∷◌, ◌++◌,
  Memᴰ, Memᴰ-cons, Memᴰ-append, Memᴰ-nil, length, length-append, all, any, all_iff, any-eq-false,
  leb, min, max, arith, Bool-cases,
}
use mathlib.Core.Path.{subst₂}
use legion_cli.Text.{Text}
use legion_cli.Graph.Tasks.{Task}
use legion_cli.Graph.Parallel.{
  owned_paths, paths_conflict, contracts_are_disjoint, select_from, select_parallel_tasks,
}

module _ (lower : Text → Text) where
  -- No path of one task is, contains or lies in a path of the other, and neither has a wildcard.
  abbrev pub Disjoint : Task → Task → Type 0
  Disjoint o t =
      (p q : Text)
      → Memᴰ p (owned_paths lower o.contract)
      → Memᴰ q (owned_paths lower t.contract)
      → paths_conflict p q ≡ false

  contracts_are_disjoint_iff :
      (o t : Task) → (contracts_are_disjoint lower o.contract t.contract ≡ true) ↔ Disjoint o t
  unfolding contracts_are_disjoint
  contracts_are_disjoint_iff o t =
      let left = owned_paths lower o.contract in
      let right = owned_paths lower t.contract in
      let outer = any-eq-false (λ a. any (λ b. paths_conflict a b) right) left in
      (
        λ h p q m n.
            (any-eq-false (λ b. paths_conflict p b) right).0 (outer.0 (ground arith) p m) q n,
        λ h.
            let none_conflicts =
              outer.1
                (λ p m. (any-eq-false (λ b. paths_conflict p b) right).1 (λ q n. h p q m n)) in
            ground arith,
      )

  -- Tasks one after the other, each apart from all before it.
  pub data Batch : List Task → Type 0 where
    start : Batch []
    also :
        {ts : List Task} (t : Task)
        → Batch ts
        → ((o : Task) → Memᴰ o ts → Disjoint o t)
        → Batch (ts ++ t ∷ [])

  -- Some chosen task is not apart from `t`.
  abbrev pub Blocked : List Task → Task → Type 0
  Blocked chosen t =
      (o : Task) × Memᴰ o chosen × (contracts_are_disjoint lower o.contract t.contract ≡ false)

  -- A choice of at most `limit` tasks of `offered` that leaves nothing out without a reason.
  abbrev pub Choice : ℕ → List Task → List Task → Type 0
  Choice limit offered chosen =
      Batch chosen
      × (length chosen ≤ limit)
      × ((t : Task) → Memᴰ t chosen → Memᴰ t offered)
      × ((t : Task) → Memᴰ t offered → Memᴰ t chosen ⊎ (length chosen ≡ limit) ⊎ Blocked chosen t)

  module _ (limit : ℕ) where
    -- `offered` are the tasks that the loop has seen.
    step_full :
        (offered chosen ready : List Task)
        → limit ≤ length chosen
        → Choice limit offered chosen
        → Choice limit (offered ++ ready) chosen
    step_full offered chosen ready full (b, l, s, c) =
        (b, l, λ t m. (Memᴰ-append t offered ready).1 (inl (s t m)), λ t m. inr (inl (omega arith)))

    mem_last : (x t : Task) (ts : List Task) → Memᴰ x (ts ++ t ∷ []) ↔ (Memᴰ x ts ⊎ (x ≡ t))
    mem_last x t ts = ground (arith, Memᴰ-append x ts (t ∷ []), Memᴰ-cons x t [], Memᴰ-nil x)

    step_fits :
        (offered chosen : List Task) (t : Task)
        → length chosen + 1 ≤ limit
        → ((o : Task) → Memᴰ o chosen → Disjoint o t)
        → Choice limit offered chosen
        → Choice limit (offered ++ t ∷ []) (chosen ++ t ∷ [])
    step_fits offered chosen t room apart (b, l, s, c) = (
      also t b apart,
      omega (arith, length-append chosen (t ∷ [])),
      λ x m. elim ((mem_last x t chosen).0 m) [
        | inl old ↦ (mem_last x t offered).1 (inl (s x old))
        | inr new ↦ (mem_last x t offered).1 (inr new)
      ],
      λ x m. elim ((mem_last x t offered).0 m) [
        | inr new ↦ inl ((mem_last x t chosen).1 (inr new))
        | inl old ↦ elim (c x old) [
          | inl picked ↦ inl ((mem_last x t chosen).1 (inl picked))
          | inr (inl full) ↦ absurd (omega arith)
          | inr (inr (o, n, clash)) ↦ inr (inr (o, (mem_last o t chosen).1 (inl n), clash))
        ]
      ],
    )

    step_clash :
        (offered chosen : List Task) (t : Task)
        → Blocked chosen t
        → Choice limit offered chosen
        → Choice limit (offered ++ t ∷ []) chosen
    step_clash offered chosen t (o, n, clash) (b, l, s, c) = (
      b,
      l,
      λ x m. (mem_last x t offered).1 (inl (s x m)),
      λ x m. elim ((mem_last x t offered).0 m) [
        | inl old ↦ c x old
        | inr new ↦ inr (
            inr (
              o,
              n,
              subst (λ y. contracts_are_disjoint lower o.contract y.contract ≡ false) (sym new)
                  clash,
            ))
      ],
    )

    append_last : (xs : List Task) (t : Task) (ys : List Task) → (xs ++ t ∷ []) ++ ys ≡ xs ++ t ∷ ys
    append_last [] t ys = refl
    append_last (x ∷ xs) t ys = rw (append_last xs t ys) refl

    append_nil : (xs : List Task) → xs ++ [] ≡ xs
    append_nil [] = refl
    append_nil (x ∷ xs) = rw (append_nil xs) refl

    abbrev apart_from : List Task → Task → Bool
    apart_from chosen t =
        all (λ (o : Task). contracts_are_disjoint lower o.contract t.contract) chosen

    apart_from-Disjoint :
        (chosen : List Task) (t : Task)
        → apart_from chosen t ≡ true
        → (o : Task) → Memᴰ o chosen
        → Disjoint o t
    apart_from-Disjoint chosen t h o m =
        (contracts_are_disjoint_iff o t).0 ((all_iff _ chosen).0 h o m)

    apart_from-Blocked :
        (chosen : List Task) (t : Task) → apart_from chosen t ≡ false → Blocked chosen t
    apart_from-Blocked [] t h = cc
    apart_from-Blocked (o ∷ chosen) t h =
        elim (Bool-cases (contracts_are_disjoint lower o.contract t.contract)) [
          | inr clash ↦ (o, Memᴰ.head refl, clash)
          | inl fits ↦
              let (x, m, clash) = apart_from-Blocked chosen t (rw fits at h) in
              (x, Memᴰ.tail m, clash)
        ]

    -- From any choice among the tasks seen, the loop makes one among all of them.
    abbrev Extends : List Task → Type 0
    Extends ready =
        (offered chosen : List Task)
        → Choice limit offered chosen
        → Choice limit (offered ++ ready) (select_from lower limit chosen ready)

    Extends-cons : (t : Task) (ready : List Task) → Extends ready → Extends (t ∷ ready)
    unfolding select_from
    Extends-cons t ready more offered chosen h =
        let all_seen = append_last offered t ready in
        elim (Bool-cases (leb limit (length chosen))) [
          | inl full ↦
              let same : select_from lower limit chosen (t ∷ ready) ≡ chosen = simp full in
              subst (λ r. Choice limit (offered ++ t ∷ ready) r) (sym same)
                (step_full offered chosen (t ∷ ready) (ground arith) h)
          | inr room ↦ elim (Bool-cases (apart_from chosen t)) [
            | inl fits ↦
                let same : select_from lower limit chosen (t ∷ ready)
                    ≡ select_from lower limit (chosen ++ t ∷ []) ready =
                  simp (room, fits) in
                subst₂ (λ l r. Choice limit l r) all_seen (sym same)
                  (more (offered ++ t ∷ []) (chosen ++ t ∷ []) (
                    step_fits offered chosen t (ground arith) (apart_from-Disjoint chosen t fits)
                      h))
            | inr clash ↦
                let same : select_from lower limit chosen (t ∷ ready)
                    ≡ select_from lower limit chosen ready =
                  simp (room, clash) in
                subst₂ (λ l r. Choice limit l r) all_seen (sym same)
                  (more (offered ++ t ∷ []) chosen
                    (step_clash offered chosen t (apart_from-Blocked chosen t clash) h))
          ]
        ]

    select_from-Extends : (ready : List Task) → Extends ready
    unfolding select_from
    select_from-Extends [] offered chosen h =
        subst (λ l. Choice limit l chosen) (sym (append_nil offered)) h
    select_from-Extends (t ∷ ready) offered chosen h =
        Extends-cons t ready (select_from-Extends ready) offered chosen h

-- Of any tasks that are ready, the selection takes some, at most as many as there are workers but
-- one at least and four at most, of which any two own disjoint paths. A ready task is left out only
-- where the selection is full or holds a task that is not disjoint from it.
pub select_parallel_tasks-Choice :
    (lower : Text → Text) (ready : List Task) (max_workers : ℕ)
    → Choice lower (max 1 (min 4 max_workers)) ready (select_parallel_tasks lower ready max_workers)
unfolding select_parallel_tasks
select_parallel_tasks-Choice lower ready max_workers =
    select_from-Extends lower (max 1 (min 4 max_workers)) ready [] []
      (start, omega arith, λ t m. m, λ t m. inl m)
