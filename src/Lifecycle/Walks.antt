-- ===== src/Lifecycle/Walks.antt =====
-- Walks through the phases and through the statuses of a task, along every edge that the engine may
-- write: the legal tables, `undo`, and the rollback of a failed ship.
use legion_cli.Prelude.{
  ℕ, suc, ◌≤◌, ◌<◌, ◌≡◌, refl, sym, ◌⊎◌, inl, inr, Bool, true, false, ◌||◌, some, List, [], ◌∷◌,
  Memᴰ, arith, contains, ◌==◌, subst, leb, if◌then◌else◌, nat_eq, option_eq,
}
use legion_cli.Lifecycle.{
  Phase, uninitialized, initialized, intent_draft, intent_ready, discussing, spec_draft,
  spec_frozen, planning, plan_failed, plan_ready, executing, ready_to_ship, shipped, abandoned,
  TaskStatus, todo, ready, in_progress, verifying, blocked, done, compacted, can_transition,
  undo_only_phase_transitions, ship_rollback_phase_transitions, can_transition_task_status,
  status_after_undo_dependency, phase_eq, status_eq,
}

-- The values that a state takes from its first to its last, each one edge after the other.
pub data Walk {A : Type 0} (step : A → A → Bool) : A → List A → A → Type 0 where
  stay : (a : A) → Walk step a (a ∷ []) a
  move :
      {a b c : A} {seen : List A} → step a b ≡ true → Walk step b seen c → Walk step a (a ∷ seen) c

le_or_lt : (k n : ℕ) → (k ≤ n) ⊎ (n < k)
le_or_lt k n = ground arith

-- If an edge that climbs leads to the landing of its level, and climbs one level or two with an
-- optional one between, then a walk passes the landing of each level that it climbs over and that is
-- not optional.
module _ {A : Type 0} (step : A → A → Bool) (level : A → ℕ) (landing : ℕ → A) (optional : ℕ → Bool)
    (climbs : (a b : A)
      → step a b ≡ true
      → (level b ≤ level a)
        ⊎ ((b ≡ landing (level b))
            × ((level b ≡ suc (level a))
                ⊎ ((level b ≡ suc (suc (level a))) × (optional (suc (level a)) ≡ true))))) where
  walk_head : {a c : A} {seen : List A} → Walk step a seen c → Memᴰ a seen
  walk_head (stay a) = Memᴰ.head refl
  walk_head (move h w) = Memᴰ.head refl

  -- A required level that an edge climbs to or over is the one that it leads to.
  required_level :
      (a b : A) (k : ℕ)
      → (level b ≡ suc (level a))
        ⊎ ((level b ≡ suc (suc (level a))) × (optional (suc (level a)) ≡ true))
      → optional k ≡ false
      → level a < k
      → k ≤ level b
      → level b ≡ k
  required_level a b k (inl one) need lo hi = omega arith
  required_level a b k (inr (two, may)) need lo hi = elim (le_or_lt k (suc (level a))) [
    | inr above ↦ omega arith
    | inl within ↦
        let skipped : k ≡ suc (level a) = omega arith in
        let both : optional k ≡ true = subst (λ n. optional n ≡ true) (sym skipped) may in cc
  ]

  pub no_level_skipped :
      {a c : A} {seen : List A}
      → Walk step a seen c
      → (k : ℕ) → optional k ≡ false
      → level a < k
      → k ≤ level c
      → Memᴰ (landing k) seen
  no_level_skipped (stay a) k need lo hi = absurd (omega arith)
  no_level_skipped (move {a} {b} {seen = rest} h w) k need lo hi = elim (climbs a b h) [
    | inl down ↦ Memᴰ.tail (no_level_skipped w k need (omega arith) hi)
    | inr (at, up) ↦ elim (le_or_lt k (level b)) [
      | inl within ↦
          let here : level b ≡ k = required_level a b k up need lo within in
          let same : b ≡ landing k = subst (λ n. b ≡ landing n) here at in
          Memᴰ.tail (subst (λ x. Memᴰ x rest) same (walk_head w))
      | inr below ↦ Memᴰ.tail (no_level_skipped w k need (omega arith) hi)
    ]
  ]

-- Every edge between two phases that a command may write.
unfoldable pub engine_phase_edge : Phase → Phase → Bool
unfolding can_transition undo_only_phase_transitions ship_rollback_phase_transitions
engine_phase_edge from to =
    can_transition from to
    || contains (undo_only_phase_transitions from) to
    || contains (ship_rollback_phase_transitions from) to

-- How far a phase is on the way to a delivery: each phase of the way has a level of its own; a plan
-- that failed stands where planning does.
abbrev pub phase_level : Phase → ℕ
phase_level uninitialized = 0
phase_level initialized = 1
phase_level intent_draft = 2
phase_level intent_ready = 3
phase_level discussing = 4
phase_level spec_draft = 5
phase_level spec_frozen = 6
phase_level planning = 7
phase_level plan_failed = 7
phase_level plan_ready = 8
phase_level executing = 9
phase_level ready_to_ship = 10
phase_level shipped = 11
phase_level abandoned = 1

-- The phase by which a level is entered from below.
abbrev pub phase_landing : ℕ → Phase
phase_landing n =
    if leb n 1
    then initialized
    else if n == 2
    then intent_draft
    else if n == 3
    then intent_ready
    else if n == 4
    then discussing
    else if n == 5
    then spec_draft
    else if n == 6
    then spec_frozen
    else if n == 7
    then planning
    else if n == 8
    then plan_ready
    else if n == 9
    then executing
    else if n == 10
    then ready_to_ship
    else shipped

-- The one level that an edge may leave out: `executing` may be followed by `shipped` at once.
abbrev pub is_optional_level : ℕ → Bool
is_optional_level n = n == 10

phase_climbs :
    (a b : Phase)
    → engine_phase_edge a b ≡ true
    → (phase_level b ≤ phase_level a)
      ⊎ ((b ≡ phase_landing (phase_level b))
          × ((phase_level b ≡ suc (phase_level a))
              ⊎ ((phase_level b ≡ suc (suc (phase_level a)))
                  × (is_optional_level (suc (phase_level a)) ≡ true))))
unfolding engine_phase_edge
phase_climbs a b h = ground arith

-- On any walk through the phases, undo and ship rollback included, and for each level above that of
-- its first phase and up to that of its last, except the level of ready_to_ship, the walk passed the
-- phase by which the level is entered: from level 1 on these are initialized, intent_draft,
-- intent_ready, discussing, spec_draft, spec_frozen, planning, plan_ready, executing and, at level
-- 11, shipped.
pub phases_not_skipped :
    {p q : Phase} {seen : List Phase}
    → Walk engine_phase_edge p seen q
    → (k : ℕ) → is_optional_level k ≡ false
    → phase_level p < k
    → k ≤ phase_level q
    → Memᴰ (phase_landing k) seen
phases_not_skipped =
    no_level_skipped engine_phase_edge phase_level phase_landing is_optional_level phase_climbs

-- Every change of a task's status that a command may write: a legal one, or the one that `undo`
-- makes in a task that depends on the undone one.
unfoldable pub engine_task_edge : TaskStatus → TaskStatus → Bool
unfolding can_transition_task_status status_after_undo_dependency
engine_task_edge from to =
    can_transition_task_status from to || (status_after_undo_dependency from == some to)

abbrev pub task_level : TaskStatus → ℕ
task_level todo = 0
task_level blocked = 0
task_level ready = 1
task_level in_progress = 2
task_level verifying = 3
task_level done = 4
task_level compacted = 5

abbrev pub task_landing : ℕ → TaskStatus
task_landing n =
    if leb n 1
    then ready
    else if n == 2
    then in_progress
    else if n == 3
    then verifying
    else if n == 4
    then done
    else compacted

task_climbs :
    (a b : TaskStatus)
    → engine_task_edge a b ≡ true
    → (task_level b ≤ task_level a)
      ⊎ ((b ≡ task_landing (task_level b))
          × ((task_level b ≡ suc (task_level a))
              ⊎ ((task_level b ≡ suc (suc (task_level a))) × (false ≡ true))))
unfolding engine_task_edge
task_climbs a b h = ground arith

-- On any walk of a task's status, the changes that undo makes in dependants included, and for each
-- level above that of its first status and up to that of its last, the walk passed the status by
-- which the level is entered: from level 1 on these are ready, in_progress, verifying, done and
-- compacted.
pub task_stages_not_skipped :
    {a b : TaskStatus} {seen : List TaskStatus}
    → Walk engine_task_edge a seen b
    → (k : ℕ) → task_level a < k
    → k ≤ task_level b
    → Memᴰ (task_landing k) seen
task_stages_not_skipped walk k =
    no_level_skipped engine_task_edge task_level task_landing (λ n. false) task_climbs walk k refl
