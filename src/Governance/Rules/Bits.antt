-- ===== src/Governance/Rules/Bits.antt =====
-- The tests of the rules, taken apart into their conditions.
use legion_cli.Prelude.{
  ◌≡◌, refl, subst, ◌⊎◌, inl, inr, ◌↔◌, Bool, true, false, not, ◌&&◌, ◌||◌, Option, none, some,
  List, [], any, Memᴰ, arith, ◌==◌, ==_iff, list_eq, option_eq, nat_eq, any-eq-false,
}
use legion_cli.Lifecycle.{
  TaskStatus, todo, in_progress, phase_eq, status_eq, mode_eq, can_transition_task_status,
  status_after_undo_dependency,
}
use legion_cli.Governance.Records.{
  Freshness, AcceptanceStatus, Action, AcceptanceRow, Ship, stage_eq, freshness_eq, liveness_eq,
  acceptance_status_eq, ship_status_eq, action_eq, outcome_eq, projection_eq,
}
use legion_cli.Governance.Rules.{Code, report, is_unaccepted, preview_broken, task_moved}

pub report-nil : (b : Bool) (code : Code) → (report b code ≡ []) ↔ (b ≡ false)
report-nil true code = ground arith
report-nil false code = ground arith

pub bits_lem :
    (ok same can undo undoes roll rolls : Bool) (code : Code)
    → (report (ok && not same && not can && not (undo && undoes) && not (roll && rolls)) code ≡ [])
      ↔ (ok ≡ true
          → (same ≡ true)
            ⊎ (can ≡ true)
            ⊎ ((undo ≡ true) × (undoes ≡ true))
            ⊎ ((roll ≡ true) × (rolls ≡ true)))
bits_lem ok same can undo undoes roll rolls code = ground arith

pub unaccepted_iff :
    (e : AcceptanceRow)
    → (is_unaccepted e ≡ false)
      ↔ ((e.status ≡ AcceptanceStatus.passed) × (e.freshness ≡ Freshness.current))
unaccepted_iff e =
    ground (arith, ==_iff e.status AcceptanceStatus.passed, ==_iff e.freshness Freshness.current)

pub any_unaccepted :
    (es : List AcceptanceRow)
    → (any is_unaccepted es ≡ false) ↔ (
        (e : AcceptanceRow)
        → Memᴰ e es
        → (e.status ≡ AcceptanceStatus.passed) × (e.freshness ≡ Freshness.current))
any_unaccepted es =
    let each = any-eq-false is_unaccepted es in
    (
      λ h e m. (unaccepted_iff e).0 (each.0 h e m),
      λ h. each.1 (λ e m. (unaccepted_iff e).1 (h e m)),
    )

pub can_transition_task_status_self : (a : TaskStatus) → can_transition_task_status a a ≡ true
unfolding can_transition_task_status
can_transition_task_status_self a = ground arith

pub move_bits :
    (same can undo undoes start fresh begun : Bool) (code : Code)
    → (report (not (same || can) && not (undo && undoes) && not (start && fresh && begun)) code
        ≡ [])
      ↔ ((same ≡ true)
          ⊎ (can ≡ true)
          ⊎ ((undo ≡ true) × (undoes ≡ true))
          ⊎ ((start ≡ true) × (fresh ≡ true) × (begun ≡ true)))
move_bits same can undo undoes start fresh begun code = ground arith

pub can_transition_task_status_same :
    (a b : TaskStatus) → a ≡ b → can_transition_task_status a b ≡ true
can_transition_task_status_same a b e = cc (e, can_transition_task_status_self a)

pub task_moved-some :
    (action : Action) (from to : TaskStatus)
    → (task_moved action (some from) to ≡ []) ↔ (
        (can_transition_task_status from to ≡ true)
        ⊎ ((action ≡ Action.undo) × (status_after_undo_dependency from ≡ some to))
        ⊎ ((action ≡ Action.task_start) × (from ≡ todo) × (to ≡ in_progress)))
task_moved-some action from to = (lawful, silent)
  where
    bits : (task_moved action (some from) to ≡ []) ↔ (
        ((from == to) ≡ true)
        ⊎ (can_transition_task_status from to ≡ true)
        ⊎ (((action == Action.undo) ≡ true)
            × ((status_after_undo_dependency from == some to) ≡ true))
        ⊎ (((action == Action.task_start) ≡ true)
            × ((from == todo) ≡ true)
            × ((to == in_progress) ≡ true)))
    bits =
        move_bits (from == to) (can_transition_task_status from to) (action == Action.undo)
          (status_after_undo_dependency from == some to) (action == Action.task_start)
          (from == todo) (to == in_progress) Code.illegal_task_transition

    lawful :
        task_moved action (some from) to ≡ []
        → (can_transition_task_status from to ≡ true)
          ⊎ ((action ≡ Action.undo) × (status_after_undo_dependency from ≡ some to))
          ⊎ ((action ≡ Action.task_start) × (from ≡ todo) × (to ≡ in_progress))
    lawful h = elim (bits.0 h) [
      | inl same ↦ inl (can_transition_task_status_same from to ((==_iff from to).0 same))
      | inr (inl legal) ↦ inl legal
      | inr (inr (inl undone)) ↦ inr (
          inl (
            (==_iff action Action.undo).0 undone.0,
            (==_iff (status_after_undo_dependency from) (some to)).0 undone.1,
          ))
      | inr (inr (inr started)) ↦ inr (
          inr (
            (==_iff action Action.task_start).0 started.0,
            (==_iff from todo).0 started.1,
            (==_iff to in_progress).0 started.2,
          ))
    ]

    silent :
        (can_transition_task_status from to ≡ true)
          ⊎ ((action ≡ Action.undo) × (status_after_undo_dependency from ≡ some to))
          ⊎ ((action ≡ Action.task_start) × (from ≡ todo) × (to ≡ in_progress))
        → task_moved action (some from) to ≡ []
    silent h = bits.1 (elim h [
      | inl legal ↦ inr (inl legal)
      | inr (inl undone) ↦ inr (
          inr (
            inl (
              (==_iff action Action.undo).1 undone.0,
              (==_iff (status_after_undo_dependency from) (some to)).1 undone.1,
            )))
      | inr (inr started) ↦ inr (
          inr (
            inr (
              (==_iff action Action.task_start).1 started.0,
              (==_iff from todo).1 started.1,
              (==_iff to in_progress).1 started.2,
            )))
    ])

pub preview_ok :
    (action : Action) (now p : Ship)
    → (preview_broken action now (some p) ≡ false) ↔ (
        (action ≡ Action.ship_confirm → now.confirmed ≡ true)
        × (now.confirmation_id ≡ p.confirmation_id)
        × (now.preview_fingerprint ≡ p.preview_fingerprint))
preview_ok action now p = ground (
  arith,
  ==_iff action Action.ship_confirm,
  ==_iff now.confirmation_id p.confirmation_id,
  ==_iff now.preview_fingerprint p.preview_fingerprint,
)

pub preview_bits :
    (ok confirm complete has broken : Bool) (code : Code)
    → (report (ok && (confirm || (complete && has)) && broken) code ≡ [])
      ↔ (ok ≡ true → (confirm ≡ true) ⊎ ((complete ≡ true) × (has ≡ true)) → broken ≡ false)
preview_bits ok confirm complete has broken code = ground arith

pub kept_lem :
    (action : Action) (now : Ship) (prepared : Option Ship)
    → (preview_broken action now prepared ≡ false)
      ↔ (p : Ship) × (prepared ≡ some p)
        × (action ≡ Action.ship_confirm → now.confirmed ≡ true)
        × (now.confirmation_id ≡ p.confirmation_id)
        × (now.preview_fingerprint ≡ p.preview_fingerprint)
kept_lem action now none = (λ h. cc, λ (p, e, _, _, _). cc)
kept_lem action now (some p) = (
  λ h. let (a, b, c) = (preview_ok action now p).0 h in (p, refl, a, b, c),
  λ (q, e, a, b, c).
      let same : q ≡ p = cc in
      (preview_ok action now p).1 (
        subst
          (λ (x : Ship).
            (action ≡ Action.ship_confirm → now.confirmed ≡ true)
            × (now.confirmation_id ≡ x.confirmation_id)
            × (now.preview_fingerprint ≡ x.preview_fingerprint))
          same (a, b, c)),
)
