-- ===== src/Qa/Checklist.antt =====
-- The checklist of a run without a browser: packages/qa/src/checklist.ts.
use legion_cli.Prelude.{
  ◌≡◌, ◌↔◌, inr, refl, subst, sym, Bool, true, false, not, Option, none, some, List, Memᴰ, ◌==◌,
  ==_iff, nat_eq, list_eq, all, all_iff, contains, contains_iff, if◌then◌else◌,
}
use legion_cli.Text.{Text}
use legion_cli.Lifecycle.{Priority}
use legion_cli.Graph.Readiness.{AcceptanceCriterion}
use legion_cli.Qa.Tags.{ScoredSpec}
use legion_cli.Qa.Outcomes.{ParsedTest, criterion_results, criterion_bucket_counts}
use legion_cli.Qa.Criteria.{NoneFailed, criterion-failed_iff}

pub record QaChecklistReceipt : Type 0 where
  pub spec_id : Text
  pub ticks : List Text
  pub updated_at : Text

unfoldable pub checklist_complete : ScoredSpec → Option QaChecklistReceipt → Bool
checklist_complete spec none = false
checklist_complete spec (some receipt) =
    if not (receipt.spec_id == spec.id)
    then false
    else all (λ (ac : AcceptanceCriterion). contains receipt.ticks ac.id) spec.acceptance

-- The receipt is of the spec and ticks every criterion.
pub record Completes (spec : ScoredSpec) (receipt : QaChecklistReceipt) : Type 0 where
  pub own : receipt.spec_id ≡ spec.id
  pub ticked : (c : AcceptanceCriterion) → Memᴰ c spec.acceptance → Memᴰ c.id receipt.ticks

unless_false : (a b : Bool) → (if not a then false else b) ≡ true → (a ≡ true) × (b ≡ true)
unless_false true b e = (refl, e)
unless_false false b e = cc

ticked-Completes :
    (spec : ScoredSpec) (receipt : QaChecklistReceipt)
    → (checklist_complete spec (some receipt) ≡ true) ↔ Completes spec receipt
unfolding checklist_complete
ticked-Completes spec receipt =
    let ticked : AcceptanceCriterion → Bool =
      λ (ac : AcceptanceCriterion). contains receipt.ticks ac.id in
    (
      λ e.
          let (f, g) = unless_false (receipt.spec_id == spec.id) (all ticked spec.acceptance) e in
          record {
            own = (==_iff receipt.spec_id spec.id).0 f;
            ticked = λ c m.
                (contains_iff receipt.ticks c.id).0 ((all_iff ticked spec.acceptance).0 g c m);
          },
      λ h.
          rw
            (
              (==_iff receipt.spec_id spec.id).1 h.own,
              (all_iff ticked spec.acceptance).1
                  (λ c m. (contains_iff receipt.ticks c.id).1 (h.ticked c m)),
              checklist_complete,
            )
            refl,
    )

-- A checklist is complete exactly when there is a receipt, of this spec, that ticks every criterion;
-- without a receipt it never is.
pub checklist_complete_iff :
    (spec : ScoredSpec) (receipt : Option QaChecklistReceipt)
    → (checklist_complete spec receipt ≡ true)
      ↔ ((r : QaChecklistReceipt) × (receipt ≡ some r) × Completes spec r)
unfolding checklist_complete
checklist_complete_iff spec none = (λ e. cc, λ (r, e, h). cc)
checklist_complete_iff spec (some receipt) = (
  λ e. (receipt, refl, (ticked-Completes spec receipt).0 e),
  λ (r, same, h).
      subst (λ o. checklist_complete spec o ≡ true) (sym same) ((ticked-Completes spec r).1 h),
)

-- Where no test has failed, the ticks of a complete checklist, taken for the criteria that were passed
-- by hand, leave no criterion of any priority failed in the score.
pub checklist_complete-failed :
    (spec : ScoredSpec) (receipt : QaChecklistReceipt) (priority : Priority)
    (tests : List ParsedTest)
    → checklist_complete spec (some receipt) ≡ true
    → NoneFailed tests
    → (criterion_bucket_counts
        (criterion_results spec.acceptance tests receipt.ticks)
        priority).failed
      ≡ 0
checklist_complete-failed spec receipt priority tests e h =
    (criterion-failed_iff priority spec.acceptance tests receipt.ticks h).1
      (λ c m p. inr (((ticked-Completes spec receipt).0 e).ticked c m))
