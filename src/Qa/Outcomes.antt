-- ===== src/Qa/Outcomes.antt =====
-- Tests, their buckets and the outcomes of criteria: the counts of packages/qa/src/score.ts.
use legion_cli.Prelude.{
  ℕ, Bool, true, false, not, ◌&&◌, ◌||◌, List, map, ◌==◌, nat_eq, list_eq, any, filter, contains,
  length, max, is_empty, if◌then◌else◌,
}
use legion_cli.Text.{Text}
use legion_cli.Lifecycle.{Priority, priority_eq}
use legion_cli.Graph.Readiness.{AcceptanceCriterion}
use legion_cli.Qa.Tags.{is_visual_title}
use legion_cli.Qa.Score.{QaMode, is_full, CriterionOutcome, CriterionResult}

pub record ParsedTest : Type 0 where
  pub title : Text
  pub ok : Bool
  pub skipped : Bool
  pub visual_failure : Bool
  pub priority : Priority
  pub acceptance_ids : List Text

pub record Counts : Type 0 where
  pub passed : ℕ
  pub failed : ℕ

-- How many of a list pass a test.
abbrev pub count : {A : Type 0} → (A → Bool) → List A → ℕ
count p xs = length (filter p xs)

abbrev pub has_failed : ParsedTest → Bool
has_failed t = not t.skipped && not t.ok

abbrev pub has_passed : ParsedTest → Bool
has_passed t = not t.skipped && t.ok

unfoldable pub in_bucket : Priority → ParsedTest → Bool
in_bucket priority t = t.priority == priority && not t.skipped && not (is_visual_title t.title)

unfoldable pub bucket_counts : List ParsedTest → Priority → Counts
bucket_counts tests priority = record {
  passed = count (λ (t : ParsedTest). in_bucket priority t && t.ok) tests;
  failed = count (λ (t : ParsedTest). in_bucket priority t && not t.ok) tests;
}

abbrev pub linked : Text → List ParsedTest → List ParsedTest
linked id tests = filter (λ (t : ParsedTest). contains t.acceptance_ids id) tests

unfoldable pub criterion_outcome : List ParsedTest → List Text → Text → CriterionOutcome
criterion_outcome tests manual id =
    if any has_failed (linked id tests)
    then CriterionOutcome.failed
    else if any has_passed (linked id tests)
    then CriterionOutcome.passed
    else if contains manual id
    then CriterionOutcome.passed
    else if not (is_empty (linked id tests))
    then CriterionOutcome.skipped
    else CriterionOutcome.missing

unfoldable pub criterion_results :
    List AcceptanceCriterion → List ParsedTest → List Text → List CriterionResult
criterion_results acceptance tests manual =
    map
      (λ (c : AcceptanceCriterion). record {
        id = c.id;
        priority = c.priority;
        outcome = criterion_outcome tests manual c.id;
      })
      acceptance

abbrev pub is_passed : CriterionOutcome → Bool
is_passed CriterionOutcome.passed = true
is_passed CriterionOutcome.failed = false
is_passed CriterionOutcome.skipped = false
is_passed CriterionOutcome.missing = false

abbrev pub is_failed : CriterionOutcome → Bool
is_failed CriterionOutcome.passed = false
is_failed CriterionOutcome.failed = true
is_failed CriterionOutcome.skipped = false
is_failed CriterionOutcome.missing = false

abbrev pub is_skipped : CriterionOutcome → Bool
is_skipped CriterionOutcome.passed = false
is_skipped CriterionOutcome.failed = false
is_skipped CriterionOutcome.skipped = true
is_skipped CriterionOutcome.missing = false

abbrev pub is_missing : CriterionOutcome → Bool
is_missing CriterionOutcome.passed = false
is_missing CriterionOutcome.failed = false
is_missing CriterionOutcome.skipped = false
is_missing CriterionOutcome.missing = true

unfoldable pub criterion_bucket_counts : List CriterionResult → Priority → Counts
criterion_bucket_counts criteria priority =
    let selected = filter (λ (c : CriterionResult). c.priority == priority) criteria in
    record {
      passed = count (λ (c : CriterionResult). is_passed c.outcome) selected;
      failed = count (λ (c : CriterionResult). not (is_passed c.outcome)) selected;
    }

abbrev pub is_visual_regression : ParsedTest → Bool
is_visual_regression t = has_failed t && (t.visual_failure || is_visual_title t.title)

unfoldable pub visual_regressions : List ParsedTest → Bool → QaMode → Bool → ℕ
visual_regressions tests has_ui mode playwright_ran =
    let regressions = count is_visual_regression tests in
    if not has_ui
    then 0
    else if not (is_full mode) || not playwright_ran
    then max regressions 1
    else regressions
