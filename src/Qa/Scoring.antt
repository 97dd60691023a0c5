-- ===== src/Qa/Scoring.antt =====
-- The score of a run: packages/qa/src/score.ts.
use legion_cli.Prelude.{
  ℕ, ◌+◌, Bool, true, false, ◌&&◌, ◌||◌, Option, none, some, List, [], ◌∷◌, ◌++◌, map, ◌==◌, nat_eq,
  list_eq, filter, min, max, is_empty, ltb, zero, suc, if◌then◌else◌,
}
use legion_cli.Text.{Text, codes}
use legion_cli.Lifecycle.{Priority, p0, p1, p2, priority_eq}
use legion_cli.Graph.Readiness.{AcceptanceCriterion}
use legion_cli.Qa.Tags.{ScoredSpec, spec_has_ui}
use legion_cli.Qa.Score.{
  QaMode, is_full, CriterionOutcome, CriterionResult, RateArithmetic, QaBuckets, QaScore,
  compute_qa_pass, points_if_none, sum_points, schema_accepts,
}
use legion_cli.Qa.Outcomes.{
  ParsedTest, Counts, count, has_failed, bucket_counts, criterion_results, is_failed, is_skipped,
  is_missing, criterion_bucket_counts, visual_regressions,
}

-- What the readers of reports make of one: `parseTestReport` and `reportFailClosed` of
-- packages/qa/src/reports.ts.
pub record Reporter (Report : Type 0) : Type 0 where
  pub parse_test_report : Report → List ParsedTest
  pub report_fail_closed : Report → Bool

-- The default id, `qa-` with the time and a random part, and the time of day.
pub record Clock : Type 0 where
  pub fresh_id : Text
  pub now : Text

pub record ScoreQaInput (Report : Type 0) : Type 0 where
  pub spec_id : Text
  pub mode : QaMode
  pub has_ui : Bool
  pub playwright_ran : Bool
  pub tests : Option (List ParsedTest)
  pub unit_report : Option Report
  pub playwright_report : Option Report
  pub id : Option Text
  pub created_at : Option Text
  pub evidence_paths : List Text
  pub fail_closed : Bool
  pub report_failures : Option ℕ
  pub acceptance : Option (List AcceptanceCriterion)
  pub spec_hash : Option Text
  pub source_hash : Option Text
  pub manual_passed : List Text

pub data Scored (R : Type 0) : Type 0 where
  scored : QaScore R → Scored R
  zero_tests : Scored R
  schema_error : Scored R

-- `??`
abbrev pub or_else : {A : Type 0} → Option A → A → A
or_else none d = d
or_else (some a) d = a

abbrev repeat_unit : ℕ → ℕ → Text
repeat_unit c zero = []
repeat_unit c (suc n) = c ∷ repeat_unit c n

-- `"0".repeat(64)`
unfoldable pub no_hash : Text
no_hash = repeat_unit b'0' 64

unfoldable pub pass_rate : {R : Type 0} → RateArithmetic R → Counts → R
pass_rate arithmetic c =
    if c.passed + c.failed == 0
    then arithmetic.one
    else arithmetic.ratio c.passed (c.passed + c.failed)

-- `scoreSpecReports`: the same from a spec. The input's own `spec_id`, `has_ui`, `acceptance` and
-- `tests` are not read.
unfoldable pub spec_input :
    {Report : Type 0} → ScoredSpec → ScoreQaInput Report → ScoreQaInput Report
unfolding spec_has_ui
spec_input spec input = record {
  spec_id = spec.id;
  mode = input.mode;
  has_ui = spec_has_ui spec;
  playwright_ran = input.playwright_ran;
  tests = none;
  unit_report = input.unit_report;
  playwright_report = input.playwright_report;
  id = input.id;
  created_at = input.created_at;
  evidence_paths = input.evidence_paths;
  fail_closed = input.fail_closed;
  report_failures = input.report_failures;
  acceptance = some spec.acceptance;
  spec_hash = input.spec_hash;
  source_hash = input.source_hash;
  manual_passed = input.manual_passed;
}

abbrev pub no_tests_run : ParsedTest
no_tests_run = record {
  title = codes "zero-tests report is not a pass @p0";
  ok = false;
  skipped = false;
  visual_failure = false;
  priority = p0;
  acceptance_ids = [];
}

-- What `scorePersistedReports` scores in place of reports without tests.
unfoldable pub zero_tests_input :
    {Report : Type 0} → ScoredSpec → ScoreQaInput Report → ScoreQaInput Report
unfolding spec_has_ui
zero_tests_input spec input = record {
  spec_id = spec.id;
  mode = input.mode;
  has_ui = spec_has_ui spec;
  playwright_ran = input.playwright_ran;
  tests = some (no_tests_run ∷ []);
  unit_report = none;
  playwright_report = none;
  id = input.id;
  created_at = input.created_at;
  evidence_paths = input.evidence_paths;
  fail_closed = true;
  report_failures = input.report_failures;
  acceptance = some spec.acceptance;
  spec_hash = input.spec_hash;
  source_hash = input.source_hash;
  manual_passed = input.manual_passed;
}

module _ {Report : Type 0} (reporter : Reporter Report) where
  abbrev tests_of_report : Option Report → List ParsedTest
  tests_of_report none = []
  tests_of_report (some r) = reporter.parse_test_report r

  abbrev pub tests_of : ScoreQaInput Report → List ParsedTest
  tests_of input =
      or_else input.tests
        (tests_of_report input.unit_report ++ tests_of_report input.playwright_report)

  abbrev closes : Option Report → Bool
  closes none = false
  closes (some r) = reporter.report_fail_closed r

  abbrev not_given : Option (List ParsedTest) → Bool
  not_given none = true
  not_given (some tests) = false

  abbrev pub fail_closed_of : ScoreQaInput Report → Bool
  fail_closed_of input = input.fail_closed || (not_given input.tests && closes input.unit_report)

  abbrev pub command_report_failures : ScoreQaInput Report → ℕ
  command_report_failures input =
      max (or_else input.report_failures 0) (if fail_closed_of input then 1 else 0)

  abbrev pub criteria_of : ScoreQaInput Report → List CriterionResult
  criteria_of input = elim input.acceptance [
    | none ↦ []
    | some acceptance ↦ criterion_results acceptance (tests_of input) input.manual_passed
  ]

  abbrev pub counts_of : ScoreQaInput Report → Priority → Counts
  counts_of input priority = elim input.acceptance [
    | none ↦ bucket_counts (tests_of input) priority
    | some acceptance ↦ criterion_bucket_counts (criteria_of input) priority
  ]

  -- `p0.failed`, forced by a failure of the command.
  abbrev pub p0_failed : ScoreQaInput Report → ℕ
  p0_failed input =
      let failed = (counts_of input p0).failed in
      if ltb 0 (command_report_failures input) then max failed 1 else failed

  module _ {R : Type 0} (arithmetic : RateArithmetic R) (clock : Clock) where
    unfoldable pub buckets_of : ScoreQaInput Report → QaBuckets R
    unfolding pass_rate
    buckets_of input =
        let p1_rate = pass_rate arithmetic (counts_of input p1) in
        let p2_rate = pass_rate arithmetic (counts_of input p2) in
        let regressions =
          visual_regressions (tests_of input) input.has_ui input.mode input.playwright_ran in
        record {
          p0_bucket = record {
            points = points_if_none 40 (p0_failed input);
            failed = p0_failed input;
          };
          p1_bucket = record { points = arithmetic.rounded 30 p1_rate; pass_rate = p1_rate };
          p2_bucket = record { points = arithmetic.rounded 15 p2_rate; pass_rate = p2_rate };
          visual = record { points = points_if_none 15 regressions; regressions = regressions };
        }

    unfoldable pub total_of : ScoreQaInput Report → ℕ
    unfolding buckets_of
    total_of input =
        let sum = sum_points (buckets_of input) in if is_full input.mode then sum else min sum 70

    unfoldable pub report_failures_of : ScoreQaInput Report → ℕ
    report_failures_of input = count has_failed (tests_of input) + command_report_failures input

    abbrev pub ids_with : (CriterionOutcome → Bool) → ScoreQaInput Report → List Text
    ids_with p input =
        map (λ (c : CriterionResult). c.id)
          (filter (λ (c : CriterionResult). p c.outcome) (criteria_of input))

    unfoldable pub score_of : ScoreQaInput Report → QaScore R
    unfolding buckets_of total_of report_failures_of compute_qa_pass no_hash
    score_of input = record {
      id = or_else input.id clock.fresh_id;
      spec_id = input.spec_id;
      mode = input.mode;
      buckets = buckets_of input;
      total = total_of input;
      pass =
          compute_qa_pass input.mode (total_of input) (p0_failed input)
            (buckets_of input).visual.regressions (report_failures_of input);
      evidence_paths = input.evidence_paths;
      created_at = or_else input.created_at clock.now;
      criteria = criteria_of input;
      missing_criterion_ids = ids_with is_missing input;
      failed_criterion_ids = ids_with is_failed input;
      skipped_criterion_ids = ids_with is_skipped input;
      report_failures = report_failures_of input;
      spec_hash = or_else input.spec_hash no_hash;
      source_hash = or_else input.source_hash no_hash;
    }

    unfoldable pub score_qa : ScoreQaInput Report → Scored R
    unfolding score_of schema_accepts
    score_qa input =
        if is_empty (tests_of input)
        then Scored.zero_tests
        else if schema_accepts arithmetic (score_of input)
        then Scored.scored (score_of input)
        else Scored.schema_error

    unfoldable pub score_spec_reports : ScoredSpec → ScoreQaInput Report → Scored R
    unfolding score_qa spec_input
    score_spec_reports spec input = score_qa (spec_input spec input)

    -- `catch` of a report without tests.
    abbrev pub or_zero_tests : ScoredSpec → ScoreQaInput Report → Scored R → Scored R
    or_zero_tests spec input (Scored.scored s) = Scored.scored s
    or_zero_tests spec input Scored.zero_tests = score_qa (zero_tests_input spec input)
    or_zero_tests spec input Scored.schema_error = Scored.schema_error

    unfoldable pub score_persisted_reports : ScoredSpec → ScoreQaInput Report → Scored R
    score_persisted_reports spec input = or_zero_tests spec input (score_spec_reports spec input)
