-- ===== src/Qa/Tests.antt =====
-- Scores of small runs, and the witnesses of the theorems on scores.
use legion_cli.Prelude.{
  ℕ, ◌+◌, ◌*◌, ◌/◌, ◌≡◌, ◌≢◌, ◌⊎◌, ◌↔◌, refl, sym, ap, subst, all_iff, Bool, true, false, ◌&&◌, leb,
  ltb, none, some, List, [], ◌∷◌, ◌++◌, String, Memᴰ, min, is_empty, nat_eq, arith,
}
use legion_cli.Text.{Text, codes}
use legion_cli.Lifecycle.{Priority, p0, p1, p2}
use legion_cli.Graph.Readiness.{AcceptanceCriterion}
use legion_cli.Qa.Tags.{
  ScoredSpec, tag_from_priority, priority_from_title, is_visual_title, is_ui_acceptance,
  spec_has_ui,
}
use legion_cli.Qa.Titles.{first_of, priority_from_title-tag}
use legion_cli.Qa.Score.{is_filled, QaMode, RateArithmetic, QaScore, CriterionOutcome}
use legion_cli.Qa.Outcomes.{
  ParsedTest, criterion_bucket_counts, criterion_results, criterion_outcome, visual_regressions,
}
use legion_cli.Qa.Scoring.{
  Reporter, Clock, ScoreQaInput, Scored, no_hash, tests_of, score_of, score_qa,
  score_persisted_reports, score_spec_reports, spec_input,
}
use legion_cli.Qa.Checklist.{
  QaChecklistReceipt, checklist_complete, Completes, checklist_complete_iff,
  checklist_complete-failed,
}
use legion_cli.Qa.Pass.{Passes, score_qa-Passes, score_persisted_reports-Passes}
use legion_cli.Qa.Bounds.{IsRateArithmetic, Bounded, score_qa-Bounded}
use legion_cli.Qa.Accepted.{IsFilled, score_qa_cases}

-- Rates as fractions, rounded half up.
abbrev rounded : ℕ → ℕ × ℕ → ℕ
rounded m (a, b) = min m ((2 * m * a + b) / (2 * b))

abbrev fractions : RateArithmetic (ℕ × ℕ)
fractions = record {
  one = (1, 1);
  ratio = λ a b. (a, b);
  rounded = rounded;
  within = λ (a, b). leb a b && ltb 0 b;
}

fractions-IsRateArithmetic : IsRateArithmetic fractions
fractions-IsRateArithmetic = record {
  one-within = refl;
  ratio-within = λ a b h k. ground arith;
  rounded-le = λ m (a, b) h. omega arith;
}

abbrev reporter : Reporter (List ParsedTest)
reporter = record { parse_test_report = λ r. r; report_fail_closed = λ r. is_empty r }

abbrev clock : Clock
clock = record { fresh_id = codes "qa-1"; now = codes "2026-01-01T00:00:00.000Z" }

abbrev test : String → Bool → Priority → Text → ParsedTest
test title ok priority id = record {
  title = codes title;
  ok = ok;
  skipped = false;
  visual_failure = false;
  priority = priority;
  acceptance_ids = id ∷ [];
}

abbrev criterion : String → Priority → AcceptanceCriterion
criterion id priority = record { id = codes id; statement = "it holds"; priority = priority }

abbrev spec : ScoredSpec
spec = record {
  id = codes "spec-1";
  acceptance = criterion "AC-1" p0 ∷ criterion "AC-2" p1 ∷ [];
  wireframes_index = none;
}

abbrev report : List ParsedTest
report = test "opens" true p0 (codes "AC-1") ∷ test "closes" true p1 (codes "AC-2") ∷ []

abbrev input : ScoreQaInput (List ParsedTest)
input = record {
  spec_id = codes "spec-1";
  mode = QaMode.full;
  has_ui = false;
  playwright_ran = false;
  tests = some report;
  unit_report = some report;
  playwright_report = none;
  id = none;
  created_at = none;
  evidence_paths = [];
  fail_closed = false;
  report_failures = none;
  acceptance = some spec.acceptance;
  spec_hash = none;
  source_hash = none;
  manual_passed = [];
}

abbrev score : QaScore (ℕ × ℕ)
score = record {
  id = codes "qa-1";
  spec_id = codes "spec-1";
  mode = QaMode.full;
  buckets = record {
    p0_bucket = record { points = 40; failed = 0 };
    p1_bucket = record { points = 30; pass_rate = (1, 1) };
    p2_bucket = record { points = 15; pass_rate = (1, 1) };
    visual = record { points = 15; regressions = 0 };
  };
  total = 100;
  pass = true;
  evidence_paths = [];
  created_at = codes "2026-01-01T00:00:00.000Z";
  criteria =
      record { id = codes "AC-1"; priority = p0; outcome = CriterionOutcome.passed }
      ∷ record { id = codes "AC-2"; priority = p1; outcome = CriterionOutcome.passed }
      ∷ [];
  missing_criterion_ids = [];
  failed_criterion_ids = [];
  skipped_criterion_ids = [];
  report_failures = 0;
  spec_hash = no_hash;
  source_hash = no_hash;
}

scored_100 : score_qa reporter fractions clock input ≡ Scored.scored score
unfolding score_qa criterion_bucket_counts criterion_results criterion_outcome visual_regressions
scored_100 = refl

persisted_100 : score_persisted_reports reporter fractions clock spec input ≡ Scored.scored score
unfolding score_persisted_reports spec_has_ui score_qa criterion_bucket_counts criterion_results
    criterion_outcome visual_regressions score_spec_reports
persisted_100 = refl

tap_is_ui :
    is_ui_acceptance (record { id = codes "AC-3"; statement = "Tap the button."; priority = p2 })
    ≡ true
unfolding is_ui_acceptance
tap_is_ui = refl

visual_title : is_visual_title (codes "home page @Visual, dark") ≡ true
unfolding is_visual_title
visual_title = refl

none_given : {A : Type 0} {P : Type 0} {a : A} → none ≡ some a → P
none_given e = cc

some_given : {A : Type 0} {a b : A} → some a ≡ some b → a ≡ b
some_given e = cc

input-IsFilled : IsFilled fractions fractions-IsRateArithmetic reporter clock input
input-IsFilled = record {
  id-filled = λ id e. none_given e;
  fresh-filled = refl;
  spec-filled = refl;
  created-filled = λ t e. none_given e;
  now-filled = refl;
  criteria-filled = λ acceptance c e m.
      (all_iff (λ (c : AcceptanceCriterion). is_filled c.id) spec.acceptance).0 refl c
        (subst (λ (l : List AcceptanceCriterion). Memᴰ c l) (sym (some_given e)) m);
  spec_hash-hex = λ h e. none_given e;
  source_hash-hex = λ h e. none_given e;
}

score_qa-Passes_example : (score.pass ≡ true) ↔ Passes reporter input 100
score_qa-Passes_example = score_qa-Passes reporter fractions clock input score scored_100

score_persisted_reports-Passes_example :
    (tests_of reporter (spec_input spec input) ≢ []) × Passes reporter (spec_input spec input) 100
score_persisted_reports-Passes_example =
    score_persisted_reports-Passes reporter fractions clock spec input score persisted_100 refl

score_qa-Bounded_example :
    Bounded score.buckets QaMode.full 100 × (score.mode ≡ QaMode.no_browser → score.pass ≡ false)
score_qa-Bounded_example =
    score_qa-Bounded fractions fractions-IsRateArithmetic reporter clock input score scored_100

score_qa_cases_example :
    ((tests_of reporter input ≡ []) × (score_qa reporter fractions clock input ≡ Scored.zero_tests))
    ⊎ ((tests_of reporter input ≢ [])
        × (score_qa reporter fractions clock input
            ≡ Scored.scored (score_of reporter fractions clock input)))
score_qa_cases_example =
    score_qa_cases fractions fractions-IsRateArithmetic reporter clock input input-IsFilled

priority_from_title-tag_example :
    priority_from_title (codes "opens @p1 @p0" ++ b' ' ∷ tag_from_priority p2)
    ≡ first_of (priority_from_title (codes "opens @p1 @p0")) p2
priority_from_title-tag_example = priority_from_title-tag (codes "opens @p1 @p0") p2

abbrev receipt : QaChecklistReceipt
receipt = record {
  spec_id = codes "spec-1";
  ticks = codes "AC-2" ∷ codes "AC-1" ∷ [];
  updated_at = codes "2026-01-01";
}

receipt_complete : checklist_complete spec (some receipt) ≡ true
unfolding checklist_complete
receipt_complete = refl

checklist_complete_iff_example :
    (checklist_complete spec (some receipt) ≡ true)
    ↔ ((r : QaChecklistReceipt) × (some receipt ≡ some r) × Completes spec r)
checklist_complete_iff_example = checklist_complete_iff spec (some receipt)

report_ok : (t : ParsedTest) → Memᴰ t report → t.skipped ≡ false → t.ok ≡ true
report_ok t (Memᴰ.head e) s = ap (λ (u : ParsedTest). u.ok) e
report_ok t (Memᴰ.tail (Memᴰ.head e)) s = ap (λ (u : ParsedTest). u.ok) e
report_ok t (Memᴰ.tail (Memᴰ.tail m)) s = elim m [ ]

checklist_complete-failed_example :
    (criterion_bucket_counts (criterion_results spec.acceptance report receipt.ticks) p1).failed ≡ 0
checklist_complete-failed_example =
    checklist_complete-failed spec receipt p1 report receipt_complete report_ok
