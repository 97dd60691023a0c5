-- ===== src/Qa/Pass.antt =====
-- When a run passes, and the bounds of its total.
use legion_cli.Prelude.{
  ℕ, ◌+◌, ◌≤◌, ◌≡◌, ◌≢◌, ◌↔◌, inl, inr, refl, sym, subst, Bool, true, false, none, some, [], nat_eq,
  ==_iff, max, is_empty, some_iff, if◌then◌else◌, Option-cases, arith,
}
use legion_cli.Lifecycle.{p0}
use legion_cli.Qa.Tags.{ScoredSpec}
use legion_cli.Qa.Score.{QaMode, RateArithmetic, QaScore, compute_qa_pass, schema_accepts}
use legion_cli.Qa.Outcomes.{count, has_failed, visual_regressions}
use legion_cli.Qa.Scoring.{
  Reporter, Clock, ScoreQaInput, Scored, or_else, tests_of, fail_closed_of, command_report_failures,
  p0_failed, buckets_of, total_of, report_failures_of, score_of, score_qa, score_persisted_reports,
  or_zero_tests, zero_tests_input, score_spec_reports, spec_input,
}
use legion_cli.Qa.Criteria.{
  NoneFailed, AllMet, count-failed_iff, criterion-failed_iff, bucket-failed, visual_regressions_iff,
}

compute_iff :
    (mode : QaMode) (total a b c : ℕ)
    → (compute_qa_pass mode total a b c ≡ true)
      ↔ ((mode ≡ QaMode.full) × (85 ≤ total) × (a ≡ 0) × (b ≡ 0) × (c ≡ 0))
unfolding compute_qa_pass
compute_iff QaMode.full total a b c = ground (arith, ==_iff a 0, ==_iff b 0, ==_iff c 0)
compute_iff QaMode.no_browser total a b c = ground arith

max_iff : (n : ℕ) (b : Bool) → (max n (if b then 1 else 0) ≡ 0) ↔ ((n ≡ 0) × (b ≡ false))
max_iff n true = ground arith
max_iff n false = ground arith

sum_iff : (m n : ℕ) → (m + n ≡ 0) ↔ ((m ≡ 0) × (n ≡ 0))
sum_iff m n = ground arith

true_not_false : true ≢ false
true_not_false e = cc

scored_if :
    {R : Type 0} (a b : Bool) (x s : QaScore R)
    → (if a then Scored.zero_tests else if b then Scored.scored x else Scored.schema_error)
      ≡ Scored.scored s
    → (a ≡ false) × (s ≡ x)
scored_if true b x s e = cc
scored_if false true x s e = (refl, (cc))
scored_if false false x s e = cc

module _ {Report : Type 0} (reporter : Reporter Report) where
  -- Every P0 criterion of the input, if it has criteria, has passed.
  abbrev P0Met : ScoreQaInput Report → Type 0
  P0Met input = elim input.acceptance [
    | none ↦ Unit
    | some acceptance ↦ AllMet p0 acceptance (tests_of reporter input) input.manual_passed
  ]

  pub record Passes (input : ScoreQaInput Report) (total : ℕ) : Type 0 where
    pub full_run : input.mode ≡ QaMode.full
    pub none_failed : NoneFailed (tests_of reporter input)
    pub no_report_failure : or_else input.report_failures 0 ≡ 0
    pub not_closed : fail_closed_of reporter input ≡ false
    pub p0_met : P0Met input
    pub played : input.has_ui ≡ true → input.playwright_ran ≡ true
    pub enough : 85 ≤ total

  p0_failed_iff :
      (input : ScoreQaInput Report)
      → NoneFailed (tests_of reporter input)
      → command_report_failures reporter input ≡ 0
      → (p0_failed reporter input ≡ 0) ↔ P0Met input
  p0_failed_iff input h c = elim (Option-cases input.acceptance) [
    | inl e ↦ (
      λ z. rw (e, P0Met) tt,
      λ met. rw (c, e, p0_failed) (bucket-failed p0 (tests_of reporter input) h),
    )
    | inr (acceptance, e) ↦
        let f =
          criterion-failed_iff p0 acceptance (tests_of reporter input) input.manual_passed h in
        rw (c, e, P0Met, p0_failed) f
  ]

  regressions_iff :
      (input : ScoreQaInput Report)
      → input.mode ≡ QaMode.full
      → NoneFailed (tests_of reporter input)
      → (visual_regressions (tests_of reporter input) input.has_ui input.mode input.playwright_ran
          ≡ 0)
        ↔ (input.has_ui ≡ true → input.playwright_ran ≡ true)
  regressions_iff input m h =
      rw (m) (visual_regressions_iff (tests_of reporter input) input.has_ui input.playwright_ran h)

  module _ {R : Type 0} (arithmetic : RateArithmetic R) (clock : Clock) where
    pass_iff :
        (input : ScoreQaInput Report)
        → ((score_of reporter arithmetic clock input).pass ≡ true)
          ↔ Passes input (total_of reporter arithmetic clock input)
    unfolding score_of buckets_of report_failures_of
    pass_iff input =
        let tests = tests_of reporter input in
        let regressions = visual_regressions tests input.has_ui input.mode input.playwright_ran in
        let computed =
          compute_iff input.mode (total_of reporter arithmetic clock input)
            (p0_failed reporter input) regressions
            (report_failures_of reporter arithmetic clock input) in
        let failures = sum_iff (count has_failed tests) (command_report_failures reporter input) in
        let command = max_iff (or_else input.report_failures 0) (fail_closed_of reporter input) in
        (
          λ e.
              let (m, enough, p, r, f) = computed.0 e in
              let (no_failed, cmd) = failures.0 f in
              let h = (count-failed_iff tests).0 no_failed in
              record {
                full_run = m;
                none_failed = h;
                no_report_failure = (command.0 cmd).0;
                not_closed = (command.0 cmd).1;
                p0_met = (p0_failed_iff input h cmd).0 p;
                played = (regressions_iff input m h).0 r;
                enough = enough;
              },
          λ q.
              let cmd = command.1 (q.no_report_failure, q.not_closed) in
              computed.1 (
                q.full_run,
                q.enough,
                (p0_failed_iff input q.none_failed cmd).1 q.p0_met,
                (regressions_iff input q.full_run q.none_failed).1 q.played,
                failures.1 ((count-failed_iff tests).1 q.none_failed, cmd),
              ),
        )

    -- A score is made only from tests, and it is the one computed.
    pub scored_iff :
        (input : ScoreQaInput Report) (s : QaScore R)
        → score_qa reporter arithmetic clock input ≡ Scored.scored s
        → (tests_of reporter input ≢ []) × (s ≡ score_of reporter arithmetic clock input)
    unfolding score_qa
    scored_iff input s e =
        let (f, g) =
          scored_if (is_empty (tests_of reporter input))
            (schema_accepts arithmetic (score_of reporter arithmetic clock input))
            (score_of reporter arithmetic clock input) s e in
        ((some_iff (tests_of reporter input)).0 f, g)

    -- A score passes exactly when the run was full, no test of it failed and no report did, every P0
    -- criterion has a passed test that names it or was ticked by hand, a spec with a user interface
    -- was played in a browser, and the total is at least 85.
    pub score_qa-Passes :
        (input : ScoreQaInput Report) (s : QaScore R)
        → score_qa reporter arithmetic clock input ≡ Scored.scored s
        → (s.pass ≡ true) ↔ Passes input s.total
    unfolding score_of
    score_qa-Passes input s e =
        let (_, f) = scored_iff input s e in
        subst (λ (t : QaScore R). (t.pass ≡ true) ↔ Passes input t.total) (sym f) (pass_iff input)

    zero_tests_fail :
        (spec : ScoredSpec) (input : ScoreQaInput Report) (total : ℕ)
        → ¬ Passes (zero_tests_input spec input) total
    unfolding zero_tests_input
    zero_tests_fail spec input total p = true_not_false p.not_closed

    persisted :
        (spec : ScoredSpec) (input : ScoreQaInput Report) (s : QaScore R) (r : Scored R)
        → score_spec_reports reporter arithmetic clock spec input ≡ r
        → or_zero_tests reporter arithmetic clock spec input r ≡ Scored.scored s
        → s.pass ≡ true
        → (tests_of reporter (spec_input spec input) ≢ []) × Passes (spec_input spec input) s.total
    unfolding score_spec_reports
    persisted spec input s (Scored.scored t) f e q =
        let g =
          subst
            (λ (u : QaScore R).
              score_qa reporter arithmetic clock (spec_input spec input) ≡ Scored.scored u)
            (cc) f in
        (
          (scored_iff (spec_input spec input) s g).0,
          (score_qa-Passes (spec_input spec input) s g).0 q,
        )
    persisted spec input s Scored.zero_tests f e q =
        elim (zero_tests_fail spec input s.total
          ((score_qa-Passes (zero_tests_input spec input) s e).0 q)) [ ]
    persisted spec input s Scored.schema_error f e q = cc

    -- A score of persisted reports that passes is one of their tests: there are some, and they meet
    -- the conditions of a pass. Reports without tests never pass.
    pub score_persisted_reports-Passes :
        (spec : ScoredSpec) (input : ScoreQaInput Report) (s : QaScore R)
        → score_persisted_reports reporter arithmetic clock spec input ≡ Scored.scored s
        → s.pass ≡ true
        → (tests_of reporter (spec_input spec input) ≢ []) × Passes (spec_input spec input) s.total
    unfolding score_persisted_reports
    score_persisted_reports-Passes spec input s e q =
        persisted spec input s (score_spec_reports reporter arithmetic clock spec input) refl e q
