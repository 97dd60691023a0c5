-- ===== src/Qa/Bounds.antt =====
-- The bounds of a score's points.
use legion_cli.Prelude.{
  ℕ, ◌+◌, ◌≤◌, ◌<◌, ◌≡◌, inl, inr, refl, sym, subst, true, false, ◌==◌, nat_eq, ==_iff, min,
  if◌then◌else◌, Bool-cases, arith,
}
use legion_cli.Lifecycle.{p1, p2}
use legion_cli.Qa.Score.{
  QaMode, is_full, RateArithmetic, QaScore, QaBuckets, compute_qa_pass, sum_points, points_if_none,
}
use legion_cli.Qa.Outcomes.{Counts}
use legion_cli.Qa.Scoring.{
  Reporter, Clock, ScoreQaInput, Scored, counts_of, p0_failed, buckets_of, total_of,
  report_failures_of, score_of, score_qa, pass_rate,
}
use legion_cli.Qa.Pass.{scored_iff}

-- What the code relies on of floating-point arithmetic: a part of a whole is a rate between 0 and 1,
-- and so is 1; `m` times such a rate rounds to `m` at most.
pub record IsRateArithmetic {R : Type 0} (arithmetic : RateArithmetic R) : Type 0 where
  pub one-within : arithmetic.within arithmetic.one ≡ true
  pub ratio-within : (a b : ℕ) → a ≤ b → 0 < b → arithmetic.within (arithmetic.ratio a b) ≡ true
  pub rounded-le : (m : ℕ) (r : R) → arithmetic.within r ≡ true → arithmetic.rounded m r ≤ m

points_if_none-le : (m n : ℕ) → points_if_none m n ≤ m
points_if_none-le m n = elim (Bool-cases (n == 0)) [
  | inl e ↦ rw (e) (omega arith)
  | inr e ↦ rw (e) (omega arith)
]

at_most_100 :
    (a b c d total : ℕ) → a ≤ 40 → b ≤ 30 → c ≤ 15 → d ≤ 15 → total ≤ a + b + c + d → total ≤ 100
at_most_100 a b c d total e f g h i = omega (arith, e, f, g, h, i)

-- The points of each bucket and the total.
pub record Bounded {R : Type 0} (b : QaBuckets R) (mode : QaMode) (total : ℕ) : Type 0 where
  pub p0_points : b.p0_bucket.points ≤ 40
  pub p1_points : b.p1_bucket.points ≤ 30
  pub p2_points : b.p2_bucket.points ≤ 15
  pub visual_points : b.visual.points ≤ 15
  pub all_points : total ≤ 100
  pub no_browser_points : mode ≡ QaMode.no_browser → total ≤ 70

capped :
    (mode : QaMode) (n : ℕ) → mode ≡ QaMode.no_browser → (if is_full mode then n else min n 70) ≤ 70
capped QaMode.full n e = cc
capped QaMode.no_browser n e = omega arith

not_more : (mode : QaMode) (n : ℕ) → (if is_full mode then n else min n 70) ≤ n
not_more QaMode.full n = omega arith
not_more QaMode.no_browser n = omega arith

no_browser_fails :
    (mode : QaMode) (total a b c : ℕ)
    → mode ≡ QaMode.no_browser
    → compute_qa_pass mode total a b c ≡ false
unfolding compute_qa_pass
no_browser_fails QaMode.full total a b c e = cc
no_browser_fails QaMode.no_browser total a b c e = refl

module _ {R : Type 0} (arithmetic : RateArithmetic R) (lawful : IsRateArithmetic arithmetic) where
  pub pass_rate-within : (c : Counts) → arithmetic.within (pass_rate arithmetic c) ≡ true
  unfolding pass_rate
  pass_rate-within c = elim (Bool-cases (c.passed + c.failed == 0)) [
    | inl e ↦ rw (e, pass_rate) lawful.one-within
    | inr e ↦
        rw (e, pass_rate)
          (lawful.ratio-within c.passed (c.passed + c.failed) (omega arith)
            (ground (arith, e, ==_iff (c.passed + c.failed) 0)))
  ]

  module _ {Report : Type 0} (reporter : Reporter Report) (clock : Clock) where
    pub score_of-Bounded :
        (input : ScoreQaInput Report)
        → Bounded
            (buckets_of reporter arithmetic clock input)
            input.mode
            (total_of reporter arithmetic clock input)
    unfolding buckets_of total_of
    score_of-Bounded input =
        let b = buckets_of reporter arithmetic clock input in
        let q1 = pass_rate-within (counts_of reporter input p1) in
        let q2 = pass_rate-within (counts_of reporter input p2) in
        let r1 = lawful.rounded-le 30 b.p1_bucket.pass_rate q1 in
        let r2 = lawful.rounded-le 15 b.p2_bucket.pass_rate q2 in
        let r0 = points_if_none-le 40 (p0_failed reporter input) in
        let rv = points_if_none-le 15 b.visual.regressions in
        record {
          p0_points = r0;
          p1_points = r1;
          p2_points = r2;
          visual_points = rv;
          all_points =
              at_most_100 (b.p0_bucket.points) (b.p1_bucket.points) (b.p2_bucket.points)
                (b.visual.points) (total_of reporter arithmetic clock input) r0 r1 r2 rv
                (not_more input.mode (sum_points b));
          no_browser_points = capped input.mode (sum_points b);
        }

    -- The points of every score are within their buckets, 40, 30, 15 and 15, its total is at most 100,
    -- and at most 70 in a run without a browser, which never passes.
    pub score_qa-Bounded :
        (input : ScoreQaInput Report) (s : QaScore R)
        → score_qa reporter arithmetic clock input ≡ Scored.scored s
        → Bounded s.buckets s.mode s.total × (s.mode ≡ QaMode.no_browser → s.pass ≡ false)
    unfolding score_of
    score_qa-Bounded input s e =
        let (_, f) = scored_iff reporter arithmetic clock input s e in
        subst
          (λ (t : QaScore R).
            Bounded t.buckets t.mode t.total × (t.mode ≡ QaMode.no_browser → t.pass ≡ false))
          (sym f)
          (
            score_of-Bounded input,
            no_browser_fails input.mode (total_of reporter arithmetic clock input)
                (p0_failed reporter input)
                (buckets_of reporter arithmetic clock input).visual.regressions
                (report_failures_of reporter arithmetic clock input),
          )
