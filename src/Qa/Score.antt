-- ===== src/Qa/Score.antt =====
-- A score and the refinements of its schema: QAScoreSchema and computeQaPass of
-- packages/schema/src/schemas.ts.
use legion_cli.Prelude.{
  ℕ, ◌+◌, Bool, true, false, not, ◌&&◌, ◌||◌, List, ◌==◌, nat_eq, list_eq, leb, all, length, min,
  if◌then◌else◌, is_empty,
}
use legion_cli.Text.{Text}
use legion_cli.Lifecycle.{Priority}

pub data QaMode : Type 0 where
  full no_browser : QaMode

abbrev pub is_full : QaMode → Bool
is_full QaMode.full = true
is_full QaMode.no_browser = false

pub data CriterionOutcome : Type 0 where
  passed failed skipped missing : CriterionOutcome

pub record CriterionResult : Type 0 where
  pub id : Text
  pub priority : Priority
  pub outcome : CriterionOutcome

-- The floating-point arithmetic of rates: `ratio a b` is `a / b`, `rounded m r` is
-- `Math.round(m * r)`.
pub record RateArithmetic (R : Type 0) : Type 0 where
  pub one : R
  pub ratio : ℕ → ℕ → R
  pub rounded : ℕ → R → ℕ
  pub within : R → Bool

-- The buckets without their constant `max`.
pub record P0Bucket : Type 0 where
  pub points : ℕ
  pub failed : ℕ

pub record RateBucket (R : Type 0) : Type 0 where
  pub points : ℕ
  pub pass_rate : R

pub record VisualBucket : Type 0 where
  pub points : ℕ
  pub regressions : ℕ

pub record QaBuckets (R : Type 0) : Type 0 where
  pub p0_bucket : P0Bucket
  pub p1_bucket : RateBucket R
  pub p2_bucket : RateBucket R
  pub visual : VisualBucket

unfoldable pub compute_qa_pass : QaMode → ℕ → ℕ → ℕ → ℕ → Bool
compute_qa_pass mode total p0_failed regressions report_failures =
    is_full mode && leb 85 total && p0_failed == 0 && regressions == 0 && report_failures == 0

abbrev pub points_if_none : ℕ → ℕ → ℕ
points_if_none points n = if n == 0 then points else 0

abbrev pub sum_points : {R : Type 0} → QaBuckets R → ℕ
sum_points b = b.p0_bucket.points + b.p1_bucket.points + b.p2_bucket.points + b.visual.points

-- `qaExpectedTotal`
unfoldable pub qa_expected_total : {R : Type 0} → QaMode → QaBuckets R → ℕ
qa_expected_total QaMode.no_browser b = min (sum_points b) 70
qa_expected_total QaMode.full b = sum_points b

unfoldable pub qa_bucket_points_valid : {R : Type 0} → RateArithmetic R → QaBuckets R → Bool
qa_bucket_points_valid arithmetic b =
    b.p0_bucket.points == points_if_none 40 b.p0_bucket.failed
    && b.p1_bucket.points == arithmetic.rounded 30 b.p1_bucket.pass_rate
    && b.p2_bucket.points == arithmetic.rounded 15 b.p2_bucket.pass_rate
    && b.visual.points == points_if_none 15 b.visual.regressions

pub record QaScore (R : Type 0) : Type 0 where
  pub id : Text
  pub spec_id : Text
  pub mode : QaMode
  pub buckets : QaBuckets R
  pub total : ℕ
  pub pass : Bool
  pub evidence_paths : List Text
  pub created_at : Text
  pub criteria : List CriterionResult
  pub missing_criterion_ids : List Text
  pub failed_criterion_ids : List Text
  pub skipped_criterion_ids : List Text
  pub report_failures : ℕ
  pub spec_hash : Text
  pub source_hash : Text

-- `SHA256_HEX_REGEX`
abbrev is_lower_hex : ℕ → Bool
is_lower_hex c = (leb b'0' c && leb c b'9') || (leb b'a' c && leb c b'f')

unfoldable pub is_sha256_hex : Text → Bool
is_sha256_hex s = length s == 64 && all is_lower_hex s

-- `min(1)` of the schema's strings.
abbrev pub is_filled : Text → Bool
is_filled s = not (is_empty s)

abbrev pub bool_beq : Bool → Bool → Bool
bool_beq true b = b
bool_beq false b = not b

-- What `QAScoreSchema` checks of the fields' own values.
unfoldable pub fields_valid : {R : Type 0} → RateArithmetic R → QaScore R → Bool
unfolding is_sha256_hex
fields_valid arithmetic s =
    is_filled s.id
    && is_filled s.spec_id
    && is_filled s.created_at
    && leb s.total 100
    && arithmetic.within s.buckets.p1_bucket.pass_rate
    && arithmetic.within s.buckets.p2_bucket.pass_rate
    && all (λ (c : CriterionResult). is_filled c.id) s.criteria
    && all is_filled s.missing_criterion_ids
    && all is_filled s.failed_criterion_ids
    && all is_filled s.skipped_criterion_ids
    && is_sha256_hex s.spec_hash
    && is_sha256_hex s.source_hash

-- The three refinements of `QAScoreSchema`.
unfoldable pub refinements_hold : {R : Type 0} → RateArithmetic R → QaScore R → Bool
unfolding qa_bucket_points_valid qa_expected_total compute_qa_pass
refinements_hold arithmetic s =
    qa_bucket_points_valid arithmetic s.buckets
    && s.total == qa_expected_total s.mode s.buckets
    && bool_beq s.pass (
        compute_qa_pass s.mode s.total s.buckets.p0_bucket.failed s.buckets.visual.regressions
          s.report_failures)

unfoldable pub schema_accepts : {R : Type 0} → RateArithmetic R → QaScore R → Bool
unfolding fields_valid refinements_hold
schema_accepts arithmetic s = fields_valid arithmetic s && refinements_hold arithmetic s
