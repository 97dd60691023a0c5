-- ===== src/Qa/Accepted.antt =====
-- The schema takes every score that is made: QAScoreSchema against scoreQa.
use legion_cli.Prelude.{
  ℕ, ◌≤◌, ◌≡◌, ◌≢◌, ◌∙◌, ◌⊎◌, inl, inr, refl, ap, Bool, true, false, ◌&&◌, Option, none, some, List,
  [], filter, all, all_iff, Memᴰ, Memᴰ-filter, ◌==◌, nat_eq, ==_iff, leb, min, is_empty,
  is_empty_iff, some_iff, if◌then◌else◌, Bool-cases, arith,
}
use legion_cli.Text.{Text}
use legion_cli.Lifecycle.{p1, p2}
use legion_cli.Graph.Readiness.{AcceptanceCriterion}
use legion_cli.Qa.Score.{
  QaMode, is_full, CriterionOutcome, CriterionResult, RateArithmetic, QaScore, QaBuckets,
  qa_expected_total, qa_bucket_points_valid, fields_valid, refinements_hold, schema_accepts,
  sum_points, is_filled, is_sha256_hex, bool_beq,
}
use legion_cli.Qa.Outcomes.{ParsedTest, criterion_results, is_missing, is_failed, is_skipped}
use legion_cli.Qa.Criteria.{mem_unmap}
use legion_cli.Qa.Scoring.{
  Reporter, Clock, ScoreQaInput, Scored, or_else, no_hash, tests_of, criteria_of, counts_of,
  buckets_of, total_of, ids_with, score_of, score_qa,
}
use legion_cli.Qa.Bounds.{IsRateArithmetic, pass_rate-within, score_of-Bounded}

beq_refl : (n : ℕ) → (n == n) ≡ true
beq_refl n = (==_iff n n).1 refl

le_leb : (a b : ℕ) → a ≤ b → leb a b ≡ true
le_leb a b h = ground arith

zero_when :
    {R : Type 0} (a : Bool) (x : Scored R)
    → a ≡ true
    → (if a then Scored.zero_tests else x) ≡ Scored.zero_tests
zero_when a x e = rw (e) refl

scored_when :
    {R : Type 0} (a b : Bool) (x : QaScore R)
    → a ≡ false
    → b ≡ true
    → (if a then Scored.zero_tests else if b then Scored.scored x else Scored.schema_error)
      ≡ Scored.scored x
scored_when a b x e f = rw (e, f) refl

or_else-all :
    {A : Type 0} (p : A → Bool) (o : Option A) (d : A)
    → ((a : A) → o ≡ some a → p a ≡ true)
    → p d ≡ true
    → p (or_else o d) ≡ true
or_else-all p none d h k = k
or_else-all p (some a) d h k = h a refl

no_hash-hex : is_sha256_hex no_hash ≡ true
unfolding is_sha256_hex no_hash
no_hash-hex = refl

three_true : {a b c : Bool} → a ≡ true → b ≡ true → c ≡ true → a && b && c ≡ true
three_true e f g = rw (e, f, g) refl

both_true : {a b : Bool} → a ≡ true → b ≡ true → a && b ≡ true
both_true e f = rw (e, f) refl

four_true : {a b c d : Bool} → a ≡ true → b ≡ true → c ≡ true → d ≡ true → a && b && c && d ≡ true
four_true e f g h = rw (e, f, g, h) refl

expected :
    {R : Type 0} (mode : QaMode) (b : QaBuckets R)
    → ((if is_full mode then sum_points b else min (sum_points b) 70) == qa_expected_total mode b)
      ≡ true
unfolding qa_expected_total
expected QaMode.full b = beq_refl (sum_points b)
expected QaMode.no_browser b = beq_refl (min (sum_points b) 70)

bool_beq_refl : (b : Bool) → bool_beq b b ≡ true
bool_beq_refl true = refl
bool_beq_refl false = refl

module _ {R : Type 0} (arithmetic : RateArithmetic R) (lawful : IsRateArithmetic arithmetic) where
  module _ {Report : Type 0} (reporter : Reporter Report) (clock : Clock) where
    refined :
        (input : ScoreQaInput Report)
        → refinements_hold arithmetic (score_of reporter arithmetic clock input) ≡ true
    unfolding refinements_hold score_of buckets_of total_of qa_bucket_points_valid
    refined input =
        let b = buckets_of reporter arithmetic clock input in
        let valid =
          four_true (beq_refl b.p0_bucket.points) (beq_refl b.p1_bucket.points)
            (beq_refl b.p2_bucket.points) (beq_refl b.visual.points) in
        three_true valid (expected input.mode b)
          (bool_beq_refl (score_of reporter arithmetic clock input).pass)

    -- The strings that the schema wants filled, and the hashes that it wants in hexadecimal digits.
    pub record IsFilled (input : ScoreQaInput Report) : Type 0 where
      pub id-filled : (id : Text) → input.id ≡ some id → is_filled id ≡ true
      pub fresh-filled : is_filled clock.fresh_id ≡ true
      pub spec-filled : is_filled input.spec_id ≡ true
      pub created-filled : (t : Text) → input.created_at ≡ some t → is_filled t ≡ true
      pub now-filled : is_filled clock.now ≡ true
      pub criteria-filled :
          (acceptance : List AcceptanceCriterion) (c : AcceptanceCriterion)
          → input.acceptance ≡ some acceptance
          → Memᴰ c acceptance
          → is_filled c.id ≡ true
      pub spec_hash-hex : (h : Text) → input.spec_hash ≡ some h → is_sha256_hex h ≡ true
      pub source_hash-hex : (h : Text) → input.source_hash ≡ some h → is_sha256_hex h ≡ true

    results_filled :
        (tests : List ParsedTest) (manual : List Text) (o : Option (List AcceptanceCriterion))
        → ((acceptance : List AcceptanceCriterion) (c : AcceptanceCriterion)
            → o ≡ some acceptance
            → Memᴰ c acceptance
            → is_filled c.id ≡ true)
        → (r : CriterionResult)
        → Memᴰ r
            (elim o [ none ↦ [] | some acceptance ↦ criterion_results acceptance tests manual ])
        → is_filled r.id ≡ true
    unfolding criterion_results
    results_filled tests manual none f r m = elim m [ ]
    results_filled tests manual (some acceptance) f r m =
        let (c, n, e) = mem_unmap _ r acceptance m in
        ap (λ (q : CriterionResult). is_filled q.id) e ∙ f acceptance c refl n

    criteria_filled :
        (input : ScoreQaInput Report)
        → IsFilled input
        → (r : CriterionResult) → Memᴰ r (criteria_of reporter input)
        → is_filled r.id ≡ true
    criteria_filled input f r m =
        results_filled (tests_of reporter input) input.manual_passed input.acceptance
          f.criteria-filled r m

    ids_filled :
        (p : CriterionOutcome → Bool) (input : ScoreQaInput Report)
        → IsFilled input
        → all is_filled (ids_with reporter arithmetic clock p input) ≡ true
    ids_filled p input f =
        (all_iff is_filled (ids_with reporter arithmetic clock p input)).1 (λ id m.
          let (r, n, e) =
            mem_unmap (λ (c : CriterionResult). c.id) id
              (filter (λ (c : CriterionResult). p c.outcome) (criteria_of reporter input)) m in
          let (k, _) =
            (Memᴰ-filter (λ (c : CriterionResult). p c.outcome) r (criteria_of reporter input)).0
              n in
          ap is_filled e ∙ criteria_filled input f r k)

    fields :
        (input : ScoreQaInput Report)
        → IsFilled input
        → fields_valid arithmetic (score_of reporter arithmetic clock input) ≡ true
    unfolding fields_valid score_of buckets_of
    fields input f =
        let bounded = score_of-Bounded arithmetic lawful reporter clock input in
        let total_ok = le_leb (total_of reporter arithmetic clock input) 100 bounded.all_points in
        let rate1 = pass_rate-within arithmetic lawful (counts_of reporter input p1) in
        let rate2 = pass_rate-within arithmetic lawful (counts_of reporter input p2) in
        let identity = or_else-all is_filled input.id clock.fresh_id f.id-filled f.fresh-filled in
        let created =
          or_else-all is_filled input.created_at clock.now f.created-filled f.now-filled in
        let named =
          (all_iff (λ (c : CriterionResult). is_filled c.id) (criteria_of reporter input)).1
            (criteria_filled input f) in
        let own_hash =
          or_else-all is_sha256_hex input.spec_hash no_hash f.spec_hash-hex no_hash-hex in
        let code_hash =
          or_else-all is_sha256_hex input.source_hash no_hash f.source_hash-hex no_hash-hex in
        let first = four_true identity f.spec-filled created total_ok in
        let second = four_true first rate1 rate2 named in
        let third =
          four_true second (ids_filled is_missing input f) (ids_filled is_failed input f)
            (ids_filled is_skipped input f) in
        three_true third own_hash code_hash

    accepted :
        (input : ScoreQaInput Report)
        → IsFilled input
        → schema_accepts arithmetic (score_of reporter arithmetic clock input) ≡ true
    unfolding schema_accepts
    accepted input f = both_true (fields input f) (refined input)

    -- Where the strings of the input are filled and its spec hash and source hash are each 64 lower-case
    -- hexadecimal digits, a run without tests is refused and every other run is scored: the schema takes
    -- the score.
    pub score_qa_cases :
        (input : ScoreQaInput Report)
        → IsFilled input
        → ((tests_of reporter input ≡ [])
            × (score_qa reporter arithmetic clock input ≡ Scored.zero_tests))
          ⊎ ((tests_of reporter input ≢ [])
              × (score_qa reporter arithmetic clock input
                  ≡ Scored.scored (score_of reporter arithmetic clock input)))
    unfolding score_qa
    score_qa_cases input f =
        let score = score_of reporter arithmetic clock input in
        let accepts = schema_accepts arithmetic score in
        elim (Bool-cases (is_empty (tests_of reporter input))) [
          | inl e ↦ inl (
            (is_empty_iff (tests_of reporter input)).0 e,
            zero_when (is_empty (tests_of reporter input)) _ e,
          )
          | inr e ↦ inr (
            (some_iff (tests_of reporter input)).0 e,
            scored_when (is_empty (tests_of reporter input)) accepts score e (accepted input f),
          )
        ]
