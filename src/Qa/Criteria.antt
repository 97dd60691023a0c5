-- ===== src/Qa/Criteria.antt =====
-- When a criterion counts as passed, and when nothing in a bucket has failed.
use legion_cli.Prelude.{
  ℕ, ◌≡◌, ◌∙◌, ==_iff, ◌↔◌, ◌⊎◌, inl, inr, refl, sym, ap, Bool, true, false, not, ◌&&◌, ◌||◌, List,
  [], ◌∷◌, map, Memᴰ, Memᴰ-filter, ◌==◌, nat_eq, list_eq, any, any_iff, any-eq-false, filter,
  filter-eq-nil, contains, contains_iff, length, max, is_empty, if◌then◌else◌, arith,
}
use legion_cli.Text.{Text}
use legion_cli.Lifecycle.{Priority, priority_eq}
use legion_cli.Graph.Readiness.{AcceptanceCriterion}
use legion_cli.Qa.Tags.{is_visual_title}
use legion_cli.Qa.Score.{QaMode, CriterionOutcome, CriterionResult}
use legion_cli.Qa.Outcomes.{
  ParsedTest, count, has_failed, has_passed, in_bucket, bucket_counts, linked, criterion_outcome,
  criterion_results, is_passed, criterion_bucket_counts, is_visual_regression, visual_regressions,
}

length-nil : {A : Type 0} (xs : List A) → length xs ≡ 0 → xs ≡ []
length-nil [] e = refl
length-nil (x ∷ xs) e = ground arith

pub count_zero_iff :
    {A : Type 0} (p : A → Bool) (xs : List A)
    → (count p xs ≡ 0) ↔ ((x : A) → Memᴰ x xs → p x ≡ false)
count_zero_iff p xs =
    let f = filter-eq-nil p xs in (λ e. f.0 (length-nil (filter p xs) e), λ h. ap length (f.1 h))

-- Every test that was not skipped is ok.
abbrev pub NoneFailed : List ParsedTest → Type 0
NoneFailed tests = (t : ParsedTest) → Memᴰ t tests → t.skipped ≡ false → t.ok ≡ true

-- A test that names the criterion has passed.
abbrev pub HasPassing : List ParsedTest → Text → Type 0
HasPassing tests id =
    (t : ParsedTest) × Memᴰ t tests × Memᴰ id t.acceptance_ids × (t.skipped ≡ false) × (t.ok ≡ true)

failed_not : (s o : Bool) → not s && not o ≡ false → s ≡ false → o ≡ true
failed_not false true e f = refl
failed_not false false e f = cc
failed_not true o e f = cc

not_failed : (s o : Bool) → (s ≡ false → o ≡ true) → not s && not o ≡ false
not_failed false true h = refl
not_failed false false h = sym (h refl)
not_failed true o h = refl

pub count-failed_iff : (tests : List ParsedTest) → (count has_failed tests ≡ 0) ↔ NoneFailed tests
count-failed_iff tests =
    let f = count_zero_iff has_failed tests in
    (
      λ e t m. failed_not t.skipped t.ok (f.0 e t m),
      λ h. f.1 (λ t m. not_failed t.skipped t.ok (h t m)),
    )

linked_iff :
    (p : ParsedTest → Bool) (id : Text) (tests : List ParsedTest)
    → (any p (linked id tests) ≡ true)
      ↔ ((t : ParsedTest) × Memᴰ t tests × Memᴰ id t.acceptance_ids × (p t ≡ true))
linked_iff p id tests =
    let f = any_iff p (linked id tests) in
    let names : ParsedTest → Bool = λ (t : ParsedTest). contains t.acceptance_ids id in
    (
      λ e.
          let (t, m, h) = f.0 e in
          let (m', c) = (Memᴰ-filter names t tests).0 m in
          (t, m', (contains_iff t.acceptance_ids id).0 c, h),
      λ (t, m, c, h).
          f.1 (t, (Memᴰ-filter names t tests).1 (m, (contains_iff t.acceptance_ids id).1 c), h),
    )

is_passed-if :
    (f p m e : Bool)
    → (is_passed (
          if f
          then CriterionOutcome.failed
          else if p
          then CriterionOutcome.passed
          else if m
          then CriterionOutcome.passed
          else if e
          then CriterionOutcome.skipped
          else CriterionOutcome.missing)
        ≡ true)
      ↔ ((f ≡ false) × ((p ≡ true) ⊎ (m ≡ true)))
is_passed-if true p m e = ground arith
is_passed-if false true m e = ground arith
is_passed-if false false true e = ground arith
is_passed-if false false false true = ground arith
is_passed-if false false false false = ground arith

both_of : (s o : Bool) → not s && o ≡ true → s ≡ false × o ≡ true
both_of false true e = (refl, refl)
both_of false false e = cc
both_of true o e = cc

none_linked :
    (tests : List ParsedTest) (id : Text)
    → NoneFailed tests
    → any has_failed (linked id tests) ≡ false
none_linked tests id h = (any-eq-false has_failed (linked id tests)).1 (λ t m.
    not_failed t.skipped t.ok
      (h t ((Memᴰ-filter (λ (t : ParsedTest). contains t.acceptance_ids id) t tests).0 m).0))

-- Where no test has failed, a criterion has passed when a test that names it has, or when it was
-- ticked by hand.
pub criterion_outcome_iff :
    (tests : List ParsedTest) (manual : List Text) (id : Text)
    → NoneFailed tests
    → (is_passed (criterion_outcome tests manual id) ≡ true)
      ↔ (HasPassing tests id ⊎ Memᴰ id manual)
unfolding criterion_outcome
criterion_outcome_iff tests manual id h =
    let failed = any has_failed (linked id tests) in
    let passed = any has_passed (linked id tests) in
    let given = not (is_empty (linked id tests)) in
    let f = is_passed-if failed passed (contains manual id) given in
    let found = linked_iff has_passed id tests in
    let by_hand = contains_iff manual id in
    (
      λ e. elim ((f.0 e).1) [
        | inl q ↦
            let (t, m, c, k) = found.0 q in
            let (sk, o) = both_of t.skipped t.ok k in inl (t, m, c, sk, o)
        | inr q ↦ inr (by_hand.0 q)
      ],
      λ w. f.1 (
        none_linked tests id h,
        elim w [
          | inl (t, m, c, sk, o) ↦ inl (found.1 (t, m, c, rw (sk, o) refl))
          | inr m ↦ inr (by_hand.1 m)
        ],
      ),
    )

-- Every criterion of the priority has passed.
abbrev pub AllMet : Priority → List AcceptanceCriterion → List ParsedTest → List Text → Type 0
AllMet priority acceptance tests manual =
    (c : AcceptanceCriterion)
    → Memᴰ c acceptance
    → c.priority ≡ priority
    → HasPassing tests c.id ⊎ Memᴰ c.id manual

pub mem_map : {A B : Type 0} (f : A → B) (x : A) (xs : List A) → Memᴰ x xs → Memᴰ (f x) (map f xs)
mem_map f x [] m = elim m [ ]
mem_map f x (y ∷ xs) (Memᴰ.head e) = Memᴰ.head (ap f e)
mem_map f x (y ∷ xs) (Memᴰ.tail m) = Memᴰ.tail (mem_map f x xs m)

pub mem_unmap :
    {A B : Type 0} (f : A → B) (y : B) (xs : List A)
    → Memᴰ y (map f xs)
    → (x : A) × Memᴰ x xs × (y ≡ f x)
mem_unmap f y [] m = elim m [ ]
mem_unmap f y (x ∷ xs) (Memᴰ.head e) = (x, Memᴰ.head refl, e)
mem_unmap f y (x ∷ xs) (Memᴰ.tail m) = let (z, n, e) = mem_unmap f y xs m in (z, Memᴰ.tail n, e)

count-map_iff :
    {A B : Type 0} (f : A → B) (q p : B → Bool) (xs : List A)
    → (count p (filter q (map f xs)) ≡ 0) ↔ ((x : A) → Memᴰ x xs → q (f x) ≡ true → p (f x) ≡ false)
count-map_iff f q p xs =
    let c = count_zero_iff p (filter q (map f xs)) in
    (
      λ e x m h. c.0 e (f x) ((Memᴰ-filter q (f x) (map f xs)).1 (mem_map f x xs m, h)),
      λ h. c.1 (λ y m.
          let (m', hq) = (Memᴰ-filter q y (map f xs)).0 m in
          let (x, mx, e) = mem_unmap f y xs m' in ap p e ∙ h x mx (ap q (sym e) ∙ hq)),
    )

double_not : {b : Bool} → not b ≡ false → b ≡ true
double_not {b = true} e = refl
double_not {b = false} e = cc

pub criterion-failed_iff :
    (priority : Priority) (acceptance : List AcceptanceCriterion) (tests : List ParsedTest)
    (manual : List Text)
    → NoneFailed tests
    → ((criterion_bucket_counts (criterion_results acceptance tests manual) priority).failed ≡ 0)
      ↔ AllMet priority acceptance tests manual
unfolding criterion_bucket_counts criterion_results
criterion-failed_iff priority acceptance tests manual h =
    let result : AcceptanceCriterion → CriterionResult = λ (c : AcceptanceCriterion). record {
      id = c.id;
      priority = c.priority;
      outcome = criterion_outcome tests manual c.id;
    } in
    let f =
      count-map_iff result (λ (c : CriterionResult). c.priority == priority)
        (λ (c : CriterionResult). not (is_passed c.outcome)) acceptance in
    let met = λ (c : AcceptanceCriterion). criterion_outcome_iff tests manual c.id h in
    (
      λ e c m k. (met c).0 (double_not (f.0 e c m ((==_iff c.priority priority).1 k))),
      λ w. f.1 (λ c m k. rw ((met c).1 (w c m ((==_iff c.priority priority).0 k))) refl),
    )

not_in_bucket : (p s v o : Bool) → (s ≡ false → o ≡ true) → (p && not s && not v) && not o ≡ false
not_in_bucket true false v true h = ground arith
not_in_bucket true false v false h = ground arith
not_in_bucket true true v o h = ground arith
not_in_bucket false s v o h = ground arith

pub bucket-failed :
    (priority : Priority) (tests : List ParsedTest)
    → NoneFailed tests
    → (bucket_counts tests priority).failed ≡ 0
unfolding bucket_counts in_bucket
bucket-failed priority tests h =
    (count_zero_iff (λ (t : ParsedTest). in_bucket priority t && not t.ok) tests).1 (λ t m.
      not_in_bucket (t.priority == priority) t.skipped (is_visual_title t.title) t.ok (h t m))

regressions_if :
    (n : ℕ) (has_ui ran : Bool)
    → n ≡ 0
    → ((if not has_ui then 0 else if not true || not ran then max n 1 else n) ≡ 0)
      ↔ (has_ui ≡ true → ran ≡ true)
regressions_if n false ran e = ground arith
regressions_if n true true e = ground arith
regressions_if n true false e = ground arith

pub visual_regressions_iff :
    (tests : List ParsedTest) (has_ui ran : Bool)
    → NoneFailed tests
    → (visual_regressions tests has_ui QaMode.full ran ≡ 0) ↔ (has_ui ≡ true → ran ≡ true)
unfolding visual_regressions
visual_regressions_iff tests has_ui ran h =
    regressions_if (count is_visual_regression tests) has_ui ran (
      (count_zero_iff is_visual_regression tests).1
        (λ t m. rw (not_failed t.skipped t.ok (h t m)) refl))
