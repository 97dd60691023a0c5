-- ===== src/Assurance/Evidence/Honest.antt =====
-- What a record of evidence says when CheckEvidenceSchema accepts it.
use legion_cli.Prelude.{
  ◌≡◌, ◌≢◌, ◌↔◌, inl, inr, refl, ◌∙◌, Bool, true, false, not, ◌&&◌, ◌||◌, Option, none, some, [],
  map, any, any-eq-false, ◌==◌, ==_iff, nat_eq, list_eq, Memᴰ, arith, Bool-cases, Option-cases,
}
use legion_cli.Text.{Text}
use legion_cli.Assurance.Labels.Flow.{Distinct}
use legion_cli.Assurance.Contract.{issue_if-nil, unique_by-nil}
use legion_cli.Assurance.Plan.Sound.{both-nil}
use legion_cli.Assurance.Evidence.{
  ComponentRuntimeIdentity, is_windows, is_job, differ, guard_issues, Verdict, ObservationStatus,
  CheckResult, Observation, ValidatorOutput, verdict_passed, observation_passed, output_issues,
  CheckEvidence, is_passed, is_unavailable, is_null, says_result, lacks_output, mismatch, bad_reuse,
  other_check, nested_issues, input_key, evidence_issues,
}

-- Observations have different names, and an output that passed has only observations that passed.
pub record SoundOutput (o : ValidatorOutput) : Type 0 where
  pub distinct : Distinct (map (λ (x : Observation). x.id) o.observations)
  pub honest :
      o.status ≡ Verdict.passed
      → (x : Observation) → Memᴰ x o.observations
      → x.status ≡ ObservationStatus.passed

passed_iff : (s : Verdict) → (verdict_passed s ≡ true) ↔ (s ≡ Verdict.passed)
passed_iff Verdict.passed = (λ h. refl, λ h. refl)
passed_iff Verdict.failed = (λ h. cc, λ h. cc)

observed_iff :
    (s : ObservationStatus) → (not (observation_passed s) ≡ false) ↔ (s ≡ ObservationStatus.passed)
observed_iff ObservationStatus.passed = (λ h. refl, λ h. refl)
observed_iff ObservationStatus.failed = (λ h. cc, λ h. cc)
observed_iff ObservationStatus.error = (λ h. cc, λ h. cc)

output_issues-nil : (o : ValidatorOutput) → (output_issues o ≡ []) ↔ SoundOutput o
unfolding output_issues
output_issues-nil o =
    let bad = any (λ (x : Observation). not (observation_passed x.status)) o.observations in
    let (to, from) = both-nil (unique_by-nil (λ (x : Observation). x.id) o.observations) (
      issue_if-nil (verdict_passed o.status && bad)
        "Failed/error observation cannot yield passed") in
    (
      λ h.
          let (d, e) = to h in
          record {
            distinct = d;
            honest = λ p x m.
                let on = (passed_iff o.status).1 p in
                let clean : bad ≡ false = ground arith in
                (observed_iff x.status).0 (
                  (any-eq-false (λ (y : Observation). not (observation_passed y.status))
                      o.observations).0
                    clean x m);
          },
      λ s. from (
        s.distinct,
        elim (Bool-cases (verdict_passed o.status)) [
          | inr off ↦ ground arith
          | inl on ↦
              let clean : bad ≡ false =
                (any-eq-false (λ (y : Observation). not (observation_passed y.status))
                    o.observations).1
                  (λ x m. (observed_iff x.status).1 (s.honest ((passed_iff o.status).0 on) x m)) in
              ground arith
        ],
      ),
    )

unavailable_iff : (r : CheckResult) → (is_unavailable r ≡ true) ↔ (r ≡ CheckResult.unavailable)
unavailable_iff CheckResult.passed = (λ h. cc, λ h. cc)
unavailable_iff CheckResult.failed = (λ h. cc, λ h. cc)
unavailable_iff CheckResult.unavailable = (λ h. refl, λ h. refl)

is_passed_iff : (r : CheckResult) → (is_passed r ≡ true) ↔ (r ≡ CheckResult.passed)
is_passed_iff CheckResult.passed = (λ h. refl, λ h. refl)
is_passed_iff CheckResult.failed = (λ h. cc, λ h. cc)
is_passed_iff CheckResult.unavailable = (λ h. cc, λ h. cc)

is_null_iff : {A : Type 0} (o : Option A) → (is_null o ≡ true) ↔ (o ≡ none)
is_null_iff none = (λ h. refl, λ h. refl)
is_null_iff (some a) = (λ h. cc, λ h. cc)

-- Evidence may be reused only from another execution, and only if the check passed.
abbrev pub HonestReuse : CheckEvidence → Type 0
HonestReuse v =
    (source : Text)
    → v.reused_from ≡ some source
    → (v.result ≡ CheckResult.passed) × (source ≢ v.execution_id)

bad_reuse_iff : (v : CheckEvidence) → (bad_reuse v ≡ false) ↔ HonestReuse v
bad_reuse_iff v = elim (Option-cases v.reused_from) [
  | inl e ↦ (λ h s f. cc, λ h. rw e refl)
  | inr (s, e) ↦ (
    λ h t f.
        let same : s ≡ t = cc in
        let fine : (not (is_passed v.result) || (s == v.execution_id)) ≡ false = rw e at h in
        (
          (is_passed_iff v.result).0 (ground arith),
          λ k. let on = (==_iff s v.execution_id).1 (same ∙ k) in absurd (ground arith),
        ),
    λ h.
        let (p, n) = h s e in
        let on = (is_passed_iff v.result).1 p in
        rw e (elim (Bool-cases (s == v.execution_id)) [
          | inl k ↦ absurd (n ((==_iff s v.execution_id).0 k))
          | inr k ↦ ground arith
        ]),
  )
]

-- A result of the host, which ran nothing, or one of the approved check, which tells its output.
pub data Reported (v : CheckEvidence) : Type 0 where
  not_run :
      v.result ≡ CheckResult.unavailable
      → v.output ≡ none
      → v.observation_digest ≡ none
      → v.reason ≢ none
      → Reported v
  ran :
      (o : ValidatorOutput)
      → v.output ≡ some o
      → says_result o.status v.result ≡ true
      → o.check_id ≡ v.extension_check_id
      → SoundOutput o
      → v.observation_digest ≢ none
      → v.input_digest ≢ none
      → v.reason ≡ none
      → Reported v

given_iff : {A : Type 0} (o : Option A) → (is_null o ≡ false) ↔ (o ≢ none)
given_iff none = (λ h. cc, λ h. absurd (h refl))
given_iff (some a) = (λ h e. cc, λ h. refl)

-- The tests of the refinement that concern the result and its output.
abbrev Told : CheckEvidence → Type 0
Told v =
    (nested_issues v.output ≡ [])
    × (mismatch v ≡ false)
    × ((not (is_unavailable v.result) && is_null v.input_digest) ≡ false)
    × (differ (is_unavailable v.result) (not (is_null v.reason)) ≡ false)
    × (other_check v ≡ false)

Told-Reported : (v : CheckEvidence) → Told v → Reported v
Told-Reported v (nested, same, input, reason, check) = elim (Bool-cases (is_unavailable v.result)) [
  | inl un ↦
      let empty : (not (is_null v.output) || not (is_null v.observation_digest)) ≡ false =
        rw un at same in
      let because : not (not (is_null v.reason)) ≡ false = rw un at reason in
      Reported.not_run ((unavailable_iff v.result).0 un) ((is_null_iff v.output).0 (ground arith))
        ((is_null_iff v.observation_digest).0 (ground arith))
        ((given_iff v.reason).0 (ground arith))
  | inr executed ↦
      let told : (lacks_output v.output v.result || is_null v.observation_digest) ≡ false =
        rw executed at same in
      let digest : (not false && is_null v.input_digest) ≡ false = rw executed at input in
      let none_given : not (is_null v.reason) ≡ false = rw executed at reason in
      elim (Option-cases v.output) [
        | inl e ↦
            let lacking : (lacks_output none v.result || is_null v.observation_digest) ≡ false =
              rw e at told in
            cc
        | inr (o, e) ↦
            let says : (not (says_result o.status v.result) || is_null v.observation_digest)
                ≡ false =
              rw e at told in
            let clean : output_issues o ≡ [] = rw e at nested in
            let named : not (o.check_id == v.extension_check_id) ≡ false = rw e at check in
            Reported.ran o e (ground arith)
              ((==_iff o.check_id v.extension_check_id).0 (ground arith))
              ((output_issues-nil o).0 clean) ((given_iff v.observation_digest).0 (ground arith))
              ((given_iff v.input_digest).0 digest) ((is_null_iff v.reason).0 (ground arith))
      ]
]

says_run : (s : Verdict) (r : CheckResult) → says_result s r ≡ true → is_unavailable r ≡ false
says_run Verdict.passed CheckResult.passed h = refl
says_run Verdict.failed CheckResult.failed h = refl
says_run Verdict.passed CheckResult.failed h = cc
says_run Verdict.passed CheckResult.unavailable h = cc
says_run Verdict.failed CheckResult.passed h = cc
says_run Verdict.failed CheckResult.unavailable h = cc

Reported-Told : (v : CheckEvidence) → Reported v → Told v
Reported-Told v (Reported.not_run un output observed because) =
    let r = (unavailable_iff v.result).1 un in
    let given = (given_iff v.reason).1 because in
    (
      rw output refl,
      rw r (rw output (rw observed refl)),
      rw r refl,
      rw r (rw given refl),
      rw output refl,
    )
Reported-Told v (Reported.ran o e says named sound observed input reason) =
    let r = says_run o.status v.result says in
    let digest = (given_iff v.observation_digest).1 observed in
    let admitted = (given_iff v.input_digest).1 input in
    let id = (==_iff o.check_id v.extension_check_id).1 named in
    (
      rw e ((output_issues-nil o).1 sound),
      rw r (rw e (rw says digest)),
      rw r admitted,
      rw r (rw reason refl),
      rw e (rw id refl),
    )

module _ (lower : Text → Text) where
  pub record SoundEvidence (v : CheckEvidence) : Type 0 where
    pub guard : is_windows v.runtime.target ≡ is_job v.runtime.guard
    pub inputs : Distinct (map (input_key lower) v.inputs)
    pub reuse : HonestReuse v
    pub reported : Reported v

  differ_iff : (a b : Bool) → (differ a b ≡ false) ↔ (a ≡ b)
  differ_iff true true = (λ h. refl, λ h. refl)
  differ_iff true false = (λ h. cc, λ h. cc)
  differ_iff false true = (λ h. cc, λ h. cc)
  differ_iff false false = (λ h. refl, λ h. refl)

  guard_issues-nil :
      (v : ComponentRuntimeIdentity)
      → (guard_issues v ≡ []) ↔ (differ (is_windows v.target) (is_job v.guard) ≡ false)
  unfolding guard_issues
  guard_issues-nil v =
      issue_if-nil (differ (is_windows v.target) (is_job v.guard))
        "Native budget kind must match platform"

  -- The refinements of a record of evidence add no issue exactly when its runtime's guard is that of
  -- the platform, its inputs are different, and it reports honestly. Either the host could not run
  -- the check: there are no output and no observations, and there is a reason. Or it ran: the output
  -- is that of the approved check and says the result, it passed only if all its observations did,
  -- whose names differ, the digests of the observations and of the input are there, and no other
  -- reason is. Only a passed result may be taken from another execution.
  pub evidence_issues-nil_iff :
      (v : CheckEvidence) → (evidence_issues lower v ≡ []) ↔ SoundEvidence v
  unfolding evidence_issues
  evidence_issues-nil_iff v =
      let (to, from) =
        both-nil
          (both-nil
            (both-nil
              (both-nil
                (both-nil
                  (both-nil (both-nil (guard_issues-nil v.runtime) (λ h. h, λ h. h))
                    (unique_by-nil (input_key lower) v.inputs))
                  (issue_if-nil (bad_reuse v) "Only a prior passed execution may be reused"))
                (issue_if-nil (mismatch v) "Result/output identity mismatch"))
              (issue_if-nil (not (is_unavailable v.result) && is_null v.input_digest)
                "An executed validator result requires the admitted packet digest"))
            (issue_if-nil (differ (is_unavailable v.result) (not (is_null v.reason)))
              "A host-unavailable result requires its diagnostic; executed results use observations"))
          (issue_if-nil (other_check v) "Module output must name the approved extension check") in
      (
        λ h.
            let (((((((a, b), c), d), e), f), g), i) = to h in
            record {
              guard = (differ_iff (is_windows v.runtime.target) (is_job v.runtime.guard)).0 a;
              inputs = c;
              reuse = (bad_reuse_iff v).0 d;
              reported = Told-Reported v (b, e, f, g, i);
            },
        λ s.
            let (b, e, f, g, i) = Reported-Told v s.reported in
            from (
              (
                (
                  (
                    (
                      (
                        (
                          (differ_iff (is_windows v.runtime.target) (is_job v.runtime.guard)).1
                              s.guard,
                          b,
                        ),
                        s.inputs,
                      ),
                      (bad_reuse_iff v).1 s.reuse,
                    ),
                    e,
                  ),
                  f,
                ),
                g,
              ),
              i,
            ),
      )
