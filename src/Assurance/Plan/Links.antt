-- ===== src/Assurance/Plan/Links.antt =====
-- What the external calls, the knowledge and the validators of a plan say when the refinement finds
-- nothing wrong with them: references are declared, and links hold both ways.
use legion_cli.Prelude.{
  ◌≡◌, ◌↔◌, inl, inr, refl, sym, subst, Bool, true, false, not, Option, none, some, List, [], map,
  flat_map, contains, contains_iff, ◌==◌, ==_iff, nat_eq, list_eq, if◌then◌else◌, Memᴰ, arith,
  Bool-cases, List-cases,
}
use legion_cli.Text.{Text, codes}
use legion_cli.Assurance.Labels.Flow.{Distinct}
use legion_cli.Assurance.Labels.Product.{find}
use legion_cli.Assurance.Contract.{
  issue_if, issue_if-nil, unique_by-nil, Assertion, json_contract_files, contract_issues,
}
use legion_cli.Assurance.Plan.Visits.{KnowledgeUnit, unit_of}
use legion_cli.Assurance.Plan.{
  AssurancePlan, SecurityTask, Sink, ExternalCall, Validator, overlapping_pointers,
  is_information_flow, unit_checks, validator_reads, mode_issues, call_issues, knowledge_issues,
  json_contract_issues, configuration_issues, validator_issues,
}
use legion_cli.Assurance.Plan.Pointers.{Disjoint, overlapping_pointers_iff}
use legion_cli.Assurance.Plan.Sound.{Declared, refs-nil, issue_unless-nil, both-nil, each-nil}

optional_iff :
    {A : Type 0} (o : Option A) (ids : A → List Text) (id : Text)
    → ((elim o [ none ↦ false | some a ↦ contains (ids a) id ]) ≡ true)
      ↔ ((a : A) × (o ≡ some a) × Memᴰ id (ids a))
optional_iff none ids id = (λ h. cc, λ (a, e, m). cc)
optional_iff (some b) ids id = (
  λ h. (b, refl, (contains_iff (ids b) id).0 h),
  λ (a, e, m).
      let same : b ≡ a = cc in
      (contains_iff (ids b) id).1 (subst (λ x. Memᴰ id (ids x)) (sym same) m),
)

module _ {J N : Type 0} (lower : Text → Text) (json_contract : J → Option (List (Assertion N)))
    (safe : N → Bool) where
  -- Where tasks are governed by information flow, each has a contract.
  abbrev pub Governed : AssurancePlan J → Type 0
  Governed v =
      is_information_flow v.mode ≡ true
      → Declared v.task_ids (map (λ (x : SecurityTask). x.task_id) v.tasks)

  pub mode_issues-nil :
      (v : AssurancePlan J) → (mode_issues lower json_contract safe v ≡ []) ↔ Governed v
  unfolding mode_issues
  mode_issues-nil v = elim (Bool-cases (is_information_flow v.mode)) [
    | inl on ↦
        let (to, from) =
          refs-nil v.task_ids (map (λ (x : SecurityTask). x.task_id) v.tasks)
            "Every governed task requires an explicit read/transformation contract" in
        (λ h g. to (rw (on, mode_issues) at h), λ g. rw (on, mode_issues) (from (g on)))
    | inr off ↦ (λ h g. cc, λ g. rw (off, mode_issues) refl)
  ]

  -- A call names declared tasks and a declared sink, and its data pointers do not overlap.
  pub record SoundCall (v : AssurancePlan J) (x : ExternalCall J) : Type 0 where
    pub tasks : Declared x.task_ids v.task_ids
    pub sink : Memᴰ x.sink_id (map (λ (s : Sink). s.id) v.sinks)
    pub distinct : Distinct (map (λ p. p) x.data_pointers)
    pub disjoint : Disjoint x.data_pointers
    pub not_root : ¬ Memᴰ [] x.data_pointers

  pub call_issues-nil :
      (v : AssurancePlan J) (x : ExternalCall J)
      → (call_issues lower json_contract safe v x ≡ []) ↔ SoundCall v x
  unfolding call_issues
  call_issues-nil v x =
      let (to, from) =
        both-nil
          (both-nil
            (both-nil
              (both-nil (refs-nil x.task_ids v.task_ids "Undeclared external-call task") (
                issue_unless-nil (contains (map (λ (s : Sink). s.id) v.sinks) x.sink_id)
                  "Undeclared sink"))
              (unique_by-nil (λ p. p) x.data_pointers))
            (issue_if-nil (overlapping_pointers x.data_pointers) "Overlapping data pointers"))
          (issue_if-nil (contains x.data_pointers [])
            "Root request cannot be a data-only pointer") in
      (
        λ h.
            let ((((a, b), c), d), e) = to h in
            record {
              tasks = a;
              sink = (contains_iff (map (λ (s : Sink). s.id) v.sinks) x.sink_id).0 b;
              distinct = c;
              disjoint = (overlapping_pointers_iff x.data_pointers).0 d;
              not_root = λ m. let root = (contains_iff x.data_pointers []).1 m in cc;
            },
        λ s. from (
          (
            (
              (s.tasks, (contains_iff (map (λ (t : Sink). t.id) v.sinks) x.sink_id).1 s.sink),
              s.distinct,
            ),
            (overlapping_pointers_iff x.data_pointers).1 s.disjoint,
          ),
          (elim (Bool-cases (contains x.data_pointers [])) [
            | inl root ↦ absurd (s.not_root ((contains_iff x.data_pointers []).0 root))
            | inr away ↦ away
          ]),
        ),
      )

  -- The check of an id reads the unit.
  abbrev pub IsRead : AssurancePlan J → Text → Text → Type 0
  IsRead v check_id unit_id =
      (c : Validator J) × (find (λ (y : Validator J). y.id == check_id) v.validators ≡ some c)
      × Memᴰ unit_id c.input_unit_ids

  validator_reads_iff :
      (v : AssurancePlan J) (check_id unit_id : Text)
      → (validator_reads lower json_contract safe v.validators check_id unit_id ≡ true)
        ↔ IsRead v check_id unit_id
  validator_reads_iff v check_id unit_id =
      optional_iff (find (λ (y : Validator J). y.id == check_id) v.validators)
        (λ (c : Validator J). c.input_unit_ids) unit_id

  -- The unit of an id is checked.
  abbrev pub IsChecked : AssurancePlan J → Text → Text → Type 0
  IsChecked v unit_id check_id =
      (u : KnowledgeUnit) × (unit_of v.knowledge unit_id ≡ some u) × Memᴰ check_id u.check_ids

  unit_checks_iff :
      (v : AssurancePlan J) (unit_id check_id : Text)
      → (unit_checks v.knowledge unit_id check_id ≡ true) ↔ IsChecked v unit_id check_id
  unit_checks_iff v unit_id check_id =
      optional_iff (unit_of v.knowledge unit_id) (λ (u : KnowledgeUnit). u.check_ids) check_id

  -- A unit names declared criteria, tasks, units and checks, and its checks read it.
  pub record SoundUnit (v : AssurancePlan J) (x : KnowledgeUnit) : Type 0 where
    pub acceptance : Declared x.acceptance_ids v.acceptance_ids
    pub tasks : Declared x.task_ids v.task_ids
    pub depends : Declared x.depends_on (map (λ (u : KnowledgeUnit). u.id) v.knowledge)
    pub checks : Declared x.check_ids (map (λ (c : Validator J). c.id) v.validators)
    pub reciprocal : (id : Text) → Memᴰ id x.check_ids → IsRead v id x.id

  pub knowledge_issues-nil :
      (v : AssurancePlan J) (x : KnowledgeUnit)
      → (knowledge_issues lower json_contract safe v x ≡ []) ↔ SoundUnit v x
  unfolding knowledge_issues
  knowledge_issues-nil v x =
      let (to, from) =
        both-nil
          (both-nil
            (both-nil
              (both-nil
                (refs-nil x.acceptance_ids v.acceptance_ids "Undeclared knowledge acceptance")
                (refs-nil x.task_ids v.task_ids "Undeclared knowledge task"))
              (refs-nil x.depends_on (map (λ (u : KnowledgeUnit). u.id) v.knowledge)
                "Undeclared knowledge dependency"))
            (refs-nil x.check_ids (map (λ (c : Validator J). c.id) v.validators)
              "Undeclared knowledge check"))
          (each-nil
            (λ id.
              issue_if (not (validator_reads lower json_contract safe v.validators id x.id))
                "Knowledge/check link must be reciprocal")
            x.check_ids
            (λ id.
              issue_unless-nil (validator_reads lower json_contract safe v.validators id x.id)
                "Knowledge/check link must be reciprocal")) in
      (
        λ h.
            let ((((a, b), c), d), e) = to h in
            record {
              acceptance = a;
              tasks = b;
              depends = c;
              checks = d;
              reciprocal = λ id m. (validator_reads_iff v id x.id).0 (e id m);
            },
        λ s. from (
          (((s.acceptance, s.tasks), s.depends), s.checks),
          λ id m. (validator_reads_iff v id x.id).1 (s.reciprocal id m),
        ),
      )

  -- The configuration is a JSON contract without issues, over files that the validator reads.
  pub record HasContract (x : Validator J) : Type 0 where
    pub check : x.extension_check_id ≡ codes "json-contract"
    pub assertions : List (Assertion N)
    pub parsed : json_contract x.configuration ≡ some assertions
    pub correct : contract_issues safe assertions ≡ []
    pub files :
        Declared
          (flat_map (λ (a : Assertion N). json_contract_files a.predicate) assertions)
          x.input_files

  -- A contract without issues over declared files.
  abbrev IsContract : Option (List (Assertion N)) → List Text → Type 0
  IsContract parsed files =
      (assertions : List (Assertion N)) × (parsed ≡ some assertions)
      × (contract_issues safe assertions ≡ [])
      × Declared (flat_map (λ (a : Assertion N). json_contract_files a.predicate) assertions) files

  configuration_issues-nil :
      (parsed : Option (List (Assertion N))) (files : List Text)
      → (configuration_issues lower json_contract safe parsed files ≡ []) ↔ IsContract parsed files
  configuration_issues-nil none files = (λ h. cc, λ (a, e, c, d). cc)
  configuration_issues-nil (some assertions) files =
      let named = flat_map (λ (a : Assertion N). json_contract_files a.predicate) assertions in
      let (to, from) = refs-nil named files "Predicate file is not a declared raw input" in
      elim (List-cases (contract_issues safe assertions)) [
        | inl clean ↦ rw clean (
          λ h. (assertions, refl, clean, to h),
          λ (a, e, c, d).
              let same : a ≡ assertions = cc in
              from (
                subst
                  (λ x.
                    Declared (flat_map (λ (y : Assertion N). json_contract_files y.predicate) x)
                      files)
                  same d),
        )
        | inr (i, is, bad) ↦ rw bad (
          λ h. cc,
          λ (a, e, c, d).
              let same : assertions ≡ a = cc in
              let none_left : contract_issues safe assertions ≡ [] =
                subst (λ x. contract_issues safe x ≡ []) (sym same) c in
              cc,
        )
      ]

  json_contract_issues-nil :
      (x : Validator J) → (json_contract_issues lower json_contract safe x ≡ []) ↔ HasContract x
  unfolding json_contract_issues
  json_contract_issues-nil x =
      let (to, from) =
        both-nil
          (issue_unless-nil (x.extension_check_id == codes "json-contract")
            "JSON contract requires its declared check ID")
          (configuration_issues-nil (json_contract x.configuration) x.input_files) in
      (
        λ h.
            let (check, (assertions, parsed, correct, files)) = to h in
            record {
              check = (==_iff x.extension_check_id (codes "json-contract")).0 check;
              assertions = assertions;
              parsed = parsed;
              correct = correct;
              files = files;
            },
        λ c. from (
          (==_iff x.extension_check_id (codes "json-contract")).1 c.check,
          (c.assertions, c.parsed, c.correct, c.files),
        ),
      )

  -- A validator names declared criteria and units, its units are checked by it, and what names the
  -- built-in extension has a contract.
  pub record SoundValidator (v : AssurancePlan J) (x : Validator J) : Type 0 where
    pub acceptance : Declared x.acceptance_ids v.acceptance_ids
    pub units : Declared x.input_unit_ids (map (λ (u : KnowledgeUnit). u.id) v.knowledge)
    pub reciprocal : (id : Text) → Memᴰ id x.input_unit_ids → IsChecked v id x.id
    pub contract : x.extension_ref ≡ codes "extension:json-contract" → HasContract x

  pub validator_issues-nil :
      (v : AssurancePlan J) (x : Validator J)
      → (validator_issues lower json_contract safe v x ≡ []) ↔ SoundValidator v x
  unfolding validator_issues
  validator_issues-nil v x =
      let (to, from) =
        both-nil
          (both-nil
            (both-nil (refs-nil x.acceptance_ids v.acceptance_ids "Undeclared validator acceptance")
              (refs-nil x.input_unit_ids (map (λ (u : KnowledgeUnit). u.id) v.knowledge)
                "Undeclared validator unit"))
            (each-nil
              (λ id.
                issue_if (not (unit_checks v.knowledge id x.id))
                  "Check/knowledge link must be reciprocal")
              x.input_unit_ids
              (λ id.
                issue_unless-nil (unit_checks v.knowledge id x.id)
                  "Check/knowledge link must be reciprocal")))
          (extension_nil x) in
      (
        λ h.
            let (((a, b), c), d) = to h in
            record {
              acceptance = a;
              units = b;
              reciprocal = λ id m. (unit_checks_iff v id x.id).0 (c id m);
              contract = d;
            },
        λ s. from (
          ((s.acceptance, s.units), λ id m. (unit_checks_iff v id x.id).1 (s.reciprocal id m)),
          s.contract,
        ),
      )
    where
      extension_nil :
          (y : Validator J)
          → ((if y.extension_ref == codes "extension:json-contract"
                then json_contract_issues lower json_contract safe y
                else [])
              ≡ [])
            ↔ (y.extension_ref ≡ codes "extension:json-contract" → HasContract y)
      extension_nil y = elim (Bool-cases (y.extension_ref == codes "extension:json-contract")) [
        | inl on ↦
            let e = (==_iff y.extension_ref (codes "extension:json-contract")).0 on in
            let (to, from) = json_contract_issues-nil y in rw on (λ h k. to h, λ k. from (k e))
        | inr off ↦ rw off (
          λ h k.
              let on = (==_iff y.extension_ref (codes "extension:json-contract")).1 k in
              absurd (ground arith),
          λ k. refl,
        )
      ]
