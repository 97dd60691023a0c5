-- ===== src/Assurance/Plan/Sound.antt =====
-- What a plan says when the refinement of AssurancePlanSchema finds nothing wrong with it, part by
-- part: names are unique, references are declared, and links hold both ways.
use legion_cli.Prelude.{
  ◌≡◌, ◌↔◌, refl, Bool, true, false, not, Option, List, [], ◌∷◌, ◌++◌, map, flat_map, flat_map-nil,
  any-eq-false, contains, contains_iff, nat_eq, list_eq, Memᴰ, append-eq-nil, arith, String,
}
use legion_cli.Text.{Text}
use legion_cli.Paths.{normalize_path_key}
use legion_cli.Assurance.Labels.Flow.{Distinct}
use legion_cli.Assurance.Labels.Product.{PolicySource}
use legion_cli.Assurance.Contract.{
  Issue, issue_if, issue_if-nil, unique_by, unique_by-nil, Assertion,
}
use legion_cli.Assurance.Plan.Visits.{KnowledgeUnit}
use legion_cli.Assurance.Plan.{
  AssurancePlan, SecurityTask, Sink, Transformation, ExternalCall, Validator, Artifact,
  any_undeclared, confidentiality_name, uniqueness_issues, task_issues,
}

-- Every id of the first list is in the second.
abbrev pub Declared : List Text → List Text → Type 0
Declared ids declared = (x : Text) → Memᴰ x ids → Memᴰ x declared

any_undeclared_iff :
    (ids declared : List Text) → (any_undeclared ids declared ≡ false) ↔ Declared ids declared
any_undeclared_iff ids declared = (
  λ h x m.
      let known : not (contains declared x) ≡ false =
        (any-eq-false (λ id. not (contains declared id)) ids).0 h x m in
      (contains_iff declared x).0 (ground arith),
  λ d.
      (any-eq-false (λ id. not (contains declared id)) ids).1
        (λ x m. let known = (contains_iff declared x).1 (d x m) in ground arith),
)

pub refs-nil :
    (ids declared : List Text) (message : String)
    → (issue_if (any_undeclared ids declared) message ≡ []) ↔ Declared ids declared
refs-nil ids declared message = (
  λ h.
      (any_undeclared_iff ids declared).0
        ((issue_if-nil (any_undeclared ids declared) message).0 h),
  λ d.
      (issue_if-nil (any_undeclared ids declared) message).1
        ((any_undeclared_iff ids declared).1 d),
)

pub issue_unless-nil : (b : Bool) (message : String) → (issue_if (not b) message ≡ []) ↔ (b ≡ true)
issue_unless-nil true message = (λ h. refl, λ h. refl)
issue_unless-nil false message = (λ h. cc, λ h. cc)

-- Two lists of issues are empty together.
pub both-nil :
    {P Q : Type 0} {xs ys : List Issue}
    → (xs ≡ []) ↔ P
    → (ys ≡ []) ↔ Q
    → ((xs ++ ys) ≡ []) ↔ (P × Q)
both-nil {P} {Q} {xs} {ys} p q = (
  λ h. let (a, b) = (append-eq-nil xs ys).0 h in (p.0 a, q.0 b),
  λ (a, b). (append-eq-nil xs ys).1 (p.1 a, q.1 b),
)

pub each-nil :
    {A : Type 0} {P : A → Type 0} (f : A → List Issue) (xs : List A)
    → ((x : A) → (f x ≡ []) ↔ P x)
    → (flat_map f xs ≡ []) ↔ ((x : A) → Memᴰ x xs → P x)
each-nil f xs each = (
  λ h x m. (each x).0 ((flat_map-nil f xs).0 h x m),
  λ all. (flat_map-nil f xs).1 (λ x m. (each x).1 (all x m)),
)

module _ {J N : Type 0} (lower : Text → Text) (json_contract : J → Option (List (Assertion N)))
    (safe : N → Bool) where
  pub record UniqueNames (v : AssurancePlan J) : Type 0 where
    pub sources : Distinct (map (λ (x : PolicySource). x.id) v.sources)
    pub source_paths :
        Distinct (map (λ (x : PolicySource). normalize_path_key lower x.path) v.sources)
    pub sinks : Distinct (map (λ (x : Sink). x.id) v.sinks)
    pub classifications :
        (x : Sink) → Memᴰ x v.sinks → Distinct (map confidentiality_name x.classifications)
    pub transformations : Distinct (map (λ (x : Transformation). x.id) v.transformations)
    pub tasks : Distinct (map (λ (x : SecurityTask). x.task_id) v.tasks)
    pub external_calls : Distinct (map (λ (x : ExternalCall J). x.id) v.external_calls)
    pub knowledge : Distinct (map (λ (x : KnowledgeUnit). x.id) v.knowledge)
    pub validators : Distinct (map (λ (x : Validator J). x.id) v.validators)
    pub artifacts : Distinct (map (λ (x : Artifact). x.name) v.artifacts)
    pub artifact_paths :
        Distinct (map (λ (x : Artifact). normalize_path_key lower x.path) v.artifacts)

  pub uniqueness_issues-nil :
      (v : AssurancePlan J) → (uniqueness_issues lower json_contract safe v ≡ []) ↔ UniqueNames v
  unfolding uniqueness_issues
  uniqueness_issues-nil v =
      let (to, from) =
        both-nil
          (both-nil
            (both-nil
              (both-nil
                (both-nil
                  (both-nil
                    (both-nil
                      (both-nil
                        (both-nil
                          (both-nil (unique_by-nil (λ (x : PolicySource). x.id) v.sources) (
                            unique_by-nil (λ (x : PolicySource). normalize_path_key lower x.path)
                              v.sources))
                          (unique_by-nil (λ (x : Sink). x.id) v.sinks))
                        (each-nil (λ (x : Sink). unique_by confidentiality_name x.classifications)
                          v.sinks (λ x. unique_by-nil confidentiality_name x.classifications)))
                      (unique_by-nil (λ (x : Transformation). x.id) v.transformations))
                    (unique_by-nil (λ (x : SecurityTask). x.task_id) v.tasks))
                  (unique_by-nil (λ (x : ExternalCall J). x.id) v.external_calls))
                (unique_by-nil (λ (x : KnowledgeUnit). x.id) v.knowledge))
              (unique_by-nil (λ (x : Validator J). x.id) v.validators))
            (unique_by-nil (λ (x : Artifact). x.name) v.artifacts))
          (unique_by-nil (λ (x : Artifact). normalize_path_key lower x.path) v.artifacts) in
      (
        λ h.
            let ((((((((((a, b), c), d), e), f), g), i), j), k), l) = to h in
            record {
              sources = a;
              source_paths = b;
              sinks = c;
              classifications = d;
              transformations = e;
              tasks = f;
              external_calls = g;
              knowledge = i;
              validators = j;
              artifacts = k;
              artifact_paths = l;
            },
        λ u. from (
            (
              (
                (
                  (
                    (
                      (
                        (
                          (((u.sources, u.source_paths), u.sinks), u.classifications),
                          u.transformations,
                        ),
                        u.tasks,
                      ),
                      u.external_calls,
                    ),
                    u.knowledge,
                  ),
                  u.validators,
                ),
                u.artifacts,
              ),
              u.artifact_paths,
            )),
      )

  abbrev pub SoundTask : AssurancePlan J → SecurityTask → Type 0
  SoundTask v x =
      Declared (x.task_id ∷ []) v.task_ids
      × Declared x.transformation_ids (map (λ (t : Transformation). t.id) v.transformations)

  pub task_issues-nil :
      (v : AssurancePlan J) (x : SecurityTask)
      → (task_issues lower json_contract safe v x ≡ []) ↔ SoundTask v x
  unfolding task_issues
  task_issues-nil v x = both-nil (refs-nil (x.task_id ∷ []) v.task_ids "Undeclared task") (
      refs-nil x.transformation_ids (map (λ (t : Transformation). t.id) v.transformations)
        "Undeclared transformation")
