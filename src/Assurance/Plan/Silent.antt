-- ===== src/Assurance/Plan/Silent.antt =====
-- Where every dependency ends, the search for cyclic knowledge adds no issue, and does not run out of
-- fuel.
use legion_cli.Prelude.{
  ◌≡◌, ◌≢◌, ◌≤◌, ◌<◌, ◌+◌, ◌↔◌, inl, inr, refl, ◌∙◌, ap, subst, true, false, ℕ, zero, suc, List, [],
  ◌∷◌, map, contains, contains_iff, length, ◌==◌, ==_iff, nat_eq, list_eq, if◌then◌else◌, Memᴰ,
  Memᴰ-nil, arith, Bool-cases, Option-cases,
}
use legion_cli.Text.{Text}
use legion_cli.Grounded.{Grounded, Behind, next, later, Grounded-loop}
use legion_cli.Assurance.Plan.Visits.{
  KnowledgeUnit, unit_of, dependencies, Visited, visit_all, visit_unit, cycle_issues,
}
use legion_cli.Assurance.Plan.Found.{unit_of-Memᴰ, cycle_issues-Grounded}

-- The ids that are not active.
abbrev fresh : List Text → List Text → ℕ
fresh active [] = 0
fresh active (x ∷ xs) = if contains active x then fresh active xs else suc (fresh active xs)

fresh_less : (id : Text) (active ids : List Text) → fresh (id ∷ active) ids ≤ fresh active ids
fresh_less id active [] = omega arith
fresh_less id active (x ∷ xs) = ground (arith, fresh_less id active xs)

fresh_enter :
    (id : Text) (active ids : List Text)
    → contains active id ≡ false
    → Memᴰ id ids
    → fresh (id ∷ active) ids < fresh active ids
fresh_enter id active [] new m = absurd (Memᴰ-nil id m)
fresh_enter id active (x ∷ xs) new (Memᴰ.head e) =
    let less = fresh_less id active xs in
    let known : (id == x) ≡ true = (==_iff id x).1 e in
    let away : contains active x ≡ false = subst (λ y. contains active y ≡ false) e new in
    ground arith
fresh_enter id active (x ∷ xs) new (Memᴰ.tail m) =
    let less = fresh_enter id active xs new m in ground arith

fresh-length : (ids : List Text) → fresh [] ids ≡ length ids
fresh-length [] = refl
fresh-length (x ∷ xs) = omega (arith, fresh-length xs)

length-map : {A B : Type 0} (f : A → B) (xs : List A) → length (map f xs) ≡ length xs
length-map f [] = refl
length-map f (x ∷ xs) = ap suc (length-map f xs)

visit_all-issues :
    (visit : Text → Visited → Visited) (ids : List Text)
    → ((id : Text) → Memᴰ id ids → (s : Visited) → s.issues ≡ [] → (visit id s).issues ≡ [])
    → (s : Visited) → s.issues ≡ []
    → (visit_all visit ids s).issues ≡ []
visit_all-issues visit [] one s h = h
visit_all-issues visit (id ∷ ids) one s h =
    visit_all-issues visit ids (λ x m. one x (Memᴰ.tail m)) (visit id s)
      (one id (Memᴰ.head refl) s h)

module _ (units : List KnowledgeUnit) (all : (id : Text) → Grounded (dependencies units) id) where
  abbrev ids : List Text
  ids = map (λ (x : KnowledgeUnit). x.id) units

  -- The id is not active, and depends on no active id.
  IsApart : Text → List Text → Type 0
  IsApart id active = (a : Text) → Memᴰ a active → (id ≢ a) × (¬ Behind (dependencies units) a id)

  IsApart-enter :
      (id dep : Text) (active : List Text)
      → IsApart id active
      → Memᴰ dep (dependencies units id)
      → IsApart dep (id ∷ active)
  unfolding IsApart
  IsApart-enter id dep active apart m a (Memᴰ.tail t) = (
    λ e. (apart a t).1 (next (subst (λ x. Memᴰ x (dependencies units id)) e m)),
    λ b. (apart a t).1 (later m b),
  )
  IsApart-enter id dep active apart m a (Memᴰ.head e) = (
    λ f.
        Grounded-loop (dependencies units) id (all id)
          (next (subst (λ x. Memᴰ x (dependencies units id)) (f ∙ e) m)),
    λ b.
        Grounded-loop (dependencies units) id (all id)
          (later m (subst (λ x. Behind (dependencies units) x dep) e b)),
  )

  fresh_dep :
      (id dep : Text) (active : List Text)
      → contains active id ≡ false
      → Memᴰ dep (dependencies units id)
      → fresh (id ∷ active) ids < fresh active ids
  unfolding dependencies
  fresh_dep id dep active new m = elim (Option-cases (unit_of units id)) [
    | inl nobody ↦ absurd (Memᴰ-nil dep (rw (nobody, dependencies) at m))
    | inr (u, e) ↦ fresh_enter id active ids new (unit_of-Memᴰ units units id u e)
  ]

  visit_unit-issues :
      (fuel : ℕ) (active : List Text) (id : Text)
      → fresh active ids < fuel
      → IsApart id active
      → (s : Visited) → s.issues ≡ []
      → (visit_unit units fuel active id s).issues ≡ []
  unfolding visit_unit IsApart
  visit_unit-issues zero active id enough apart s h = absurd (omega arith)
  visit_unit-issues (suc fuel) active id enough apart s h = elim (Bool-cases (contains active id)) [
    | inl on ↦ absurd ((apart id ((contains_iff active id).0 on)).0 refl)
    | inr off ↦ elim (Bool-cases (contains s.done_ids id)) [
      | inl done_ ↦ rw (off, done_, visit_unit) h
      | inr new ↦
          rw (off, new, visit_unit)
            (visit_all-issues (visit_unit units fuel (id ∷ active)) (dependencies units id)
              (λ dep m.
                let less = fresh_dep id dep active off m in
                visit_unit-issues fuel (id ∷ active) dep (omega arith)
                  (IsApart-enter id dep active apart m))
              s h)
    ]
  ]

  cycle_issues-silent : cycle_issues units ≡ []
  unfolding cycle_issues IsApart
  cycle_issues-silent =
      visit_all-issues (visit_unit units (2 + length units) []) ids
        (λ id m.
          visit_unit-issues (2 + length units) [] id
            (let start = fresh-length ids in
              let size = length-map (λ (x : KnowledgeUnit). x.id) units in omega arith)
            (λ a n. absurd (Memᴰ-nil a n)))
        (record { done_ids = []; issues = [] }) refl

pub cycle_issues-nil :
    (units : List KnowledgeUnit)
    → (cycle_issues units ≡ []) ↔ ((id : Text) → Grounded (dependencies units) id)
cycle_issues-nil units = (cycle_issues-Grounded units, cycle_issues-silent units)
