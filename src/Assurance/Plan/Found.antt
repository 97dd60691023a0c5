-- ===== src/Assurance/Plan/Found.antt =====
-- A search for cyclic knowledge that adds no issue has shown that every dependency ends.
use legion_cli.Prelude.{
  ◌≡◌, ◌+◌, inl, inr, sym, subst, ℕ, zero, suc, none, some, List, [], ◌∷◌, ◌++◌, map, contains,
  contains_iff, length, ◌==◌, ==_iff, nat_eq, list_eq, Memᴰ, Memᴰ-nil, append-eq-nil, Bool-cases,
  Option-cases,
}
use legion_cli.Text.{Text}
use legion_cli.Grounded.{Grounded, grounded}
use legion_cli.Assurance.Contract.{issue, out_of_fuel}
use legion_cli.Assurance.Plan.Visits.{
  KnowledgeUnit, unit_of, dependencies, Visited, visit_all, visit_unit, cycle_issues,
}

-- What a search that adds no issue leaves: it began without one, forgets no id, and every id done is
-- grounded.
record Clear (parents : Text → List Text) (before : Visited) (ids : List Text) (after : Visited)
    : Type 0 where
  silent : before.issues ≡ []
  kept : (x : Text) → Memᴰ x before.done_ids → Memᴰ x after.done_ids
  gained : (x : Text) → Memᴰ x ids → Memᴰ x after.done_ids
  settled : (x : Text) → Memᴰ x after.done_ids → Grounded parents x

AllGrounded : (Text → List Text) → Visited → Type 0
AllGrounded parents s = (x : Text) → Memᴰ x s.done_ids → Grounded parents x

IsClear : (Text → List Text) → List Text → (Visited → Visited) → Type 0
IsClear parents ids run =
    (s : Visited)
    → (run s).issues ≡ []
    → (s.issues ≡ [] → AllGrounded parents s)
    → Clear parents s ids (run s)

visit_all-Clear :
    (parents : Text → List Text) (visit : Text → Visited → Visited)
    → ((id : Text) → IsClear parents (id ∷ []) (visit id))
    → ((s : Visited) (ids : List Text) → (visit_all visit ids s).issues ≡ [] → s.issues ≡ [])
    → (ids : List Text) → IsClear parents ids (visit_all visit ids)
unfolding IsClear AllGrounded
visit_all-Clear parents visit one began [] s none_found all = record {
  silent = none_found;
  kept = λ x m. m;
  gained = λ x m. absurd (Memᴰ-nil x m);
  settled = all none_found;
}
visit_all-Clear parents visit one began (id ∷ ids) s none_found all =
    let first = one id s (began (visit id s) ids none_found) all in
    let rest =
      visit_all-Clear parents visit one began ids (visit id s) none_found (λ e. first.settled) in
    record {
      silent = first.silent;
      kept = λ x m. rest.kept x (first.kept x m);
      gained = λ x m. elim m [
        | Memᴰ.head e ↦ rest.kept x (first.gained x (Memᴰ.head e))
        | Memᴰ.tail t ↦ rest.gained x t
      ];
      settled = rest.settled;
    }

-- Issues are only added.
began_all :
    (visit : Text → Visited → Visited)
    → ((id : Text) (s : Visited) → (visit id s).issues ≡ [] → s.issues ≡ [])
    → (s : Visited) (ids : List Text) → (visit_all visit ids s).issues ≡ []
    → s.issues ≡ []
began_all visit one s [] h = h
began_all visit one s (id ∷ ids) h = one id s (began_all visit one (visit id s) ids h)

module _ (units : List KnowledgeUnit) where
  pub began_unit :
      (fuel : ℕ) (active : List Text) (id : Text) (s : Visited)
      → (visit_unit units fuel active id s).issues ≡ []
      → s.issues ≡ []
  unfolding visit_unit
  began_unit zero active id s h = ((append-eq-nil s.issues (out_of_fuel ∷ [])).0 h).0
  began_unit (suc fuel) active id s h = elim (Bool-cases (contains active id)) [
    | inl on ↦
        let more : (s.issues ++ issue "Cyclic knowledge dependency" ∷ []) ≡ [] =
          rw (on, visit_unit) at h in
        ((append-eq-nil s.issues (issue "Cyclic knowledge dependency" ∷ [])).0 more).0
    | inr off ↦ elim (Bool-cases (contains s.done_ids id)) [
      | inl done_ ↦ rw (off, done_, visit_unit) at h
      | inr new ↦
          began_all (visit_unit units fuel (id ∷ active)) (began_unit fuel (id ∷ active)) s
            (dependencies units id) (rw (off, new, visit_unit) at h)
    ]
  ]

  visit_unit-Clear :
      (fuel : ℕ) (active : List Text) (id : Text)
      → IsClear (dependencies units) (id ∷ []) (visit_unit units fuel active id)
  unfolding visit_unit IsClear AllGrounded
  visit_unit-Clear zero active id s h all =
      let no_more = ((append-eq-nil s.issues (out_of_fuel ∷ [])).0 h).1 in cc
  visit_unit-Clear (suc fuel) active id s h all = elim (Bool-cases (contains active id)) [
    | inl on ↦
        let more : (s.issues ++ issue "Cyclic knowledge dependency" ∷ []) ≡ [] =
          rw (on, visit_unit) at h in
        let no_more =
          ((append-eq-nil s.issues (issue "Cyclic knowledge dependency" ∷ [])).0 more).1 in
        cc
    | inr off ↦ elim (Bool-cases (contains s.done_ids id)) [
      | inl done_ ↦
          let quiet : s.issues ≡ [] = rw (off, done_, visit_unit) at h in
          rw (off, done_, visit_unit)
            record {
              silent = quiet;
              kept = λ x m. m;
              gained = λ x m. elim m [
                | Memᴰ.head e ↦
                    subst (λ y. Memᴰ y s.done_ids) (sym e) ((contains_iff s.done_ids id).0 done_)
                | Memᴰ.tail t ↦ absurd (Memᴰ-nil x t)
              ];
              settled = all quiet;
            }
      | inr new ↦
          let inside : (visit_all (visit_unit units fuel (id ∷ active)) (dependencies units id)
                s).issues
              ≡ [] =
            rw (off, new, visit_unit) at h in
          let deps =
            visit_all-Clear (dependencies units) (visit_unit units fuel (id ∷ active))
              (visit_unit-Clear fuel (id ∷ active))
              (λ t ids.
                began_all (visit_unit units fuel (id ∷ active)) (began_unit fuel (id ∷ active)) t
                  ids)
              (dependencies units id) s inside all in
          let here : Grounded (dependencies units) id =
            grounded (λ p m. deps.settled p (deps.gained p m)) in
          rw (off, new, visit_unit)
            record {
              silent = deps.silent;
              kept = λ x m. Memᴰ.tail (deps.kept x m);
              gained =
                  λ x m. elim m [ Memᴰ.head e ↦ Memᴰ.head e | Memᴰ.tail t ↦ absurd (Memᴰ-nil x t) ];
              settled = λ x m. elim m [
                | Memᴰ.head e ↦ subst (Grounded (dependencies units)) (sym e) here
                | Memᴰ.tail t ↦ deps.settled x t
              ];
            }
    ]
  ]

  pub unit_of-Memᴰ :
      (us : List KnowledgeUnit) (id : Text) (u : KnowledgeUnit)
      → unit_of us id ≡ some u
      → Memᴰ id (map (λ (x : KnowledgeUnit). x.id) us)
  unfolding unit_of
  unit_of-Memᴰ [] id u e = cc
  unit_of-Memᴰ (v ∷ vs) id u e = elim (Option-cases (unit_of vs id)) [
    | inr (later, l) ↦ Memᴰ.tail (unit_of-Memᴰ vs id later l)
    | inl last ↦ elim (Bool-cases (v.id == id)) [
      | inr other ↦ let impossible : none ≡ some u = simp (last, other) at e in cc
      | inl here ↦ Memᴰ.head (sym ((==_iff v.id id).0 here))
    ]
  ]

  pub cycle_issues-Grounded :
      cycle_issues units ≡ [] → (id : Text) → Grounded (dependencies units) id
  unfolding cycle_issues dependencies AllGrounded IsClear
  cycle_issues-Grounded h id = elim (Option-cases (unit_of units id)) [
    | inl nobody ↦ grounded (λ p m. absurd (Memᴰ-nil p (rw (nobody, dependencies) at m)))
    | inr (u, e) ↦ searched.settled id (searched.gained id (unit_of-Memᴰ units id u e))
  ]
    where
      searched :
          Clear
            (dependencies units)
            (record { done_ids = []; issues = [] })
            (map (λ (x : KnowledgeUnit). x.id) units)
            (visit_all
              (visit_unit units (2 + length units) [])
              (map (λ (x : KnowledgeUnit). x.id) units)
              (record { done_ids = []; issues = [] }))
      searched =
          visit_all-Clear (dependencies units) (visit_unit units (2 + length units) [])
            (visit_unit-Clear (2 + length units) [])
            (λ s ids.
              began_all (visit_unit units (2 + length units) []) (began_unit (2 + length units) [])
                s ids)
            (map (λ (x : KnowledgeUnit). x.id) units) (record { done_ids = []; issues = [] }) h
            (λ e x m. absurd (Memᴰ-nil x m))
