-- ===== src/Assurance/Contract.antt =====
-- The JSON contracts of packages/schema/src/component.ts, and `uniqueBy` of
-- packages/schema/src/assurance-primitives.ts. Zod's check of the shape comes before: a predicate
-- here has its type.
use legion_cli.Prelude.{
  ◌≡◌, ◌↔◌, inl, inr, refl, subst, Bool, true, false, not, ◌&&◌, ℕ, suc, List, [], ◌∷◌, ◌++◌, map,
  flat_map, contains, contains_iff, ltb, nat_eq, list_eq, if◌then◌else◌, Memᴰ, Memᴰ-nil, Bool-cases,
  String,
}
use legion_cli.Text.{Text}
use legion_cli.Json.Canonical.{Value, Items, Members}
use legion_cli.Assurance.Labels.Flow.{Distinct}

-- What `ctx.addIssue` adds, without the path. `out_of_fuel` has no counterpart in the source.
pub data Issue : Type 0 where
  duplicate : Text → Issue
  issue : String → Issue
  out_of_fuel : Issue

-- `if (test) ctx.addIssue(message)`
abbrev pub issue_if : Bool → String → List Issue
issue_if true message = issue message ∷ []
issue_if false message = []

-- The loop of `uniqueBy`, with the keys that it has seen.
unfoldable pub unique_from : {A : Type 0} → (A → Text) → List Text → List A → List Issue
unique_from key seen [] = []
unique_from key seen (x ∷ xs) =
    let rest = unique_from key (key x ∷ seen) xs in
    if contains seen (key x) then duplicate (key x) ∷ rest else rest

unfoldable pub unique_by : {A : Type 0} → (A → Text) → List A → List Issue
unfolding unique_from
unique_by key items = unique_from key [] items

pub issue_if-nil : (b : Bool) (message : String) → (issue_if b message ≡ []) ↔ (b ≡ false)
issue_if-nil true message = (λ h. cc, λ h. cc)
issue_if-nil false message = (λ h. refl, λ h. refl)

unique_from-nil :
    {A : Type 0} (key : A → Text) (seen : List Text) (xs : List A)
    → (unique_from key seen xs ≡ [])
      ↔ (Distinct (map key xs) × ((k : Text) → Memᴰ k (map key xs) → ¬ Memᴰ k seen))
unfolding unique_from
unique_from-nil key seen [] = (λ h. (tt, λ k m. absurd (Memᴰ-nil k m)), λ h. refl)
unique_from-nil key seen (x ∷ xs) = elim (Bool-cases (contains seen (key x))) [
  | inl old ↦ (
    λ h. let impossible = rw (old, unique_from) at h in cc,
    λ h. absurd (h.1 (key x) (Memᴰ.head refl) ((contains_iff seen (key x)).0 old)),
  )
  | inr new ↦
      let (to, from) = unique_from-nil key (key x ∷ seen) xs in
      (
        λ h.
            let (d, apart) = to (rw (new, unique_from) at h) in
            (
              (λ m. apart (key x) m (Memᴰ.head refl), d),
              λ k m n. elim m [
                | Memᴰ.head e ↦
                    let old = (contains_iff seen (key x)).1 (subst (λ y. Memᴰ y seen) e n) in cc
                | Memᴰ.tail t ↦ apart k t (Memᴰ.tail n)
              ],
            ),
        λ ((fresh, d), apart).
            rw (new, unique_from)
              (from (
                d,
                λ k m n. elim n [
                  | Memᴰ.head e ↦ fresh (subst (λ y. Memᴰ y (map key xs)) e m)
                  | Memᴰ.tail t ↦ apart k (Memᴰ.tail m) t
                ],
              )),
      )
]

-- No two items have the same key.
pub unique_by-nil :
    {A : Type 0} (key : A → Text) (xs : List A) → (unique_by key xs ≡ []) ↔ Distinct (map key xs)
unfolding unique_by
unique_by-nil key xs = (
  λ h. ((unique_from-nil key [] xs).0 h).0,
  λ d. (unique_from-nil key [] xs).1 (d, λ k m n. Memᴰ-nil k n),
)

pub data Comparison : Type 0 where
  eq_ ne lt_ le_ gt_ ge_ in_ : Comparison

pub data Quantifier : Type 0 where
  all_of any_of : Quantifier

mutual
  pub data Predicate (N : Type 0) : Type 0 where
    compares : (file pointer : Text) → Comparison → (expected : Value N) → Predicate N
    combines : Quantifier → Predicates N → Predicate N
    negates : Predicate N → Predicate N

  pub data Predicates (N : Type 0) : Type 0 where
    no_predicates : Predicates N
    predicate : Predicate N → Predicates N → Predicates N

pub record Assertion (N : Type 0) : Type 0 where
  pub id : Text
  pub predicate : Predicate N

abbrev pub is_array : {N : Type 0} → Value N → Bool
is_array (Value.array items) = true
is_array _ = false

abbrev pub is_number : {N : Type 0} → Value N → Bool
is_number (Value.number n) = true
is_number _ = false

abbrev pub is_in : Comparison → Bool
is_in Comparison.in_ = true
is_in _ = false

-- `["lt", "le", "gt", "ge"].includes(p.op)`
abbrev pub is_ordering : Comparison → Bool
is_ordering Comparison.lt_ = true
is_ordering Comparison.le_ = true
is_ordering Comparison.gt_ = true
is_ordering Comparison.ge_ = true
is_ordering _ = false

unfoldable mutual
  -- `jsonContractFiles`
  pub json_contract_files : {N : Type 0} → Predicate N → List Text
  json_contract_files (Predicate.compares file pointer op expected) = file ∷ []
  json_contract_files (Predicate.combines q ps) = files_of ps
  json_contract_files (Predicate.negates p) = json_contract_files p

  pub files_of : {N : Type 0} → Predicates N → List Text
  files_of Predicates.no_predicates = []
  files_of (Predicates.predicate p ps) = json_contract_files p ++ files_of ps

-- `safe` is `!Number.isInteger(value) || Number.isSafeInteger(value)`.
module _ {N : Type 0} (safe : N → Bool) where
  unfoldable mutual
    pub numbers : Value N → Bool
    numbers (Value.number n) = safe n
    numbers (Value.array vs) = numbers_in vs
    numbers (Value.object ms) = numbers_of ms
    numbers _ = true

    pub numbers_in : Items N → Bool
    numbers_in Items.no_items = true
    numbers_in (Items.item v vs) = numbers v && numbers_in vs

    pub numbers_of : Members N → Bool
    numbers_of Members.no_members = true
    numbers_of (Members.member key v ms) = numbers v && numbers_of ms

  -- The issues of a comparison.
  unfoldable pub comparison_issues : Comparison → Value N → List Issue
  unfolding numbers
  comparison_issues op expected =
      issue_if (not (numbers expected)) "Unsafe integer in predicate"
      ++ issue_if (is_in op && not (is_array expected)) "in requires an array"
      ++ issue_if (is_ordering op && not (is_number expected)) "Numeric comparison requires number"

  abbrev pub unless_deep : ℕ → List Issue → List Issue
  unless_deep depth issues = elim (ltb 16 depth) [
    | true ↦ issue "Predicate depth exceeds 16" ∷ []
    | false ↦ issues
  ]

  unfoldable mutual
    unfolding comparison_issues

    pub visit_predicate : Predicate N → ℕ → List Issue
    visit_predicate (Predicate.compares file pointer op expected) depth =
        unless_deep depth (comparison_issues op expected)
    visit_predicate (Predicate.negates p) depth = unless_deep depth (visit_predicate p (suc depth))
    visit_predicate (Predicate.combines q ps) depth =
        unless_deep depth (visit_predicates ps (suc depth))

    pub visit_predicates : Predicates N → ℕ → List Issue
    visit_predicates Predicates.no_predicates depth = []
    visit_predicates (Predicates.predicate p ps) depth =
        visit_predicate p depth ++ visit_predicates ps depth

  -- What JsonContractConfigurationSchema finds in assertions of the right shape.
  unfoldable pub contract_issues : List (Assertion N) → List Issue
  unfolding unique_by visit_predicate
  contract_issues assertions =
      unique_by (λ (a : Assertion N). a.id) assertions
      ++ flat_map (λ (a : Assertion N). visit_predicate a.predicate 1) assertions
