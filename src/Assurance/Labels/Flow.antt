-- ===== src/Assurance/Labels/Flow.antt =====
-- The order of labels: data may flow from one label to another that names at least its origins, is
-- untrusted if the first is, and is at least as confidential.
use legion_cli.Prelude.{
  ◌≡◌, ◌≤◌, ◌↔◌, ◌⊎◌, inl, inr, refl, sym, subst, ℕ, suc, List, [], ◌∷◌, ◌++◌, length,
  length-append, contains, contains_iff, nat_eq, list_eq, Memᴰ, Memᴰ-cons, Memᴰ-nil, Memᴰ-append,
  arith, Bool-cases,
}
use legion_cli.Text.{Text}
use legion_cli.Assurance.Labels.{
  Integrity, Confidentiality, ProvenanceLabel, confidentiality_rank, join_integrity,
  join_confidentiality, approved, untrusted, add_origin,
}

pub record Flows (a b : ProvenanceLabel) : Type 0 where
  pub origins : (o : Text) → Memᴰ o a.origins → Memᴰ o b.origins
  pub integrity : a.integrity ≡ untrusted → b.integrity ≡ untrusted
  pub confidentiality :
      confidentiality_rank a.confidentiality ≤ confidentiality_rank b.confidentiality

-- No origin is named twice.
abbrev pub Distinct : List Text → Type 0
Distinct [] = Unit
Distinct (x ∷ xs) = (¬ Memᴰ x xs) × Distinct xs

pub mem-add_origin :
    (a : Text) (origins : List Text) (o : Text)
    → Memᴰ a (add_origin origins o) ↔ (Memᴰ a origins ⊎ (a ≡ o))
mem-add_origin a origins o = elim (Bool-cases (contains origins o)) [
  | inl h ↦ rw h (
    inl,
    λ m. elim m [
      | inl k ↦ k
      | inr e ↦ subst (λ x. Memᴰ x origins) (sym e) ((contains_iff origins o).0 h)
    ],
  )
  | inr h ↦ rw h ground (arith, Memᴰ-append a origins (o ∷ []), Memᴰ-cons a o [], Memᴰ-nil a)
]

Distinct-append : (xs : List Text) (o : Text) → Distinct xs → ¬ Memᴰ o xs → Distinct (xs ++ o ∷ [])
Distinct-append [] o d n = (λ m. Memᴰ-nil o m, tt)
Distinct-append (x ∷ xs) o (fresh, d) n = (
  λ m. elim ((Memᴰ-append x xs (o ∷ [])).0 m) [
    | inl k ↦ fresh k
    | inr k ↦ elim k [ Memᴰ.head e ↦ n (Memᴰ.head (sym e)) | Memᴰ.tail t ↦ Memᴰ-nil x t ]
  ],
  Distinct-append xs o d (λ m. n (Memᴰ.tail m)),
)

pub Distinct-add_origin :
    (origins : List Text) (o : Text) → Distinct origins → Distinct (add_origin origins o)
Distinct-add_origin origins o d = elim (Bool-cases (contains origins o)) [
  | inl h ↦ rw h d
  | inr h ↦ rw h (Distinct-append origins o d (λ m. let k = (contains_iff origins o).1 m in cc))
]

pub length-add_origin :
    (origins : List Text) (o : Text) → length (add_origin origins o) ≤ suc (length origins)
length-add_origin origins o = let l = length-append origins (o ∷ []) in ground arith

pub join_integrity_iff :
    (i j k : Integrity)
    → (join_integrity i j ≡ untrusted → k ≡ untrusted)
      ↔ ((i ≡ untrusted → k ≡ untrusted) × (j ≡ untrusted → k ≡ untrusted))
join_integrity_iff i approved k = (λ h. (h, λ e. cc), λ h. h.0)
join_integrity_iff i untrusted k = (λ h. (λ e. h refl, h), λ h. h.1)

pub join_confidentiality_iff :
    (c d : Confidentiality) (n : ℕ)
    → (confidentiality_rank (join_confidentiality c d) ≤ n)
      ↔ ((confidentiality_rank c ≤ n) × (confidentiality_rank d ≤ n))
join_confidentiality_iff c d n = ground arith
