-- ===== src/Assurance/Labels/Bounds.antt =====
-- The bound on the origins of a label: what the loop over the origins of one label of `joinLabels`
-- ends in, and that sorting keeps it.
use legion_cli.Prelude.{
  ◌≡◌, ◌≤◌, ◌<◌, ◌↔◌, ◌⊎◌, inl, inr, refl, sym, ◌∙◌, ap, suc, List, [], ◌∷◌, length, ltb, nat_eq,
  list_eq, Memᴰ, Memᴰ-cons, Memᴰ-nil, arith, Bool-cases,
}
use legion_cli.Text.{Text, text_le, insert_sorted, mem-insert_sorted, sort_texts, mem-sort_texts}
use legion_cli.Attempt.{Attempt, returned, thrown}
use legion_cli.Assurance.Labels.{LabelError, max_origins, add_origin, add_origins}
use legion_cli.Assurance.Labels.Flow.{Distinct, mem-add_origin, Distinct-add_origin}

-- More different origins than a label may name.
pub record TooMany (From : Text → Type 0) : Type 0 where
  pub names : List Text
  pub distinct : Distinct names
  pub many : max_origins < length names
  pub from : (x : Text) → Memᴰ x names → From x

pub TooMany-map : {P Q : Text → Type 0} → ((x : Text) → P x → Q x) → TooMany P → TooMany Q
TooMany-map f t = record {
  names = t.names;
  distinct = t.distinct;
  many = t.many;
  from = λ x m. f x (t.from x m);
}

-- Origins that a label may hold.
pub record Bounded (origins : List Text) : Type 0 where
  pub distinct : Distinct origins
  pub few : length origins ≤ max_origins

pub data Added (origins os : List Text) : Attempt LabelError (List Text) → Type 0 where
  added :
      (r : List Text)
      → Bounded r
      → ((a : Text) → Memᴰ a r ↔ (Memᴰ a origins ⊎ Memᴰ a os))
      → Added origins os (returned r)
  too_many :
      TooMany (λ x. Memᴰ x origins ⊎ Memᴰ x os)
      → Added origins os (thrown LabelError.join_exceeds_bound)

Added-cons :
    (origins : List Text) (o : Text) (os : List Text) {r : Attempt LabelError (List Text)}
    → Added (add_origin origins o) os r
    → Added origins (o ∷ os) r
Added-cons origins o os (added r b mem) =
    added r b (λ a. ground (arith, mem a, mem-add_origin a origins o, Memᴰ-cons a o os))
Added-cons origins o os (too_many t) = too_many (
    TooMany-map
      (λ x h. elim h [
        | inl m ↦ elim ((mem-add_origin x origins o).0 m) [
          | inl k ↦ inl k
          | inr e ↦ inr (Memᴰ.head e)
        ]
        | inr m ↦ inr (Memᴰ.tail m)
      ])
      t)

pub add_origins-Added :
    (origins os : List Text) → Bounded origins → Added origins os (add_origins origins os)
unfolding add_origins
add_origins-Added origins [] b = added origins b (λ a. ground (arith, Memᴰ-nil a))
add_origins-Added origins (o ∷ os) b =
    elim (Bool-cases (ltb max_origins (length (add_origin origins o)))) [
      | inl over ↦
          rw (over, add_origins)
            (too_many (record {
              names = add_origin origins o;
              distinct = Distinct-add_origin origins o b.distinct;
              many = ground arith;
              from = λ x m. elim ((mem-add_origin x origins o).0 m) [
                | inl k ↦ inl k
                | inr e ↦ inr (Memᴰ.head e)
              ];
            }))
      | inr within ↦
          let next =
            add_origins-Added (add_origin origins o) os (record {
              distinct = Distinct-add_origin origins o b.distinct;
              few = ground arith;
            }) in
          rw (within, add_origins) (Added-cons origins o os next)
    ]

length-insert_sorted : (s : Text) (ss : List Text) → length (insert_sorted s ss) ≡ suc (length ss)
length-insert_sorted s [] = refl
length-insert_sorted s (t ∷ ts) = ground (arith, length-insert_sorted s ts)

Distinct-insert_sorted :
    (s : Text) (ss : List Text) → ¬ Memᴰ s ss → Distinct ss → Distinct (insert_sorted s ss)
Distinct-insert_sorted s [] n d = (n, tt)
Distinct-insert_sorted s (t ∷ ts) n (fresh, d) = elim (Bool-cases (text_le s t)) [
  | inl h ↦ rw h (n, (fresh, d))
  | inr h ↦ rw h (
    λ m. elim ((mem-insert_sorted t s ts).0 m) [ inl e ↦ n (Memᴰ.head (sym e)) | inr k ↦ fresh k ],
    Distinct-insert_sorted s ts (λ m. n (Memᴰ.tail m)) d,
  )
]

pub sort_texts-Distinct : (ss : List Text) → Distinct ss → Distinct (sort_texts ss)
unfolding sort_texts
sort_texts-Distinct [] d = tt
sort_texts-Distinct (s ∷ ss) (fresh, d) =
    Distinct-insert_sorted s (sort_texts ss) (λ m. fresh ((mem-sort_texts s ss).0 m))
      (sort_texts-Distinct ss d)

pub length-sort_texts : (ss : List Text) → length (sort_texts ss) ≡ length ss
unfolding sort_texts
length-sort_texts [] = refl
length-sort_texts (s ∷ ss) = length-insert_sorted s (sort_texts ss) ∙ ap suc (length-sort_texts ss)
