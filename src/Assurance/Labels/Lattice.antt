-- ===== src/Assurance/Labels/Lattice.antt =====
-- `joinLabels` against the order of labels: what it returns is their least upper bound.
use legion_cli.Prelude.{
  ◌↔◌, ◌⊎◌, inl, inr, refl, sym, subst, List, [], ◌∷◌, nat_eq, list_eq, Memᴰ, Memᴰ-nil, arith,
}
use legion_cli.Text.{Text, sort_texts, mem-sort_texts}
use legion_cli.Attempt.{Attempt, returned, thrown, ◌>>=◌}
use legion_cli.Assurance.Labels.{
  ProvenanceLabel, LabelError, confidentiality_rank, join_integrity, join_confidentiality,
  add_origins, join_from, join_labels, bottom,
}
use legion_cli.Assurance.Labels.Flow.{Flows, join_integrity_iff, join_confidentiality_iff}
use legion_cli.Assurance.Labels.Bounds.{
  TooMany, TooMany-map, Bounded, Added, added, too_many, add_origins-Added, sort_texts-Distinct,
  length-sort_texts,
}

-- What a join of labels with what is held ends in.
pub data Joins (held : ProvenanceLabel) (labels : List ProvenanceLabel)
    : Attempt LabelError ProvenanceLabel → Type 0 where
  joined :
      (l : ProvenanceLabel)
      → Bounded l.origins
      → ((m : ProvenanceLabel)
          → Flows l m ↔ (Flows held m × ((k : ProvenanceLabel) → Memᴰ k labels → Flows k m)))
      → Joins held labels (returned l)
  refused :
      TooMany
        (λ x. Memᴰ x held.origins ⊎ ((k : ProvenanceLabel) × Memᴰ k labels × Memᴰ x k.origins))
      → Joins held labels (thrown LabelError.join_exceeds_bound)

abbrev with_label : ProvenanceLabel → ProvenanceLabel → List Text → ProvenanceLabel
with_label held label origins = record {
  origins = origins;
  integrity = join_integrity held.integrity label.integrity;
  confidentiality = join_confidentiality held.confidentiality label.confidentiality;
}

Flows-with_label :
    (held label : ProvenanceLabel) (r : List Text)
    → ((a : Text) → Memᴰ a r ↔ (Memᴰ a held.origins ⊎ Memᴰ a label.origins))
    → (m : ProvenanceLabel) → Flows (with_label held label r) m ↔ (Flows held m × Flows label m)
Flows-with_label held label r mem m = (to, from)
  where
    to : Flows (with_label held label r) m → Flows held m × Flows label m
    to f =
        let (i, j) =
          (join_integrity_iff held.integrity label.integrity m.integrity).0 f.integrity in
        let (c, d) =
          (join_confidentiality_iff held.confidentiality label.confidentiality
              (confidentiality_rank m.confidentiality)).0
            f.confidentiality in
        (
          record {
            origins = λ o k. f.origins o ((mem o).1 (inl k));
            integrity = i;
            confidentiality = c;
          },
          record {
            origins = λ o k. f.origins o ((mem o).1 (inr k));
            integrity = j;
            confidentiality = d;
          },
        )

    from : Flows held m × Flows label m → Flows (with_label held label r) m
    from (f, g) = record {
      origins = λ o k. elim ((mem o).0 k) [ inl x ↦ f.origins o x | inr x ↦ g.origins o x ];
      integrity =
          (join_integrity_iff held.integrity label.integrity m.integrity).1
            (f.integrity, g.integrity);
      confidentiality =
          (join_confidentiality_iff held.confidentiality label.confidentiality
              (confidentiality_rank m.confidentiality)).1
            (f.confidentiality, g.confidentiality);
    }

Joins-cons :
    (held label : ProvenanceLabel) (labels : List ProvenanceLabel) (r : List Text)
    → ((a : Text) → Memᴰ a r ↔ (Memᴰ a held.origins ⊎ Memᴰ a label.origins))
    → {res : Attempt LabelError ProvenanceLabel} → Joins (with_label held label r) labels res
    → Joins held (label ∷ labels) res
Joins-cons held label labels r mem (joined l b least) = joined l b (λ m. (
  λ f.
      let (g, rest) = (least m).0 f in
      let (h, j) = (Flows-with_label held label r mem m).0 g in
      (
        h,
        λ k n. elim n [ Memᴰ.head e ↦ subst (λ x. Flows x m) (sym e) j | Memᴰ.tail t ↦ rest k t ],
      ),
  λ (h, all). (least m).1 (
    (Flows-with_label held label r mem m).1 (h, all label (Memᴰ.head refl)),
    λ k t. all k (Memᴰ.tail t),
  ),
))
Joins-cons held label labels r mem (refused t) = refused (TooMany-map (λ x h. move x h) t)
  where
    move :
        (x : Text)
        → Memᴰ x r ⊎ ((k : ProvenanceLabel) × Memᴰ k labels × Memᴰ x k.origins)
        → Memᴰ x held.origins ⊎ ((k : ProvenanceLabel) × Memᴰ k (label ∷ labels) × Memᴰ x k.origins)
    move x (inl m) = elim ((mem x).0 m) [ inl h ↦ inl h | inr n ↦ inr (label, Memᴰ.head refl, n) ]
    move x (inr (k, m, n)) = inr (k, Memᴰ.tail m, n)

join_step :
    (held label : ProvenanceLabel) (labels : List ProvenanceLabel)
    (r : Attempt LabelError (List Text))
    → Added held.origins label.origins r
    → ((origins : List Text)
        → Bounded origins
        → Joins
            (with_label held label origins)
            labels
            (join_from (with_label held label origins) labels))
    → Joins held
        (label ∷ labels)
        (r >>= λ origins. join_from (with_label held label origins) labels)
join_step held label labels (returned r) (added r' b mem) next =
    Joins-cons held label labels r mem (next r b)
join_step held label labels (thrown e) (too_many t) next =
    refused
      (TooMany-map (λ x h. elim h [ inl m ↦ inl m | inr n ↦ inr (label, Memᴰ.head refl, n) ]) t)

join_from-Joins :
    (held : ProvenanceLabel) (labels : List ProvenanceLabel)
    → Bounded held.origins
    → Joins held labels (join_from held labels)
unfolding join_from
join_from-Joins held [] b =
    joined held b (λ m. (λ f. (f, λ k t. absurd (Memᴰ-nil k t)), λ (f, all). f))
join_from-Joins held (label ∷ labels) b =
    join_step held label labels (add_origins held.origins label.origins)
      (add_origins-Added held.origins label.origins b)
      (λ origins c. join_from-Joins (with_label held label origins) labels c)

abbrev with_sorted : ProvenanceLabel → ProvenanceLabel
with_sorted held = record held { origins = sort_texts held.origins }

Flows-with_sorted : (l m : ProvenanceLabel) → Flows (with_sorted l) m ↔ Flows l m
Flows-with_sorted l m = (
  λ f. record {
    origins = λ o k. f.origins o ((mem-sort_texts o l.origins).1 k);
    integrity = f.integrity;
    confidentiality = f.confidentiality;
  },
  λ f. record {
    origins = λ o k. f.origins o ((mem-sort_texts o l.origins).0 k);
    integrity = f.integrity;
    confidentiality = f.confidentiality;
  },
)

Flows-bottom : (m : ProvenanceLabel) → Flows bottom m
Flows-bottom m = record {
  origins = λ o k. absurd (Memᴰ-nil o k);
  integrity = λ e. cc;
  confidentiality = omega arith;
}

-- What a join of labels ends in, by the order of labels alone.
pub data Joined (labels : List ProvenanceLabel) : Attempt LabelError ProvenanceLabel → Type 0 where
  bound :
      (l : ProvenanceLabel)
      → Bounded l.origins
      → ((m : ProvenanceLabel) → Flows l m ↔ ((k : ProvenanceLabel) → Memᴰ k labels → Flows k m))
      → Joined labels (returned l)
  over :
      TooMany (λ x. (k : ProvenanceLabel) × Memᴰ k labels × Memᴰ x k.origins)
      → Joined labels (thrown LabelError.join_exceeds_bound)

finish :
    (labels : List ProvenanceLabel) (r : Attempt LabelError ProvenanceLabel)
    → Joins bottom labels r
    → Joined labels (r >>= λ held. returned (with_sorted held))
finish labels (returned l) (joined l' b least) =
    bound (with_sorted l)
      (record {
        distinct = sort_texts-Distinct l.origins b.distinct;
        few = let same = length-sort_texts l.origins in let few = b.few in omega arith;
      })
      (λ m. (
        λ f. ((least m).0 ((Flows-with_sorted l m).0 f)).1,
        λ all. (Flows-with_sorted l m).1 ((least m).1 (Flows-bottom m, all)),
      ))
finish labels (thrown e) (refused t) =
    over (TooMany-map (λ x h. elim h [ inl m ↦ absurd (Memᴰ-nil x m) | inr k ↦ k ]) t)

-- The join of labels is their least upper bound in the order of flows: data may flow from the join
-- to a label exactly when it may flow there from each of the labels. The join names no origin twice
-- and at most 256; joinLabels refuses only labels that name more than 256 different origins.
pub join_labels-Joined : (labels : List ProvenanceLabel) → Joined labels (join_labels labels)
unfolding join_labels
join_labels-Joined labels =
    finish labels (join_from bottom labels)
      (join_from-Joins bottom labels (record { distinct = tt; few = omega arith }))
