-- ===== src/Assurance/Labels/Explained.antt =====
-- `labelProductBytes` against what explains the bytes of a file.
use legion_cli.Prelude.{
  ◌≡◌, ◌≤◌, ◌↔◌, ◌⊎◌, inl, inr, refl, sym, subst, some, List, [], ◌∷◌, ◌++◌, length, nat_eq,
  list_eq, option_eq, Memᴰ, Memᴰ-nil, Memᴰ-append, arith, Option-cases,
}
use legion_cli.Text.{Text}
use legion_cli.Attempt.{Attempt, returned, thrown, ◌>>=◌}
use legion_cli.Json.Canonical.{Stringify}
use legion_cli.Assurance.Labels.{
  ProvenanceLabel, Confidentiality, LabelError, confidentiality_rank, untrusted, join_labels,
}
use legion_cli.Assurance.Labels.Flow.{Flows}
use legion_cli.Assurance.Labels.Bounds.{TooMany, TooMany-map}
use legion_cli.Assurance.Labels.Lattice.{Joined, bound, over, join_labels-Joined}
use legion_cli.Assurance.Labels.Product.{
  Generated, Sha256, ProductBytesLabelInput, provenance, label_product_bytes,
}
use legion_cli.Assurance.Labels.Parts.{
  AbovePolicy, AboveChange, AboveGenerated, IsFileOrigin, IsPart, IsReturned, classified-IsPart,
  unexplained-IsPart,
}

mem-three :
    {A : Type 0} (k : A) (xs ys zs : List A)
    → Memᴰ k (xs ++ ys ++ zs) ↔ (Memᴰ k xs ⊎ (Memᴰ k ys ⊎ Memᴰ k zs))
mem-three {A} k xs ys zs = (λ m. to ((Memᴰ-append k (xs ++ ys) zs).0 m), from)
  where
    to : Memᴰ k (xs ++ ys) ⊎ Memᴰ k zs → Memᴰ k xs ⊎ (Memᴰ k ys ⊎ Memᴰ k zs)
    to (inl m) = elim ((Memᴰ-append k xs ys).0 m) [ inl n ↦ inl n | inr n ↦ inr (inl n) ]
    to (inr n) = inr (inr n)

    from : Memᴰ k xs ⊎ (Memᴰ k ys ⊎ Memᴰ k zs) → Memᴰ k (xs ++ ys ++ zs)
    from (inl m) = (Memᴰ-append k (xs ++ ys) zs).1 (inl ((Memᴰ-append k xs ys).1 (inl m)))
    from (inr (inl m)) = (Memᴰ-append k (xs ++ ys) zs).1 (inl ((Memᴰ-append k xs ys).1 (inr m)))
    from (inr (inr m)) = (Memᴰ-append k (xs ++ ys) zs).1 (inr m)

module _ (runtime : Stringify) (sha : Sha256) (lower : Text → Text)
    (bytes : (t : Text) → length (sha.digest_bytes t) ≡ 32) where
  -- What a label says of the bytes of a file.
  pub record Labelled (input : ProductBytesLabelInput) (l : ProvenanceLabel) : Type 0 where
    pub is_untrusted : l.integrity ≡ untrusted
    pub level :
        (c : Confidentiality)
        → (confidentiality_rank l.confidentiality ≤ confidentiality_rank c) ↔ (
            (AbovePolicy runtime sha lower bytes) input c
            × (AboveGenerated runtime sha lower bytes) input c
            × (AboveChange runtime sha lower bytes) input c)
    pub traced :
        (g : Generated)
        → input.generated ≡ some g
        → (o : Text) → Memᴰ o g.label.origins
        → Memᴰ o l.origins

  pub data IsLabelled (input : ProductBytesLabelInput)
      : Attempt LabelError ProvenanceLabel → Type 0 where
    labelled : (l : ProvenanceLabel) → Labelled input l → IsLabelled input (returned l)
    too_many :
        TooMany (λ o.
          ((g : Generated) × (input.generated ≡ some g) × Memᴰ o g.label.origins)
          ⊎ (IsFileOrigin runtime sha lower bytes) input o)
        → IsLabelled input (thrown LabelError.join_exceeds_bound)

  mem-provenance :
      (input : ProductBytesLabelInput) (k : ProvenanceLabel)
      → Memᴰ k (provenance runtime sha lower input)
      → (g : Generated) × (input.generated ≡ some g) × (g.label ≡ k)
  mem-provenance input k m = elim (Option-cases input.generated) [
    | inl e ↦ absurd (Memᴰ-nil k (rw e at m))
    | inr (g, e) ↦
        let only : Memᴰ k (g.label ∷ []) = rw e at m in
        elim only [ Memᴰ.head h ↦ (g, e, sym h) | Memᴰ.tail t ↦ absurd (Memᴰ-nil k t) ]
  ]

  provenance-mem :
      (input : ProductBytesLabelInput) (g : Generated)
      → input.generated ≡ some g
      → Memᴰ g.label (provenance runtime sha lower input)
  provenance-mem input g e = rw e (Memᴰ.head refl)

  -- A label that is as confidential as `c` and otherwise gives no bound.
  abbrev ceiling : ProvenanceLabel → Confidentiality → ProvenanceLabel
  ceiling l c = record { origins = l.origins; integrity = untrusted; confidentiality = c }

  level_iff :
      (labels : List ProvenanceLabel) (l : ProvenanceLabel)
      → ((m : ProvenanceLabel) → Flows l m ↔ ((k : ProvenanceLabel) → Memᴰ k labels → Flows k m))
      → (c : Confidentiality)
      → (confidentiality_rank l.confidentiality ≤ confidentiality_rank c) ↔ (
          (k : ProvenanceLabel)
          → Memᴰ k labels
          → confidentiality_rank k.confidentiality ≤ confidentiality_rank c)
  level_iff labels l least c = (
    λ h k m.
        let f =
          (least (ceiling l c)).0
            (record { origins = λ o n. n; integrity = λ e. refl; confidentiality = h }) k m in
        f.confidentiality,
    λ all.
        let f = (least (ceiling l c)).1 (λ k m. record {
          origins = λ o n. (flows k m).origins o n;
          integrity = λ e. refl;
          confidentiality = all k m;
        }) in
        f.confidentiality,
  )
    where
      flows : (k : ProvenanceLabel) → Memᴰ k labels → Flows k l
      flows =
          (least l).0
            (record { origins = λ o n. n; integrity = λ e. e; confidentiality = omega arith })

  -- Where a label of the join comes from.
  IsSource : ProductBytesLabelInput → ProvenanceLabel → Type 0
  IsSource input k =
      ((g : Generated) × (input.generated ≡ some g) × (g.label ≡ k))
      ⊎ ((o : Text) → Memᴰ o k.origins → (IsFileOrigin runtime sha lower bytes) input o)

  label_part :
      (input : ProductBytesLabelInput) (own change : List ProvenanceLabel)
      → (IsPart runtime sha lower bytes) input ((AbovePolicy runtime sha lower bytes) input) own
      → (IsPart runtime sha lower bytes) input ((AboveChange runtime sha lower bytes) input) change
      → (r : Attempt LabelError ProvenanceLabel)
      → Joined (own ++ provenance runtime sha lower input ++ change) r
      → IsLabelled input (r >>= λ l. returned (record l { integrity = untrusted }))
  unfolding IsSource
  label_part input own change po pc = finish
    where
      labels : List ProvenanceLabel
      labels = own ++ provenance runtime sha lower input ++ change

      place :
          (k : ProvenanceLabel)
          → Memᴰ k labels
            ↔ (Memᴰ k own ⊎ (Memᴰ k (provenance runtime sha lower input) ⊎ Memᴰ k change))
      place k = mem-three k own (provenance runtime sha lower input) change

      split :
          (c : Confidentiality)
          → ((k : ProvenanceLabel)
              → Memᴰ k labels
              → confidentiality_rank k.confidentiality ≤ confidentiality_rank c)
          → (AbovePolicy runtime sha lower bytes) input c
            × (AboveGenerated runtime sha lower bytes) input c
            × (AboveChange runtime sha lower bytes) input c
      split c all = (
        (po.level c).0 (λ k m. all k ((place k).1 (inl m))),
        λ g e. all g.label ((place g.label).1 (inr (inl (provenance-mem input g e)))),
        (pc.level c).0 (λ k m. all k ((place k).1 (inr (inr m)))),
      )

      gather :
          (c : Confidentiality)
          → (AbovePolicy runtime sha lower bytes) input c
            × (AboveGenerated runtime sha lower bytes) input c
            × (AboveChange runtime sha lower bytes) input c
          → (k : ProvenanceLabel) → Memᴰ k labels
          → confidentiality_rank k.confidentiality ≤ confidentiality_rank c
      gather c (a, g, d) k m = elim ((place k).0 m) [
        | inl n ↦ (po.level c).1 a k n
        | inr n ↦ elim n [
          | inl p ↦
              let (x, e, same) = mem-provenance input k p in
              subst
                (λ (y : ProvenanceLabel).
                  confidentiality_rank y.confidentiality ≤ confidentiality_rank c)
                same (g x e)
          | inr q ↦ (pc.level c).1 d k q
        ]
      ]

      origin :
          (k : ProvenanceLabel)
          → Memᴰ k own ⊎ (Memᴰ k (provenance runtime sha lower input) ⊎ Memᴰ k change)
          → IsSource input k
      origin k (inl m) = inr (po.own k m)
      origin k (inr (inl p)) = inl (mem-provenance input k p)
      origin k (inr (inr q)) = inr (pc.own k q)

      source :
          (x : Text) (k : ProvenanceLabel)
          → IsSource input k
          → Memᴰ x k.origins
          → ((g : Generated) × (input.generated ≡ some g) × Memᴰ x g.label.origins)
            ⊎ (IsFileOrigin runtime sha lower bytes) input x
      source x k (inl (g, e, same)) n =
          inl (g, e, subst (λ (y : ProvenanceLabel). Memᴰ x y.origins) (sym same) n)
      source x k (inr own_) n = inr (own_ x n)

      finish :
          (r : Attempt LabelError ProvenanceLabel)
          → Joined labels r
          → IsLabelled input (r >>= λ l. returned (record l { integrity = untrusted }))
      finish (returned l) (bound l' b least) =
          labelled (record l { integrity = untrusted })
            (record {
              is_untrusted = refl;
              level = λ c. (
                λ h. split c ((level_iff labels l least c).0 h),
                λ h. (level_iff labels l least c).1 (gather c h),
              );
              traced = λ g e o m.
                  ((least l).0
                      (record {
                        origins = λ x n. n;
                        integrity = λ x. x;
                        confidentiality = omega arith;
                      })
                      g.label ((place g.label).1 (inr (inl (provenance-mem input g e))))).origins
                    o m;
            })
      finish (thrown e) (over t) =
          too_many (TooMany-map (λ x (k, m, n). source x k (origin k ((place k).0 m)) n) t)

  -- Where SHA-256 gives 32 bytes, labelProductBytes returns a label, or it refuses bytes whose
  -- generated label and own file origins are more than 256 different origins. The label's bytes are
  -- untrusted, it keeps every origin of the generated label, and it is exactly as confidential as it
  -- has to be: at most `c` exactly when `c` is at least the policy's classification of the path and
  -- the confidentiality of the generated label, and is sealed if the bytes are neither declared by a
  -- policy nor generated, or are neither those of the baseline nor generated.
  pub label_product_bytes-IsLabelled :
      (input : ProductBytesLabelInput)
      → IsLabelled input (label_product_bytes runtime sha lower input)
  unfolding label_product_bytes IsReturned
  label_product_bytes-IsLabelled input =
      let (own, e, po) = (classified-IsPart runtime sha lower bytes) input in
      let (change, f, pc) = (unexplained-IsPart runtime sha lower bytes) input in
      let result =
        label_part input own change po pc
          (join_labels (own ++ provenance runtime sha lower input ++ change))
          (join_labels-Joined (own ++ provenance runtime sha lower input ++ change)) in
      rw (e, f, label_product_bytes) result
