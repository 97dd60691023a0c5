-- ===== src/Assurance/Labels/Parts.antt =====
-- The labels that `labelProductBytes` joins: each bounds the confidentiality of the file in its way.
use legion_cli.Prelude.{
  ◌≡◌, ◌≤◌, ◌↔◌, inl, inr, refl, sym, ◌∙◌, ap, subst, false, none, some, List, [], ◌∷◌, ◌++◌,
  length, nat_eq, list_eq, option_eq, Memᴰ, Memᴰ-nil, arith, Bool-cases, Option-cases,
}
use legion_cli.Text.{Text, codes, join_text}
use legion_cli.Attempt.{Attempt, returned, ◌>>=◌}
use legion_cli.Json.Canonical.{Stringify, canonical_json, write_parts, sort_parts}
use legion_cli.Assurance.Labels.{
  ProvenanceLabel, Confidentiality, LabelError, confidentiality_rank, untrusted, sealed,
}
use legion_cli.Assurance.Labels.Product.{
  PolicySource, Generated, Sha256, Namespace, ProductBytesLabelInput, default_options,
  namespaced_origin, source_descriptor, file_label, policy_of, generated_matches, baseline_matches,
  classified, unexplained,
}
use legion_cli.Assurance.Labels.Origins.{namespaced_origin-returned}

sealed_iff :
    (c : Confidentiality) → (confidentiality_rank sealed ≤ confidentiality_rank c) ↔ (c ≡ sealed)
sealed_iff Confidentiality.public =
    (λ h. absurd (omega arith), λ e. let f = ap confidentiality_rank e in omega arith)
sealed_iff Confidentiality.workspace =
    (λ h. absurd (omega arith), λ e. let f = ap confidentiality_rank e in omega arith)
sealed_iff Confidentiality.sealed = (λ h. refl, λ e. omega arith)

module _ (runtime : Stringify) (sha : Sha256) (lower : Text → Text)
    (bytes : (t : Text) → length (sha.digest_bytes t) ≡ 32) where
  -- `canonicalJson` writes the descriptor of a source.
  descriptor_text :
      (id path : Text)
      → (text : Text) × (canonical_json runtime default_options
            (source_descriptor runtime sha id path)
          ≡ returned text)
  unfolding canonical_json write_parts sort_parts
  descriptor_text id path = (
    b'{'
          ∷ join_text b',' (
              (runtime.string_text (codes "path") ++ b':' ∷ runtime.string_text path)
              ∷ (runtime.string_text (codes "sourceId") ++ b':' ∷ runtime.string_text id)
              ∷ [])
        ++ b'}' ∷ [],
    refl,
  )

  -- The origin that a file gets under a source's name.
  pub IsFileOrigin : ProductBytesLabelInput → Text → Type 0
  IsFileOrigin input o =
      (id : Text) × (namespaced_origin runtime sha Namespace.file
          (source_descriptor runtime sha id input.path)
        ≡ returned o)

  -- At most one label, of the file's own origin, with the given confidentiality.
  IsOwn : ProductBytesLabelInput → Confidentiality → List ProvenanceLabel → Type 0
  IsOwn input c ls =
      (k : ProvenanceLabel) × (ls ≡ k ∷ [])
      × (k.confidentiality ≡ c)
      × ((o : Text) → Memᴰ o k.origins → IsFileOrigin input o)

  file_label-IsOwn :
      (input : ProductBytesLabelInput) (id : Text) (c : Confidentiality)
      → (ls : List ProvenanceLabel) × ((file_label runtime sha id input.path c >>= λ l.
            returned (l ∷ []))
          ≡ returned ls)
        × IsOwn input c ls
  unfolding IsOwn IsFileOrigin
  file_label-IsOwn input id c =
      let (text, e) = descriptor_text id input.path in
      let (origin, f) =
        namespaced_origin-returned runtime sha bytes Namespace.file
          (source_descriptor runtime sha id input.path) text e in
      let k : ProvenanceLabel = record {
        origins = origin ∷ [];
        integrity = untrusted;
        confidentiality = c;
      } in
      (
        k ∷ [],
        rw f refl,
        (
          k,
          refl,
          refl,
          λ o m. elim m [
            | Memᴰ.head h ↦ (id, f ∙ ap (λ (x : Text). returned x) (sym h))
            | Memᴰ.tail t ↦ absurd (Memᴰ-nil o t)
          ],
        ),
      )

  -- Labels of the file's own origins, with the least confidentiality that bounds them all.
  pub record IsPart (input : ProductBytesLabelInput) (Above : Confidentiality → Type 0)
      (ls : List ProvenanceLabel) : Type 0 where
    pub level :
        (c : Confidentiality)
        → ((k : ProvenanceLabel)
            → Memᴰ k ls
            → confidentiality_rank k.confidentiality ≤ confidentiality_rank c)
          ↔ Above c
    pub own :
        (k : ProvenanceLabel) → Memᴰ k ls → (o : Text) → Memᴰ o k.origins → IsFileOrigin input o

  IsOwn-IsPart :
      (input : ProductBytesLabelInput) (d : Confidentiality) (ls : List ProvenanceLabel)
      (Above : Confidentiality → Type 0)
      → ((c : Confidentiality) → (confidentiality_rank d ≤ confidentiality_rank c) ↔ Above c)
      → IsOwn input d ls
      → IsPart input Above ls
  unfolding IsOwn
  IsOwn-IsPart input d ls Above same (k, shape, level, own) = record {
    level = λ c. (
      λ all.
          let h = all k (subst (λ l. Memᴰ k l) (sym shape) (Memᴰ.head refl)) in
          (same c).0 (subst (λ x. confidentiality_rank x ≤ confidentiality_rank c) level h),
      λ above j m. elim (subst (λ l. Memᴰ j l) shape m) [
        | Memᴰ.head e ↦
            let at_most = (same c).1 above in
            let l : j.confidentiality ≡ d =
              ap (λ (x : ProvenanceLabel). x.confidentiality) e ∙ level in
            subst (λ x. confidentiality_rank x ≤ confidentiality_rank c) (sym l) at_most
        | Memᴰ.tail t ↦ absurd (Memᴰ-nil j t)
      ],
    );
    own = λ j m o n. elim (subst (λ l. Memᴰ j l) shape m) [
      | Memᴰ.head e ↦ own o (subst (λ (x : ProvenanceLabel). Memᴰ o x.origins) e n)
      | Memᴰ.tail t ↦ absurd (Memᴰ-nil j t)
    ];
  }

  IsPart-nil :
      (input : ProductBytesLabelInput) (Above : Confidentiality → Type 0)
      → ((c : Confidentiality) → Above c)
      → IsPart input Above []
  IsPart-nil input Above all = record {
    level = λ c. (λ h. all c, λ h k m. absurd (Memᴰ-nil k m));
    own = λ k m. absurd (Memᴰ-nil k m);
  }

  -- A declared source is at least as confidential as its policy says, and the bytes of any other
  -- file are sealed unless they were generated.
  abbrev pub AbovePolicy : ProductBytesLabelInput → Confidentiality → Type 0
  AbovePolicy input c =
      ((p : PolicySource)
        → policy_of runtime sha lower input ≡ some p
        → confidentiality_rank p.classification ≤ confidentiality_rank c)
      × (policy_of runtime sha lower input ≡ none
          → generated_matches runtime sha lower input ≡ false
          → c ≡ sealed)

  -- Bytes that are neither those of the baseline nor generated are sealed.
  abbrev pub AboveChange : ProductBytesLabelInput → Confidentiality → Type 0
  AboveChange input c =
      baseline_matches runtime sha lower input ≡ false
      → generated_matches runtime sha lower input ≡ false
      → c ≡ sealed

  -- What was generated keeps the confidentiality that it was generated with.
  abbrev pub AboveGenerated : ProductBytesLabelInput → Confidentiality → Type 0
  AboveGenerated input c =
      (g : Generated)
      → input.generated ≡ some g
      → confidentiality_rank g.label.confidentiality ≤ confidentiality_rank c

  unfoldable pub IsReturned :
      (List ProvenanceLabel → Type 0) → Attempt LabelError (List ProvenanceLabel) → Type 0
  IsReturned P r = (ls : List ProvenanceLabel) × (r ≡ returned ls) × P ls

  file_label-IsPart :
      (input : ProductBytesLabelInput) (id : Text) (d : Confidentiality)
      (Above : Confidentiality → Type 0)
      → ((c : Confidentiality) → (confidentiality_rank d ≤ confidentiality_rank c) ↔ Above c)
      → IsReturned
          (IsPart input Above)
          (file_label runtime sha id input.path d >>= λ l. returned (l ∷ []))
  unfolding IsReturned
  file_label-IsPart input id d Above same =
      let (ls, e, own) = file_label-IsOwn input id d in
      (ls, e, IsOwn-IsPart input d ls Above same own)

  pub classified-IsPart :
      (input : ProductBytesLabelInput)
      → IsReturned (IsPart input (AbovePolicy input)) (classified runtime sha lower input)
  unfolding classified IsReturned
  classified-IsPart input = elim (Option-cases (policy_of runtime sha lower input)) [
    | inr (p, e) ↦
        let above : (c : Confidentiality)
            → (confidentiality_rank p.classification ≤ confidentiality_rank c)
              ↔ AbovePolicy input c =
          λ c. (
            λ h. (
              λ q f.
                  let same : p ≡ q = cc in
                  subst
                    (λ (x : PolicySource).
                      confidentiality_rank x.classification ≤ confidentiality_rank c)
                    same h,
              λ f g. cc,
            ),
            λ h. h.0 p e,
          ) in
        rw (e, classified) (file_label-IsPart input p.id p.classification (AbovePolicy input) above)
    | inl e ↦ elim (Bool-cases (generated_matches runtime sha lower input)) [
      | inl g ↦
          rw (e, classified)
            (rw g ([], refl, IsPart-nil input (AbovePolicy input) (λ c. (λ q f. cc, λ f h. cc))))
      | inr g ↦
          let above : (c : Confidentiality)
              → (confidentiality_rank sealed ≤ confidentiality_rank c) ↔ AbovePolicy input c =
            λ c. (λ h. (λ q f. cc, λ f k. (sealed_iff c).0 h), λ h. (sealed_iff c).1 (h.1 e g)) in
          rw (e, classified)
            (rw g (file_label-IsPart input (codes "unclassified") sealed (AbovePolicy input) above))
    ]
  ]

  pub unexplained-IsPart :
      (input : ProductBytesLabelInput)
      → IsReturned (IsPart input (AboveChange input)) (unexplained runtime sha lower input)
  unfolding unexplained IsReturned
  unexplained-IsPart input = elim (Bool-cases (baseline_matches runtime sha lower input)) [
    | inl b ↦ rw (b, unexplained) ([], refl, IsPart-nil input (AboveChange input) (λ c f g. cc))
    | inr b ↦ elim (Bool-cases (generated_matches runtime sha lower input)) [
      | inl g ↦
          rw (b, g, unexplained) ([], refl, IsPart-nil input (AboveChange input) (λ c f h. cc))
      | inr g ↦
          rw (b, g, unexplained)
            (file_label-IsPart input (codes "unexplained-change") sealed (AboveChange input)
              (λ c. (λ h f k. (sealed_iff c).0 h, λ h. (sealed_iff c).1 (h b g))))
    ]
  ]
