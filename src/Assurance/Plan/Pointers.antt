-- ===== src/Assurance/Plan/Pointers.antt =====
-- The data pointers of a call: none equals another or lies below it.
use legion_cli.Prelude.{
  ◌≡◌, ◌↔◌, ◌⊎◌, inl, inr, refl, sym, ◌∙◌, ap, subst, false, List, [], ◌∷◌, ◌++◌, any, any-eq-false,
  nat_eq, list_eq, Memᴰ, Memᴰ-nil, arith,
}
use legion_cli.Text.{Text}
use legion_cli.Assurance.Plan.{is_within, overlaps_from, overlapping_pointers}

-- A pointer is within none of those at the other places of the list, nor of those before the list.
abbrev Apart : List Text → List Text → Type 0
Apart before ps =
    (xs : List Text) (p : Text) (ys : List Text)
    → ps ≡ xs ++ p ∷ ys
    → (q : Text) → Memᴰ q before ⊎ (Memᴰ q xs ⊎ Memᴰ q ys)
    → is_within p q ≡ false

-- A pointer is within none of those at the other places of the list.
abbrev pub Disjoint : List Text → Type 0
Disjoint ps =
    (xs : List Text) (p : Text) (ys : List Text)
    → ps ≡ xs ++ p ∷ ys
    → (q : Text) → Memᴰ q xs ⊎ Memᴰ q ys
    → is_within p q ≡ false

no_overlap-Apart : (before ps : List Text) → overlaps_from before ps ≡ false → Apart before ps
unfolding overlaps_from
no_overlap-Apart before [] h [] p ys e q m = cc
no_overlap-Apart before [] h (x ∷ xs) p ys e q m = cc
no_overlap-Apart before (p0 ∷ ps) h [] p ys e q m =
    let same : p0 ≡ p = cc in
    let rest : ps ≡ ys = cc in
    let earlier : any (is_within p0) before ≡ false = ground arith in
    let after : any (is_within p0) ps ≡ false = ground arith in
    subst (λ x. is_within x q ≡ false) same
      (elim m [
        | inl b ↦ (any-eq-false (is_within p0) before).0 earlier q b
        | inr n ↦ elim n [
          | inl impossible ↦ absurd (Memᴰ-nil q impossible)
          | inr y ↦ (any-eq-false (is_within p0) ps).0 after q (subst (λ l. Memᴰ q l) (sym rest) y)
        ]
      ])
no_overlap-Apart before (p0 ∷ ps) h (x ∷ xs) p ys e q m =
    let same : p0 ≡ x = cc in
    let rest : ps ≡ xs ++ p ∷ ys = cc in
    no_overlap-Apart (p0 ∷ before) ps (ground arith) xs p ys rest q (elim m [
      | inl b ↦ inl (Memᴰ.tail b)
      | inr n ↦ elim n [
        | inl l ↦ elim l [
          | Memᴰ.head k ↦ inl (Memᴰ.head (k ∙ sym same))
          | Memᴰ.tail t ↦ inr (inl t)
        ]
        | inr y ↦ inr (inr y)
      ]
    ])

Apart-no_overlap : (before ps : List Text) → Apart before ps → overlaps_from before ps ≡ false
unfolding overlaps_from
Apart-no_overlap before [] apart = refl
Apart-no_overlap before (p ∷ ps) apart =
    let earlier : any (is_within p) before ≡ false =
      (any-eq-false (is_within p) before).1 (λ q m. apart [] p ps refl q (inl m)) in
    let after : any (is_within p) ps ≡ false =
      (any-eq-false (is_within p) ps).1 (λ q m. apart [] p ps refl q (inr (inr m))) in
    let rest = Apart-no_overlap (p ∷ before) ps (λ xs r ys e q m.
      apart (p ∷ xs) r ys (ap (λ l. p ∷ l) e) q (elim m [
        | inl b ↦ elim b [ Memᴰ.head k ↦ inr (inl (Memᴰ.head k)) | Memᴰ.tail t ↦ inl t ]
        | inr n ↦ elim n [ inl l ↦ inr (inl (Memᴰ.tail l)) | inr y ↦ inr (inr y) ]
      ])) in
    ground arith

pub overlapping_pointers_iff : (ps : List Text) → (overlapping_pointers ps ≡ false) ↔ Disjoint ps
unfolding overlapping_pointers
overlapping_pointers_iff ps = (
  λ h xs p ys e q m. no_overlap-Apart [] ps h xs p ys e q (inr m),
  λ d.
      Apart-no_overlap [] ps
        (λ xs p ys e q m. elim m [ inl b ↦ absurd (Memᴰ-nil q b) | inr n ↦ d xs p ys e q n ]),
)
