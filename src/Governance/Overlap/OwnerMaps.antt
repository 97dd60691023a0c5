-- ===== src/Governance/Overlap/OwnerMaps.antt =====
-- What the two maps of `overlappingWritePaths` hold.
use legion_cli.Prelude.{
  ◌≡◌, refl, sym, ap, subst, ◌⊎◌, inl, inr, ◌↔◌, List, [], ◌∷◌, Memᴰ, arith, ◌==◌, nat_eq, list_eq,
  Bool-cases, ==_iff, Memᴰ-cons, Memᴰ-nil, Memᴰ-append,
}
use legion_cli.Text.{Text}
use legion_cli.Governance.Overlap.{Owners, owners_of, concat_owners, add_all}

pub mem-owners_of : (m : Owners) (key id : Text) → Memᴰ id (owners_of m key) ↔ Memᴰ (key, id) m
unfolding owners_of
mem-owners_of [] key id = ground (arith, Memᴰ-nil id, Memᴰ-nil {A = Text × Text} (key, id))
mem-owners_of ((k, i) ∷ m) key id = elim (Bool-cases (k == key)) [
  | inl same ↦ rw same (
    λ h. elim ((Memᴰ-cons id i (owners_of m key)).0 h) [
      | inl e ↦ Memᴰ.head (pair_path (sym ((==_iff k key).0 same)) e)
      | inr t ↦ Memᴰ.tail ((mem-owners_of m key id).0 t)
    ],
    λ h. elim ((Memᴰ-cons (key, id) (k, i) m).0 h) [
      | inl e ↦ Memᴰ.head (ap (λ (p : Text × Text). p.1) e)
      | inr t ↦ Memᴰ.tail ((mem-owners_of m key id).1 t)
    ],
  )
  | inr other ↦ rw other (
    λ h. Memᴰ.tail ((mem-owners_of m key id).0 h),
    λ h. elim ((Memᴰ-cons (key, id) (k, i) m).0 h) [
      | inl e ↦ cc ((==_iff k key).1 (sym (ap (λ (p : Text × Text). p.0) e)))
      | inr t ↦ (mem-owners_of m key id).1 t
    ],
  )
]
  where
    pair_path : {a b c d : Text} → a ≡ b → c ≡ d → ◌≡◌ {A = Text × Text} (a, c) (b, d)
    pair_path p q = λ i. (p i, q i)

pub mem-concat_owners :
    (m : Owners) (keys : List Text) (id : Text)
    → Memᴰ id (concat_owners m keys) ↔ ((k : Text) × Memᴰ k keys × Memᴰ (k, id) m)
mem-concat_owners m keys id = (to keys, λ (k, here, there). from keys k here there)
  where
    to : (ks : List Text) → Memᴰ id (concat_owners m ks) → (k : Text) × Memᴰ k ks × Memᴰ (k, id) m
    to [] h = elim h [ ]
    to (k ∷ ks) h = elim ((Memᴰ-append id (owners_of m k) (concat_owners m ks)).0 h) [
      | inl here ↦ (k, Memᴰ.head refl, (mem-owners_of m k id).0 here)
      | inr later ↦ let (j, a, b) = to ks later in (j, Memᴰ.tail a, b)
    ]

    from : (ks : List Text) (k : Text) → Memᴰ k ks → Memᴰ (k, id) m → Memᴰ id (concat_owners m ks)
    from [] k a b = elim a [ ]
    from (j ∷ ks) k (Memᴰ.head e) b =
        (Memᴰ-append id (owners_of m j) (concat_owners m ks)).1
          (inl ((mem-owners_of m j id).1 (subst (λ x. Memᴰ (x, id) m) e b)))
    from (j ∷ ks) k (Memᴰ.tail a) b =
        (Memᴰ-append id (owners_of m j) (concat_owners m ks)).1 (inr (from ks k a b))

pub mem-add_all :
    (keys : List Text) (id : Text) (m : Owners) (k o : Text)
    → Memᴰ (k, o) (add_all keys id m) ↔ ((Memᴰ k keys × (o ≡ id)) ⊎ Memᴰ (k, o) m)
mem-add_all [] id m k o = (inr, λ h. elim h [ inl e ↦ absurd (Memᴰ-nil k e.0) | inr t ↦ t ])
mem-add_all (j ∷ keys) id m k o =
    let ih = mem-add_all keys id ((j, id) ∷ m) k o in
    (
      λ h. elim (ih.0 h) [
        | inl e ↦ inl (Memᴰ.tail e.0, e.1)
        | inr t ↦ elim ((Memᴰ-cons (k, o) (j, id) m).0 t) [
          | inl e ↦
              inl (Memᴰ.head (ap (λ (p : Text × Text). p.0) e), ap (λ (p : Text × Text). p.1) e)
          | inr u ↦ inr u
        ]
      ],
      λ h. elim h [
        | inl e ↦ elim ((Memᴰ-cons k j keys).0 e.0) [
          | inl same ↦ ih.1 (inr (Memᴰ.head (λ i. (same i, e.1 i))))
          | inr t ↦ ih.1 (inl (t, e.1))
        ]
        | inr t ↦ ih.1 (inr (Memᴰ.tail t))
      ],
    )
