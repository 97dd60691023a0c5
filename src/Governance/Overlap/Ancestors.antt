-- ===== src/Governance/Overlap/Ancestors.antt =====
-- The ancestors of a key are exactly the directories above it.
use mathlib.Core.Path.{ap₂}
use legion_cli.Prelude.{
  ℕ, ◌≡◌, refl, sym, ap, ◌∙◌, ◌⊎◌, inl, inr, ◌↔◌, List, [], ◌∷◌, ◌++◌, map, Memᴰ, ◌==◌, nat_eq,
  Bool-cases, ==_iff, Memᴰ-cons, Memᴰ-nil, if◌then◌else◌,
}
use legion_cli.Text.{Text, split, join_text}
use legion_cli.Paths.{slash}
use legion_cli.Governance.Overlap.{proper_prefixes, ancestors}

-- `a` is a directory above `key`.
abbrev pub IsAbove : Text → Text → Type 0
IsAbove a key = (rest : Text) × (key ≡ a ++ slash ∷ rest)

split-ne-nil : (s : Text) → (h : Text) × (t : List Text) × (split slash s ≡ h ∷ t)
unfolding split
split-ne-nil [] = ([], [], refl)
split-ne-nil (c ∷ s) = elim (Bool-cases (c == slash)) [
  | inl cut ↦ ([], split slash s, rw cut)
  | inr on ↦ let (h, t, e) = split-ne-nil s in (c ∷ h, t, rw (on, e))
]

join-cons-cons :
    (c : ℕ) (h : Text) (L : List (List Text))
    → map (join_text slash) (map (λ ps. (c ∷ h) ∷ ps) L)
      ≡ map (λ t. c ∷ t) (map (join_text slash) (map (λ ps. h ∷ ps) L))
unfolding join_text
join-cons-cons c h [] = refl
join-cons-cons c h ([] ∷ L) = ap (λ t. (c ∷ h) ∷ t) (join-cons-cons c h L)
join-cons-cons c h ((p ∷ ps) ∷ L) =
    ap (λ t. (c ∷ h ++ slash ∷ join_text slash (p ∷ ps)) ∷ t) (join-cons-cons c h L)

join-nil-cons :
    (c : ℕ) (p : Text) (L : List (List Text))
    → c ≡ slash
    → map (join_text slash) (map (λ ps. [] ∷ ps) (map (λ ps. p ∷ ps) L))
      ≡ map (λ t. c ∷ t) (map (join_text slash) (map (λ ps. p ∷ ps) L))
unfolding join_text
join-nil-cons c p [] e = refl
join-nil-cons c p (ps ∷ L) e =
    ap₂ (λ t ts. t ∷ ts) (ap (λ d. d ∷ join_text slash (p ∷ ps)) (sym e)) (join-nil-cons c p L e)

ancestors-cons :
    (c : ℕ) (s : Text)
    → ancestors (c ∷ s)
      ≡ (if c == slash then [] ∷ map (λ t. c ∷ t) (ancestors s) else map (λ t. c ∷ t) (ancestors s))
unfolding ancestors
ancestors-cons c s = let (h, t, e) = split-ne-nil s in go h t e
  where
    go :
        (h : Text) (t : List Text)
        → split slash s ≡ h ∷ t
        → map (join_text slash) (proper_prefixes (split slash (c ∷ s))) ≡ (
            if c == slash
            then [] ∷ map (λ t. c ∷ t) (map (join_text slash) (proper_prefixes (split slash s)))
            else map (λ t. c ∷ t) (map (join_text slash) (proper_prefixes (split slash s))))
    go h [] e = elim (Bool-cases (c == slash)) [
      | inl cut ↦ rw (cut, e, split) refl
      | inr on ↦ rw (on, e, split) refl
    ]
    go h (q ∷ r) e = elim (Bool-cases (c == slash)) [
      | inl cut ↦
          rw (cut, e, split)
            (ap₂ (λ t L. [] ∷ t ∷ L) (ap (λ d. d ∷ h) (sym ((==_iff c slash).0 cut)))
              (join-nil-cons c h (proper_prefixes (q ∷ r)) ((==_iff c slash).0 cut)))
      | inr on ↦
          rw (on, e, split) (ap (λ L. (c ∷ h) ∷ L) (join-cons-cons c h (proper_prefixes (q ∷ r))))
    ]

mem-map-cons :
    (c : ℕ) (a : Text) (L : List Text)
    → Memᴰ a (map (λ t. c ∷ t) L) ↔ ((b : Text) × (a ≡ c ∷ b) × Memᴰ b L)
mem-map-cons c a L = (to L, λ (b, e, m). from b e L m)
  where
    to : (L : List Text) → Memᴰ a (map (λ t. c ∷ t) L) → (b : Text) × (a ≡ c ∷ b) × Memᴰ b L
    to [] m = elim m [ ]
    to (x ∷ L) (Memᴰ.head e) = (x, e, Memᴰ.head refl)
    to (x ∷ L) (Memᴰ.tail m) = let (b, e, k) = to L m in (b, e, Memᴰ.tail k)

    from : (b : Text) → a ≡ c ∷ b → (L : List Text) → Memᴰ b L → Memᴰ a (map (λ t. c ∷ t) L)
    from b e [] m = elim m [ ]
    from b e (x ∷ L) (Memᴰ.head k) = Memᴰ.head (e ∙ ap (λ t. c ∷ t) k)
    from b e (x ∷ L) (Memᴰ.tail m) = Memᴰ.tail (from b e L m)

not-mem-map-cons-nil : (c : ℕ) (L : List Text) → ¬ Memᴰ [] (map (λ t. c ∷ t) L)
not-mem-map-cons-nil c L m = let (b, e, k) = (mem-map-cons c [] L).0 m in cc

ancestors-nil : ancestors [] ≡ []
unfolding ancestors
ancestors-nil = refl

-- The ancestors of a longer key, by whether it begins with a slash.
mem-ancestors-cons :
    (a : Text) (c : ℕ) (s : Text)
    → Memᴰ a (ancestors (c ∷ s))
      ↔ (((c ≡ slash) × (a ≡ [])) ⊎ ((b : Text) × (a ≡ c ∷ b) × Memᴰ b (ancestors s)))
mem-ancestors-cons a c s = rw (ancestors-cons c s) (elim (Bool-cases (c == slash)) [
  | inl cut ↦ rw cut (
    λ m. elim ((Memᴰ-cons a [] _).0 m) [
      | inl e ↦ inl ((==_iff c slash).0 cut, e)
      | inr t ↦ inr ((mem-map-cons c a (ancestors s)).0 t)
    ],
    λ h. elim h [
      | inl (_, e) ↦ Memᴰ.head e
      | inr t ↦ Memᴰ.tail ((mem-map-cons c a (ancestors s)).1 t)
    ],
  )
  | inr on ↦ rw on (
    λ m. inr ((mem-map-cons c a (ancestors s)).0 m),
    λ h. elim h [
      | inl (e, _) ↦ cc ((==_iff c slash).1 e)
      | inr t ↦ (mem-map-cons c a (ancestors s)).1 t
    ],
  )
])

IsAbove-mem : (a key : Text) → Memᴰ a (ancestors key) → IsAbove a key
IsAbove-mem a [] m = absurd (Memᴰ-nil a (rw ancestors-nil at m))
IsAbove-mem a (c ∷ s) m = elim ((mem-ancestors-cons a c s).0 m) [
  | inl (e, empty) ↦ (s, rw (e, empty))
  | inr (b, e, k) ↦ let (rest, split_at) = IsAbove-mem b s k in (rest, cc)
]

mem_of_IsAbove : (a key rest : Text) → key ≡ a ++ slash ∷ rest → Memᴰ a (ancestors key)
mem_of_IsAbove [] [] rest e = cc
mem_of_IsAbove (x ∷ a) [] rest e = cc
mem_of_IsAbove [] (c ∷ s) rest e = (mem-ancestors-cons [] c s).1 (inl (cc, refl))
mem_of_IsAbove (x ∷ a) (c ∷ s) rest e =
    let same : x ≡ c = cc in
    let below : s ≡ a ++ slash ∷ rest = cc in
    (mem-ancestors-cons (x ∷ a) c s).1
      (inr (a, ap (λ u. u ∷ a) same, mem_of_IsAbove a s rest below))

-- The ancestors that the code lists for a key are the directories above it, and no others.
pub mem-ancestors_iff : (a key : Text) → Memᴰ a (ancestors key) ↔ IsAbove a key
mem-ancestors_iff a key = (IsAbove-mem a key, λ above. mem_of_IsAbove a key above.0 above.1)
