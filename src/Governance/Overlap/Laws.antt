-- ===== src/Governance/Overlap/Laws.antt =====
-- `overlappingWritePaths` reports nothing exactly where no two scopes collide.
use legion_cli.Prelude.{
  ◌≡◌, ◌≢◌, refl, sym, ap, ◌∙◌, subst, ◌⊎◌, inl, inr, ◌↔◌, true, not, List, [], ◌∷◌, ◌++◌, map,
  Memᴰ, arith, ◌==◌, nat_eq, list_eq, Bool-cases, ==_iff, Memᴰ-cons, Memᴰ-append, Memᴰ-filter,
  append-eq-nil, map-eq-nil,
}
use legion_cli.Text.{Text, sorted_set, mem-sorted_set}
use legion_cli.Paths.{normalize_path_key}
use legion_cli.Governance.Overlap.{
  Entry, Owners, owners_of, concat_owners, ancestors, others, add_all, overlaps_paths,
  overlaps_entries, overlapping_write_paths, overlap_text,
}
use legion_cli.Governance.Overlap.Ancestors.{IsAbove, mem-ancestors_iff}
use legion_cli.Governance.Overlap.OwnerMaps.{mem-owners_of, mem-concat_owners, mem-add_all}

not_same : {a b : Text} → a ≢ b → not (a == b) ≡ true
not_same {a} {b} h = elim (Bool-cases (a == b)) [
  | inl e ↦ absurd (h ((==_iff a b).0 e))
  | inr e ↦ rw e
]

-- A write scope as the code compares it: its key, and who owns it.
abbrev pub Claim : Type 0
Claim = Text × Text

-- Two claims of different owners collide: the same key, or one a directory above the other.
abbrev pub Collide : Claim → Claim → Type 0
Collide (k, o) (key, id) = (o ≢ id) × ((k ≡ key) ⊎ IsAbove k key ⊎ IsAbove key k)

Collide-sym : (c d : Claim) → Collide c d → Collide d c
Collide-sym (k, o) (key, id) (differ, inl e) = (λ h. differ (sym h), inl (sym e))
Collide-sym (k, o) (key, id) (differ, inr (inl a)) = (λ h. differ (sym h), inr (inr a))
Collide-sym (k, o) (key, id) (differ, inr (inr b)) = (λ h. differ (sym h), inr (inl b))

-- The two maps hold what was seen: `owners` its keys, `below` the directories above them.
record Holds (seen : List Claim) (owners below : Owners) : Type 0 where
  keys : (k o : Text) → Memᴰ (k, o) owners ↔ Memᴰ (k, o) seen
  above : (k o : Text) → Memᴰ (k, o) below ↔ ((k' : Text) × Memᴰ (k', o) seen × IsAbove k k')

module _ {seen : List Claim} {owners below : Owners} (h : Holds seen owners below)
    (key id : Text) where
  -- The ids reported for a claim are the owners of the earlier claims that collide with it.
  mem-others :
      (o : Text)
      → Memᴰ o (others owners below key id)
        ↔ ((k : Text) × Memᴰ (k, o) seen × Collide (k, o) (key, id))
  unfolding others
  mem-others o = (to, λ (k, m, c). from k m c)
    where
      all : List Text
      all = concat_owners owners (key ∷ ancestors key) ++ owners_of below key

      to :
          Memᴰ o (others owners below key id)
          → (k : Text) × Memᴰ (k, o) seen × Collide (k, o) (key, id)
      to m =
          let (there, test) = (Memᴰ-filter (λ o. not (o == id)) o (sorted_set all)).0 m in
          let differ : o ≢ id = λ e. cc ((==_iff o id).1 e) in
          elim ((Memᴰ-append o (concat_owners owners (key ∷ ancestors key)) (owners_of below key)).0
            ((mem-sorted_set o all).0 there)) [
              | inl up ↦
                  let (k, listed, owned) =
                    (mem-concat_owners owners (key ∷ ancestors key) o).0 up in
                  elim ((Memᴰ-cons k key (ancestors key)).0 listed) [
                    | inl e ↦ (k, (h.keys k o).0 owned, (differ, inl e))
                    | inr a ↦ (
                      k,
                      (h.keys k o).0 owned,
                      (differ, inr (inl ((mem-ancestors_iff k key).0 a))),
                    )
                  ]
              | inr down ↦
                  let (k, owned, a) = (h.above key o).0 ((mem-owners_of below key o).0 down) in
                  (k, owned, (differ, inr (inr a)))
            ]

      place : Memᴰ o all → o ≢ id → Memᴰ o (others owners below key id)
      place m differ =
          (Memᴰ-filter (λ o. not (o == id)) o (sorted_set all)).1
            ((mem-sorted_set o all).1 m, not_same differ)

      listed : (k : Text) → Memᴰ k (key ∷ ancestors key) → Memᴰ (k, o) seen → Memᴰ o all
      listed k m owned =
          (Memᴰ-append o (concat_owners owners (key ∷ ancestors key)) (owners_of below key)).1 (
            inl ((mem-concat_owners owners (key ∷ ancestors key) o).1 (k, m, (h.keys k o).1 owned)))

      from :
          (k : Text)
          → Memᴰ (k, o) seen
          → Collide (k, o) (key, id)
          → Memᴰ o (others owners below key id)
      from k m (differ, inl e) = place (listed k (Memᴰ.head e) m) differ
      from k m (differ, inr (inl a)) =
          place (listed k (Memᴰ.tail ((mem-ancestors_iff k key).1 a)) m) differ
      from k m (differ, inr (inr b)) =
          place
            ((Memᴰ-append o (concat_owners owners (key ∷ ancestors key)) (owners_of below key)).1
              (inr ((mem-owners_of below key o).1 ((h.above key o).1 (k, m, b)))))
            differ

  Holds-add : Holds ((key, id) ∷ seen) ((key, id) ∷ owners) (add_all (ancestors key) id below)
  Holds-add = record { keys = keys; above = λ k o. (to k o, λ (k', m, a). from k o k' m a) }
    where
      keys : (k o : Text) → Memᴰ (k, o) ((key, id) ∷ owners) ↔ Memᴰ (k, o) ((key, id) ∷ seen)
      keys k o = ground (
        arith,
        h.keys k o,
        Memᴰ-cons {A = Claim} (k, o) (key, id) owners,
        Memᴰ-cons {A = Claim} (k, o) (key, id) seen,
      )

      to :
          (k o : Text)
          → Memᴰ (k, o) (add_all (ancestors key) id below)
          → (k' : Text) × Memᴰ (k', o) ((key, id) ∷ seen) × IsAbove k k'
      to k o m = elim ((mem-add_all (ancestors key) id below k o).0 m) [
        | inl new ↦ (key, Memᴰ.head (λ i. (key, new.1 i)), (mem-ancestors_iff k key).0 new.0)
        | inr old ↦ let (k', there, a) = (h.above k o).0 old in (k', Memᴰ.tail there, a)
      ]

      from :
          (k o k' : Text)
          → Memᴰ (k', o) ((key, id) ∷ seen)
          → IsAbove k k'
          → Memᴰ (k, o) (add_all (ancestors key) id below)
      from k o k' m a = elim ((Memᴰ-cons {A = Claim} (k', o) (key, id) seen).0 m) [
        | inl e ↦ (mem-add_all (ancestors key) id below k o).1 (
            inl (
              (mem-ancestors_iff k key).1 (subst (IsAbove k) (ap (λ (c : Claim). c.0) e) a),
              ap (λ (c : Claim). c.1) e,
            ))
        | inr old ↦
            (mem-add_all (ancestors key) id below k o).1 (inr ((h.above k o).1 (k', old, a)))
      ]

eq-nil_iff : {A : Type 0} (xs : List A) → (xs ≡ []) ↔ ((a : A) → ¬ Memᴰ a xs)
eq-nil_iff [] = (λ _ a m. elim m [ ], λ _. refl)
eq-nil_iff (x ∷ xs) = (λ e. cc, λ h. absurd (h x (Memᴰ.head refl)))

none_reported :
    {seen : List Claim} {owners below : Owners} (h : Holds seen owners below) (key id path : Text)
    → (map (overlap_text path id) (others owners below key id) ≡ [])
      ↔ ((d : Claim) → Memᴰ d seen → ¬ Collide d (key, id))
none_reported {owners} {below} h key id path =
    let found = others owners below key id in
    let there = λ (o : Text). mem-others h key id o in
    (
      λ e d m c.
          (eq-nil_iff found).0 ((map-eq-nil (overlap_text path id) found).0 e) d.1
            ((there d.1).1 (d.0, m, c)),
      λ f.
          (map-eq-nil (overlap_text path id) found).1 (
            (eq-nil_iff found).1
              (λ o m. let (k, seen_it, c) = (there o).0 m in f (k, o) seen_it c)),
    )

-- No claim of the list collides with one before it, the seen ones included.
abbrev Free : List Claim → List Claim → Type 0
Free seen [] = Unit {0}
Free seen (c ∷ cs) = ((d : Claim) → Memᴰ d seen → ¬ Collide d c) × Free (c ∷ seen) cs

abbrev push_all : List Claim → List Claim → List Claim
push_all seen [] = seen
push_all seen (c ∷ cs) = push_all (c ∷ seen) cs

Free-append :
    (seen cs ds : List Claim) → Free seen (cs ++ ds) ↔ (Free seen cs × Free (push_all seen cs) ds)
Free-append seen [] ds = (λ f. (tt, f), λ f. f.1)
Free-append seen (c ∷ cs) ds =
    let ih = Free-append (c ∷ seen) cs ds in
    (λ f. let g = ih.0 f.1 in ((f.0, g.0), g.1), λ f. (f.0.0, ih.1 (f.0.1, f.1)))

module _ (lower : Text → Text) where
  abbrev pub claims_of : Text → List Text → List Claim
  claims_of id paths = map (λ path. (normalize_path_key lower path, id)) paths

  -- Every claim of the entries, in order.
  abbrev pub claims : List Entry → List Claim
  claims [] = []
  claims (e ∷ entries) = claims_of e.id e.paths ++ claims entries

  paths_lem :
      (id : Text) (paths : List Text) {seen : List Claim} (owners below : Owners)
      → Holds seen owners below
      → let after = overlaps_paths lower owners below id paths in
        ((after.0 ≡ []) ↔ Free seen (claims_of id paths))
        × Holds (push_all seen (claims_of id paths)) after.1 after.2
  unfolding overlaps_paths
  paths_lem id [] owners below h = ((λ _. tt, λ _. refl), h)
  paths_lem id (path ∷ paths) {seen} owners below h =
      let key = normalize_path_key lower path in
      let here = none_reported h key id path in
      let ih =
        paths_lem id paths ((key, id) ∷ owners) (add_all (ancestors key) id below)
          (Holds-add h key id) in
      (
        (
          λ e. let parts = (append-eq-nil _ _).0 e in (here.0 parts.0, ih.0.0 parts.1),
          λ f. (append-eq-nil _ _).1 (here.1 f.0, ih.0.1 f.1),
        ),
        ih.1,
      )

  entries_lem :
      (entries : List Entry) {seen : List Claim} (owners below : Owners)
      → Holds seen owners below
      → (overlaps_entries lower owners below entries ≡ []) ↔ Free seen (claims entries)
  unfolding overlaps_entries
  entries_lem [] owners below h = (λ _. tt, λ _. refl)
  entries_lem (e ∷ entries) {seen} owners below h =
      let first = paths_lem e.id e.paths owners below h in
      let after = overlaps_paths lower owners below e.id e.paths in
      let rest = entries_lem entries after.1 after.2 first.1 in
      let cut = Free-append seen (claims_of e.id e.paths) (claims entries) in
      (
        λ h. let parts = (append-eq-nil _ _).0 h in cut.1 (first.0.0 parts.0, rest.0 parts.1),
        λ f. let parts = cut.0 f in (append-eq-nil _ _).1 (first.0.1 parts.0, rest.1 parts.1),
      )

Free-sound :
    (seen cs : List Claim)
    → Free seen cs
    → (c d : Claim) → Memᴰ c cs
    → Memᴰ d seen ⊎ Memᴰ d cs
    → ¬ Collide d c
Free-sound seen [] f c d m n k = elim m [ ]
Free-sound seen (x ∷ cs) f c d (Memᴰ.head e) n k = elim n [
  | inl before ↦ f.0 d before (subst (Collide d) e k)
  | inr within ↦ elim ((Memᴰ-cons d x cs).0 within) [
    | inl e' ↦ k.0 (ap (λ (y : Claim). y.1) (e' ∙ sym e))
    | inr later ↦ Free-sound (x ∷ seen) cs f.1 d c later (inl (Memᴰ.head e)) (Collide-sym d c k)
  ]
]
Free-sound seen (x ∷ cs) f c d (Memᴰ.tail m) n k = elim n [
  | inl before ↦ Free-sound (x ∷ seen) cs f.1 c d m (inl (Memᴰ.tail before)) k
  | inr within ↦ elim ((Memᴰ-cons d x cs).0 within) [
    | inl e ↦ Free-sound (x ∷ seen) cs f.1 c d m (inl (Memᴰ.head e)) k
    | inr later ↦ Free-sound (x ∷ seen) cs f.1 c d m (inr later) k
  ]
]

Free-complete :
    (seen cs : List Claim)
    → ((c d : Claim) → Memᴰ c cs → Memᴰ d seen ⊎ Memᴰ d cs → ¬ Collide d c)
    → Free seen cs
Free-complete seen [] h = tt
Free-complete seen (x ∷ cs) h = (
  λ d m. h x d (Memᴰ.head refl) (inl m),
  Free-complete (x ∷ seen) cs λ c d m n. elim n [
    | inl before ↦ elim ((Memᴰ-cons d x seen).0 before) [
      | inl e ↦ h c d (Memᴰ.tail m) (inr (Memᴰ.head e))
      | inr older ↦ h c d (Memᴰ.tail m) (inl older)
    ]
    | inr within ↦ h c d (Memᴰ.tail m) (inr (Memᴰ.tail within))
  ],
)

-- Nothing is reported exactly if no two write scopes of different entries collide: in the normal
-- form of paths, no two are the same path and none is a directory above the other. So the order of
-- the entries and of their paths plays no part in whether there is an overlap.
pub overlapping_write_paths-nil_iff :
    (lower : Text → Text) (entries : List Entry)
    → (overlapping_write_paths lower entries ≡ []) ↔ (
        (c d : Claim)
        → Memᴰ c (claims lower entries)
        → Memᴰ d (claims lower entries)
        → ¬ Collide d c)
unfolding overlapping_write_paths
overlapping_write_paths-nil_iff lower entries =
    let all = entries_lem lower entries [] [] empty in
    (
      λ e c d m n. Free-sound [] (claims lower entries) (all.0 e) c d m (inr n),
      λ h. all.1 (
          Free-complete [] (claims lower entries)
            (λ c d m n. elim n [ inl none ↦ elim none [ ] | inr there ↦ h c d m there ])),
    )
  where
    empty : Holds [] [] []
    empty = record {
      keys = λ k o. (λ m. m, λ m. m);
      above = λ k o. (λ m. elim m [ ], λ t. elim t.1 [ ]);
    }
