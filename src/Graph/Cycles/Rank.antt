-- ===== src/Graph/Cycles/Rank.antt =====
-- How many tasks a path of the search for cycles has not reached yet.
use legion_cli.Prelude.{
  ℕ, suc, ◌≤◌, ◌<◌, ◌≡◌, inl, inr, refl, ◌∙◌, ap, true, false, none, some, List, [], ◌∷◌, ◌++◌,
  contains, contains_iff, length, ◌==◌, ==_iff, nat_eq, list_eq, if◌then◌else◌, Memᴰ, Memᴰ-append,
  arith, Bool-cases, Option-cases,
}
use legion_cli.Text.{Text}
use legion_cli.Graph.Tasks.{Task}
use legion_cli.Graph.Subgraph.{find_task}

-- The tasks whose id is not on the path.
abbrev pub off_path : List Text → List Task → ℕ
off_path path [] = 0
off_path path (t ∷ ts) = if contains path t.id then off_path path ts else suc (off_path path ts)

pub off_path_less :
    (path more : List Text) (ts : List Task) → off_path (path ++ more) ts ≤ off_path path ts
off_path_less path more [] = omega arith
off_path_less path more (t ∷ ts) = ground (
  arith,
  off_path_less path more ts,
  contains_iff path t.id,
  contains_iff (path ++ more) t.id,
  Memᴰ-append t.id path more,
)

pub off_path_found :
    (id : Text) (path : List Text) (ts : List Task) (found : Task)
    → contains path id ≡ false
    → find_task ts id ≡ some found
    → off_path (path ++ id ∷ []) ts < off_path path ts
unfolding find_task
off_path_found id path [] found new e = cc
off_path_found id path (t ∷ ts) found new e = elim (Option-cases (find_task ts id)) [
  | inr (later, l) ↦
      let same : some later ≡ some found = rw l at e in
      let rest = off_path_found id path ts found new (l ∙ same) in
      ground (
        arith,
        contains_iff path t.id,
        contains_iff (path ++ id ∷ []) t.id,
        Memᴰ-append t.id path (id ∷ []),
      )
  | inl last ↦ elim (Bool-cases (t.id == id)) [
    | inr other ↦ let impossible : none ≡ some found = simp (last, other) at e in cc
    | inl here ↦
        let same_id : t.id ≡ id = (==_iff t.id id).0 here in
        let fresh : contains path t.id ≡ false = cc in
        let known : contains (path ++ id ∷ []) t.id ≡ true =
          (contains_iff (path ++ id ∷ []) t.id).1
            ((Memᴰ-append t.id path (id ∷ [])).1 (inr (Memᴰ.head same_id))) in
        let fewer = off_path_less path (id ∷ []) ts in ground arith
  ]
]

pub find_task-Memᴰ :
    (ts : List Task) (id : Text) (t : Task) → find_task ts id ≡ some t → Memᴰ t ts × (t.id ≡ id)
unfolding find_task
find_task-Memᴰ [] id t e = cc
find_task-Memᴰ (u ∷ us) id t e = elim (Option-cases (find_task us id)) [
  | inr (later, l) ↦
      let same : some later ≡ some t = rw l at e in
      let (m, k) = find_task-Memᴰ us id t (l ∙ same) in (Memᴰ.tail m, k)
  | inl last ↦ elim (Bool-cases (u.id == id)) [
    | inr other ↦ let impossible : none ≡ some t = simp (last, other) at e in cc
    | inl here ↦
        let same : some u ≡ some t = simp (last, here) at e in
        let is_found : t ≡ u = cc in
        (Memᴰ.head is_found, ap (λ (x : Task). x.id) is_found ∙ (==_iff u.id id).0 here)
  ]
]

pub off_path-nil : (ts : List Task) → off_path [] ts ≡ length ts
off_path-nil [] = refl
off_path-nil (t ∷ ts) = omega (arith, off_path-nil ts)
