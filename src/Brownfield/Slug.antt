-- ===== src/Brownfield/Slug.antt =====
-- The slug in the name of a pull request's branch: `slugify` of
-- packages/core/src/brownfield/pr-plan.ts.
use legion_cli.Prelude.{
  ℕ, zero, suc, ◌≤◌, ◌≡◌, ◌≢◌, inl, inr, refl, Bool, true, false, ◌&&◌, ◌||◌, [], ◌∷◌, ◌==◌, nat_eq,
  leb, all, length, is_empty, if◌then◌else◌, Bool-cases, arith,
}
use legion_cli.Text.{Text, codes}

abbrev dash : ℕ
dash = b'-'

-- `[a-z0-9]`
abbrev is_slug_unit : ℕ → Bool
is_slug_unit c = (leb b'a' c && leb c b'z') || (leb b'0' c && leb c b'9')

-- `.replace(/[^a-z0-9]+/g, "-")`; the first argument tells whether a run has begun.
unfoldable dash_runs : Bool → Text → Text
dash_runs in_run [] = []
dash_runs in_run (c ∷ s) =
    let kept = dash_runs false s in
    let dropped = dash_runs true s in
    if is_slug_unit c then c ∷ kept else if in_run then dropped else dash ∷ dropped

-- `^-+` and `-+$`
unfoldable strip_first : Text → Text
strip_first [] = []
strip_first (c ∷ s) = let rest = strip_first s in if c == dash then rest else c ∷ s

unfoldable strip_last : Text → Text
strip_last [] = []
strip_last (c ∷ s) = let rest = strip_last s in if is_empty rest && c == dash then [] else c ∷ rest

-- `.slice(0, n)`
abbrev slice_to : ℕ → Text → Text
slice_to zero s = []
slice_to (suc n) [] = []
slice_to (suc n) (c ∷ s) = c ∷ slice_to n s

abbrev or_unnamed : Text → Text
or_unnamed [] = codes "unnamed"
or_unnamed (c ∷ s) = c ∷ s

-- `lower` is `toLowerCase`.
unfoldable pub slugify : (Text → Text) → Text → Text
unfolding dash_runs strip_first strip_last
slugify lower title =
    or_unnamed (strip_last (slice_to 40 (strip_last (strip_first (dash_runs false (lower title))))))

abbrev pub is_branch_unit : ℕ → Bool
is_branch_unit c = is_slug_unit c || c == dash

abbrev pub starts_with_dash : Text → Bool
starts_with_dash [] = false
starts_with_dash (c ∷ s) = c == dash

abbrev pub ends_with_dash : Text → Bool
ends_with_dash [] = false
ends_with_dash (c ∷ []) = c == dash
ends_with_dash (c ∷ d ∷ s) = ends_with_dash (d ∷ s)

pub record IsSlug (s : Text) : Type 0 where
  pub filled : s ≢ []
  pub short : length s ≤ 40
  pub units : all is_branch_unit s ≡ true
  pub no_first_dash : starts_with_dash s ≡ false
  pub no_last_dash : ends_with_dash s ≡ false

dash_runs-units : (b : Bool) (s : Text) → all is_branch_unit (dash_runs b s) ≡ true
unfolding dash_runs
dash_runs-units b [] = refl
dash_runs-units b (c ∷ s) = elim (Bool-cases (is_slug_unit c)) [
  | inl e ↦ rw (e, dash_runs) (rw (e) (dash_runs-units false s))
  | inr e ↦ rw (e, dash_runs) (run_units b (dash_runs true s) (dash_runs-units true s))
]
  where
    run_units :
        (b : Bool) (t : Text)
        → all is_branch_unit t ≡ true
        → all is_branch_unit (if b then t else dash ∷ t) ≡ true
    run_units true t h = h
    run_units false t h = h

both : (a b : Bool) → a && b ≡ true → (a ≡ true) × (b ≡ true)
both true true e = (refl, refl)
both true false e = cc
both false b e = cc

strip_first-units :
    (s : Text) → all is_branch_unit s ≡ true → all is_branch_unit (strip_first s) ≡ true
unfolding strip_first
strip_first-units [] e = refl
strip_first-units (c ∷ s) e = elim (Bool-cases (c == dash)) [
  | inl d ↦
      rw (d, strip_first)
        (strip_first-units s ((both (is_branch_unit c) (all is_branch_unit s) e).1))
  | inr d ↦ rw (d, strip_first) e
]

strip_first-dash : (s : Text) → starts_with_dash (strip_first s) ≡ false
unfolding strip_first
strip_first-dash [] = refl
strip_first-dash (c ∷ s) = elim (Bool-cases (c == dash)) [
  | inl d ↦ rw (d, strip_first) (strip_first-dash s)
  | inr d ↦ rw (d, strip_first) d
]

-- `strip_last` takes a text apart at its head.
data Stripped (c : ℕ) (s : Text) : Text → Type 0 where
  gone : Stripped c s []
  kept : is_empty (strip_last s) && c == dash ≡ false → Stripped c s (c ∷ strip_last s)

strip_last-cases : (c : ℕ) (s : Text) → Stripped c s (strip_last (c ∷ s))
unfolding strip_last
strip_last-cases c s = elim (Bool-cases (is_empty (strip_last s) && c == dash)) [
  | inl e ↦ rw (e, strip_last) Stripped.gone
  | inr e ↦ rw (e, strip_last) (Stripped.kept e)
]

-- What `strip_last` keeps of a text.
record Keeps (s t : Text) : Type 0 where
  shorter : length t ≤ length s
  units : all is_branch_unit s ≡ true → all is_branch_unit t ≡ true
  first : starts_with_dash s ≡ false → starts_with_dash t ≡ false
  last : ends_with_dash t ≡ false

Keeps-cons : (c : ℕ) (s t : Text) → Keeps s (strip_last s) → Stripped c s t → Keeps (c ∷ s) t
Keeps-cons c s t k Stripped.gone = record {
  shorter = omega arith;
  units = λ e. refl;
  first = λ e. refl;
  last = refl;
}
Keeps-cons c s t k (Stripped.kept e) = record {
  shorter = omega (arith, k.shorter);
  units =
      λ h. let (f, g) = both (is_branch_unit c) (all is_branch_unit s) h in rw (f, k.units g) refl;
  first = λ h. h;
  last = kept_last c (strip_last s) e k.last;
}
  where
    kept_last :
        (c : ℕ) (r : Text)
        → is_empty r && c == dash ≡ false
        → ends_with_dash r ≡ false
        → ends_with_dash (c ∷ r) ≡ false
    kept_last c [] e h = e
    kept_last c (d ∷ r) e h = h

strip_last-Keeps : (s : Text) → Keeps s (strip_last s)
unfolding strip_last
strip_last-Keeps [] = record {
  shorter = omega arith;
  units = λ e. refl;
  first = λ e. refl;
  last = refl;
}
strip_last-Keeps (c ∷ s) =
    Keeps-cons c s (strip_last (c ∷ s)) (strip_last-Keeps s) (strip_last-cases c s)

slice_to-length : (n : ℕ) (s : Text) → length (slice_to n s) ≤ n
slice_to-length zero s = omega arith
slice_to-length (suc n) [] = omega arith
slice_to-length (suc n) (c ∷ s) = omega (arith, slice_to-length n s)

slice_to-units :
    (n : ℕ) (s : Text) → all is_branch_unit s ≡ true → all is_branch_unit (slice_to n s) ≡ true
slice_to-units zero s e = refl
slice_to-units (suc n) [] e = refl
slice_to-units (suc n) (c ∷ s) e =
    let (f, g) = both (is_branch_unit c) (all is_branch_unit s) e in
    rw (f, slice_to-units n s g) refl

slice_to-dash :
    (n : ℕ) (s : Text) → starts_with_dash s ≡ false → starts_with_dash (slice_to n s) ≡ false
slice_to-dash zero s e = refl
slice_to-dash (suc n) [] e = refl
slice_to-dash (suc n) (c ∷ s) e = e

named-IsSlug :
    (s : Text)
    → length s ≤ 40
    → all is_branch_unit s ≡ true
    → starts_with_dash s ≡ false
    → ends_with_dash s ≡ false
    → IsSlug (or_unnamed s)
named-IsSlug [] l u f g = record {
  filled = cc;
  short = omega arith;
  units = refl;
  no_first_dash = refl;
  no_last_dash = refl;
}
named-IsSlug (c ∷ s) l u f g = record {
  filled = cc;
  short = l;
  units = u;
  no_first_dash = f;
  no_last_dash = g;
}

-- The slug of any title is a part of a branch name: not empty, of at most 40 units, all of them small
-- letters, digits or dashes, and no dash at either end.
pub slugify-IsSlug : (lower : Text → Text) (title : Text) → IsSlug (slugify lower title)
unfolding slugify
slugify-IsSlug lower title =
    let runs = dash_runs false (lower title) in
    let front = strip_first runs in
    let trimmed = strip_last-Keeps front in
    let cut = slice_to 40 (strip_last front) in
    let short = strip_last-Keeps cut in
    named-IsSlug (strip_last cut)
      (omega (arith, short.shorter, slice_to-length 40 (strip_last front)))
      (short.units (
        slice_to-units 40 (strip_last front)
          (trimmed.units (strip_first-units runs (dash_runs-units false (lower title))))))
      (short.first (slice_to-dash 40 (strip_last front) (trimmed.first (strip_first-dash runs))))
      short.last
