-- ===== src/Qa/Titles.antt =====
-- The tag that a criterion's priority puts into a title, read back.
use legion_cli.Prelude.{
  ℕ, ◌+◌, ◌≡◌, ◌∙◌, refl, sym, ap, Bool, true, false, ◌&&◌, ◌||◌, [], ◌∷◌, ◌++◌, ◌==◌, nat_eq, leb,
  inl, inr, Bool-cases, if◌then◌else◌, contains,
}
use legion_cli.Text.{Text, after_prefix, ascii_lower_case}
use legion_cli.Lifecycle.{Priority, p0, p1, p2}
use legion_cli.Qa.Tags.{
  tag_from_priority, priority_from_title, tag_after_white, stands_here, tag_ends, has_tag, is_white,
}

abbrev low : ℕ → ℕ
low c = if leb b'A' c && leb c b'Z' then c + 32 else c

lower-append : (s t : Text) → ascii_lower_case (s ++ t) ≡ ascii_lower_case s ++ ascii_lower_case t
lower-append [] t = refl
lower-append (c ∷ s) t = ap (λ (r : Text). low c ∷ r) (lower-append s t)

abbrev tag_of : ℕ → Text
tag_of d = b'@' ∷ b'p' ∷ d ∷ []

neither : (x y : Bool) → x || y ≡ false → x ≡ false × y ≡ false
neither false false e = (refl, refl)
neither false true e = cc
neither true y e = cc

-- Whether a word stands here is seen before the next space.
stands_here-space :
    (w s x : Text)
    → contains w b' ' ≡ false
    → stands_here tag_ends w (s ++ b' ' ∷ x) ≡ stands_here tag_ends w s
stands_here-space [] [] x e = refl
stands_here-space [] (c ∷ s) x e = refl
stands_here-space (a ∷ w) [] x e =
    rw ((neither (a == b' ') (contains w b' ') e).0, stands_here, after_prefix) refl
stands_here-space (a ∷ w) (c ∷ s) x e = elim (Bool-cases (a == c)) [
  | inl same ↦
      rw (same, stands_here, after_prefix)
        (stands_here-space w s x (neither (a == b' ') (contains w b' ') e).1)
  | inr other ↦ rw (other, stands_here, after_prefix) refl
]

or_assoc : (a b c : Bool) → a || (b || c) ≡ (a || b) || c
or_assoc true b c = refl
or_assoc false b c = refl

tag_after_white-space :
    (tag s x : Text)
    → contains tag b' ' ≡ false
    → tag_after_white tag (s ++ b' ' ∷ x) ≡ tag_after_white tag s || tag_after_white tag (b' ' ∷ x)
unfolding tag_after_white
tag_after_white-space tag [] x e = refl
tag_after_white-space tag (c ∷ s) x e =
    rw (stands_here-space tag s x e, tag_after_white-space tag s x e)
      (or_assoc (is_white c && stands_here tag_ends tag s) (tag_after_white tag s)
        (tag_after_white tag (b' ' ∷ x)))

has_tag-space :
    (tag s x : Text)
    → contains tag b' ' ≡ false
    → has_tag tag (s ++ b' ' ∷ x) ≡ has_tag tag s || tag_after_white tag (b' ' ∷ x)
has_tag-space tag s x e =
    rw (stands_here-space tag s x e, tag_after_white-space tag s x e)
      (or_assoc (stands_here tag_ends tag s) (tag_after_white tag s)
        (tag_after_white tag (b' ' ∷ x)))

lower-tag :
    (p : Priority) (title : Text)
    → ascii_lower_case (title ++ b' ' ∷ tag_from_priority p)
      ≡ ascii_lower_case title ++ b' ' ∷ tag_from_priority p
lower-tag p0 title = lower-append title (b' ' ∷ tag_from_priority p0)
lower-tag p1 title = lower-append title (b' ' ∷ tag_from_priority p1)
lower-tag p2 title = lower-append title (b' ' ∷ tag_from_priority p2)

by_tags :
    (s : Text) (b₀ b₂ : Bool)
    → has_tag (tag_of b'0') (ascii_lower_case s) ≡ b₀
    → has_tag (tag_of b'2') (ascii_lower_case s) ≡ b₂
    → priority_from_title s ≡ (if b₀ then p0 else if b₂ then p2 else p1)
unfolding priority_from_title
by_tags s b₀ b₂ e f = rw (sym e, sym f) refl

-- What two tags give together: a P0 wins, then a P2, and P1 is what no tag gives.
abbrev pub first_of : Priority → Priority → Priority
first_of p0 q = p0
first_of p1 q = q
first_of p2 p0 = p0
first_of p2 p1 = p2
first_of p2 p2 = p2

tagged :
    (title : Text) (p : Priority) (d : ℕ)
    → contains (tag_of d) b' ' ≡ false
    → has_tag (tag_of d) (ascii_lower_case (title ++ b' ' ∷ tag_from_priority p))
      ≡ has_tag (tag_of d) (ascii_lower_case title)
        || tag_after_white (tag_of d) (b' ' ∷ tag_from_priority p)
tagged title p d e =
    ap (has_tag (tag_of d)) (lower-tag p title)
    ∙ has_tag-space (tag_of d) (ascii_lower_case title) (tag_from_priority p) e

picked :
    (b₀ b₂ : Bool) (p : Priority)
    → (if b₀ || tag_after_white (tag_of b'0') (b' ' ∷ tag_from_priority p)
        then p0
        else if b₂ || tag_after_white (tag_of b'2') (b' ' ∷ tag_from_priority p)
        then p2
        else p1)
      ≡ first_of (if b₀ then p0 else if b₂ then p2 else p1) p
unfolding tag_after_white
picked true b p = refl
picked false true p0 = refl
picked false true p1 = refl
picked false true p2 = refl
picked false false p0 = refl
picked false false p1 = refl
picked false false p2 = refl

-- A title that is given the tag of a priority, after a space, is read with that priority or with its
-- own, whichever wins: P0 if the title was read as P0 or the tag is of P0, otherwise P2 if one of the
-- two is P2, otherwise P1.
pub priority_from_title-tag :
    (title : Text) (p : Priority)
    → priority_from_title (title ++ b' ' ∷ tag_from_priority p)
      ≡ first_of (priority_from_title title) p
priority_from_title-tag title p =
    let b₀ = has_tag (tag_of b'0') (ascii_lower_case title) in
    let b₂ = has_tag (tag_of b'2') (ascii_lower_case title) in
    by_tags (title ++ b' ' ∷ tag_from_priority p) _ _ (tagged title p b'0' refl)
      (tagged title p b'2' refl)
    ∙ picked b₀ b₂ p
    ∙ ap (λ q. first_of q p) (sym (by_tags title b₀ b₂ refl refl))
