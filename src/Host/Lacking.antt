-- ===== src/Host/Lacking.antt =====
-- Texts without a colon or with one: their parts, the text before a dotted end, hexadecimal digits.
use legion_cli.Prelude.{
  ℕ, suc, ◌/◌, ◌%◌, ◌≡◌, refl, sym, ap, ◌∙◌, inl, inr, subst, Bool, true, false, ◌||◌, Option, none,
  some, List, [], ◌∷◌, ◌++◌, ◌==◌, ==_iff, nat_eq, ltb, contains, length, if◌then◌else◌, Bool-cases,
  arith,
}
use legion_cli.Text.{Text, split}
use legion_cli.Host.Literals.{
  cons_head, find_dotted, is_dotted, hex, hex_digit, split_double, words_of, word_of,
}
use legion_cli.Host.Words.{some_given}

-- The text has no colon.
abbrev pub Lacks : Text → Type 0
Lacks s = contains s b':' ≡ false

pub apart : (x y : Bool) → x || y ≡ false → x ≡ false × y ≡ false
apart false false e = (refl, refl)
apart false true e = cc
apart true y e = cc

pub split_double-cons :
    (c : ℕ) (x : Text) → (c == b':') ≡ false → split_double (c ∷ x) ≡ cons_head c (split_double x)
unfolding split_double
split_double-cons c [] e = refl
split_double-cons c (d ∷ s) e = rw (e, split_double) refl

pub split_double-Lacks : (t : Text) → Lacks t → split_double t ≡ t ∷ []
unfolding split_double
split_double-Lacks [] e = refl
split_double-Lacks (c ∷ t) e =
    let (h, l) = apart (c == b':') (contains t b':') e in
    split_double-cons c t h ∙ ap (cons_head c) (split_double-Lacks t l)

pub split_double-colon : (t : Text) → Lacks t → split_double (b':' ∷ t) ≡ (b':' ∷ t) ∷ []
unfolding split_double
split_double-colon [] e = refl
split_double-colon (d ∷ t) e =
    let (h, l) = apart (d == b':') (contains t b':') e in
    rw (h, split_double) (ap (cons_head b':') (split_double-Lacks (d ∷ t) e))

pub split_double-two :
    (s t : Text) → Lacks s → Lacks t → split_double (s ++ b':' ∷ t) ≡ (s ++ b':' ∷ t) ∷ []
split_double-two [] t e f = split_double-colon t f
split_double-two (c ∷ s) t e f =
    let (h, l) = apart (c == b':') (contains s b':') e in
    split_double-cons c (s ++ b':' ∷ t) h ∙ ap (cons_head c) (split_double-two s t l f)

pub split-Lacks : (t : Text) → Lacks t → split b':' t ≡ t ∷ []
unfolding split
split-Lacks [] e = refl
split-Lacks (c ∷ t) e =
    let (h, l) = apart (c == b':') (contains t b':') e in rw (h, split-Lacks t l, split) refl

pub split-two : (s t : Text) → Lacks s → Lacks t → split b':' (s ++ b':' ∷ t) ≡ s ∷ t ∷ []
unfolding split
split-two [] t e f = rw (split-Lacks t f) refl
split-two (c ∷ s) t e f =
    let (h, l) = apart (c == b':') (contains s b':') e in rw (h, split-two s t l f, split) refl

pub hex_digit-Lacks : (n : ℕ) → (hex_digit n == b':') ≡ false
hex_digit-Lacks n = ground (arith, ==_iff (hex_digit n) b':')

pub hex-Lacks : (n : ℕ) → Lacks (hex n)
unfolding hex
hex-Lacks n = elim (Bool-cases (ltb n 16)) [
  | inl e ↦ rw (e, hex_digit-Lacks n, hex) refl
  | inr e ↦ elim (Bool-cases (ltb n 256)) [
    | inl f ↦ rw (e, f, hex_digit-Lacks (n / 16), hex_digit-Lacks (n % 16), hex) refl
    | inr f ↦ elim (Bool-cases (ltb n 4096)) [
      | inl g ↦
          rw
            (
              e,
              f,
              g,
              hex_digit-Lacks (n / 256),
              hex_digit-Lacks (n / 16 % 16),
              hex_digit-Lacks (n % 16),
              hex,
            )
            refl
      | inr g ↦
          rw
            (
              e,
              f,
              g,
              hex_digit-Lacks (n / 4096),
              hex_digit-Lacks (n / 256 % 16),
              hex_digit-Lacks (n / 16 % 16),
              hex_digit-Lacks (n % 16),
              hex,
            )
            refl
    ]
  ]
]

pub Lacks-append : (s t : Text) → Lacks s → Lacks t → Lacks (s ++ t)
Lacks-append [] t e f = f
Lacks-append (c ∷ s) t e f =
    let (h, l) = apart (c == b':') (contains s b':') e in rw (h, Lacks-append s t l f) refl

pub find_dotted-Lacks :
    (h before dotted : Text) → find_dotted h ≡ some (before, dotted) → Lacks h → Lacks before
unfolding find_dotted
find_dotted-Lacks [] before dotted e l = cc
find_dotted-Lacks (c ∷ s) before dotted e l =
    let (h, m) = apart (c == b':') (contains s b':') l in
    found (is_dotted (c ∷ s)) (find_dotted s) (c ∷ s) e h (λ b d f. find_dotted-Lacks s b d f m)
  where
    found :
        (here : Bool) (later : Option (Text × Text)) (x : Text) {before dotted : Text}
        → if◌then◌else◌ {A = Option (Text × Text)} here
            (some ([], x))
            (elim later [ none ↦ none | some (b, d) ↦ some (c ∷ b, d) ])
          ≡ some (before, dotted)
        → (c == b':') ≡ false
        → ((b d : Text) → later ≡ some (b, d) → Lacks b)
        → Lacks before
    found true later x e h all = cc
    found false none x e h all = cc
    found false (some (b, d)) x e h all =
        subst Lacks (ap (λ (q : Text × Text). q.0) (some_given e)) (rw (h) (all b d refl))

pub length-words_of : (ws : List Text) (ns : List ℕ) → words_of ws ≡ some ns → length ns ≡ length ws
length-words_of [] ns e = cc
length-words_of (w ∷ ws) ns e = step (word_of w) (words_of ws) e (length-words_of ws)
  where
    step :
        (o : Option ℕ) (os : Option (List ℕ)) {ns : List ℕ}
        → (elim o [ none ↦ none | some n ↦ elim os [ none ↦ none | some t ↦ some (n ∷ t) ] ])
          ≡ some ns
        → ((ns : List ℕ) → os ≡ some ns → length ns ≡ length ws)
        → length ns ≡ suc (length ws)
    step none os e all = cc
    step (some n) none e all = cc
    step (some n) (some t) {ns} e all =
        ap length (sym (some_given e)) ∙ ap (λ (k : ℕ). suc k) (all t refl)
