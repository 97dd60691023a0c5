-- ===== src/Json/Scans.antt =====
-- What the parts of the reader take from a text.
use legion_cli.Prelude.{
  ℕ, ◌+◌, ◌≤◌, ◌≡◌, ◌⊎◌, inl, inr, refl, sym, ◌∙◌, ap, Bool, true, false, not, ◌||◌, none, some, [],
  ◌∷◌, ◌++◌, ◌==◌, ==_iff, nat_eq, list_eq, if◌then◌else◌, length, length-append, Bool-cases, arith,
}
use legion_cli.Text.{Text, after_prefix}
use legion_cli.Json.Result.{Scan, JsonError, Reads, reads, throws, Reads-map, split-split}
use legion_cli.Json.Strings.{quote}
use legion_cli.Json.Numbers.{is_digit}
use legion_cli.Json.Reader.{
  is_space, skip_space, after_unit, or_invalid, Token, token, unless_closed, comma_or,
}
use legion_cli.Json.Grammar.{IsSpace, IsWord}

-- `rest` is what a scanner left of `s`, `P` holds of what it took.
abbrev pub Leaves : (Text → Type 0) → Text → Text → Type 0
Leaves P s rest = (t : Text) × (s ≡ t ++ rest) × P t

pub Leaves-length : (s t rest : Text) → s ≡ t ++ rest → length s ≡ length t + length rest
Leaves-length s t rest e = ap length e ∙ length-append t rest

pub split-unit :
    (s a r b r' : Text) (c d : ℕ) → s ≡ a ++ c ∷ r → c ≡ d → r ≡ b ++ r' → s ≡ a ++ d ∷ b ++ r'
split-unit s a r b r' c d e f g =
    split-split s a (d ∷ b) (c ∷ r) r' e (ap (λ (k : ℕ). k ∷ r) f ∙ ap (λ (t : Text). d ∷ t) g)

pub skip_space-Leaves : (s : Text) → Leaves IsSpace s (skip_space s)
unfolding skip_space
skip_space-Leaves [] = ([], refl, IsSpace.no_space)
skip_space-Leaves (c ∷ s) = elim (Bool-cases (is_space c)) [
  | inl h ↦
      let (w, e, a) = skip_space-Leaves s in
      rw (h) (c ∷ w, ap (λ (r : Text). c ∷ r) e, IsSpace.space c h a)
  | inr h ↦ rw (h) ([], refl, IsSpace.no_space)
]

pub skip_space-length : (s : Text) → length (skip_space s) ≤ length s
skip_space-length s =
    let (w, e, h) = skip_space-Leaves s in omega (arith, Leaves-length s w (skip_space s) e)

pub not-true : (b : Bool) → not b ≡ true → b ≡ false
not-true true e = cc
not-true false e = refl

pub after_unit-cases :
    (c : ℕ) (s : Text)
    → (after_unit c s ≡ none) ⊎ ((rest : Text) × (after_unit c s ≡ some rest) × (s ≡ c ∷ rest))
after_unit-cases c [] = inl refl
after_unit-cases c (d ∷ s) = elim (Bool-cases (d == c)) [
  | inl h ↦ let f = (==_iff d c).0 h in inr (s, rw (h) refl, (cc))
  | inr h ↦ inl (rw (h) refl)
]

pub after_unit-Reads :
    (c : ℕ) (s : Text) → Reads (λ rest. s ≡ c ∷ rest) (or_invalid (after_unit c s))
after_unit-Reads c s = elim (after_unit-cases c s) [
  | inl e ↦ rw (e) (throws JsonError.invalid)
  | inr (rest, e, h) ↦ rw (e) (reads rest h)
]

pub after_prefix-Reads :
    (word s : Text) → Reads (λ rest. s ≡ word ++ rest) (or_invalid (after_prefix word s))
after_prefix-Reads [] s = reads s refl
after_prefix-Reads (p ∷ ps) [] = throws JsonError.invalid
after_prefix-Reads (p ∷ ps) (c ∷ s) = elim (Bool-cases (p == c)) [
  | inl h ↦
      let f = (==_iff p c).0 h in
      rw (h)
        (Reads-map (after_prefix-Reads ps s) (λ rest e. rw (sym f) (ap (λ (r : Text). p ∷ r) e)))
  | inr h ↦ rw (h) (throws JsonError.invalid)
]

pub if_lem :
    {A : Type 0} (P : A → Type 0) (b : Bool) {x y : A}
    → (b ≡ true → P x)
    → P y
    → P (if b then x else y)
if_lem P true hx hy = hx refl
if_lem P false hx hy = hy

abbrev pub Announces : ℕ → Token → Type 0
Announces c Token.brace = c ≡ b'{'
Announces c Token.bracket = c ≡ b'['
Announces c Token.string_quote = c ≡ quote
Announces c Token.numeral = Unit
Announces c (Token.literal word) = IsWord word
Announces c Token.unknown = Unit

pub token-Announces : (c : ℕ) → Announces c (token c)
unfolding token
token-Announces c =
    let P : Token → Type 0 = Announces c in
    if_lem P (c == b'{') (λ e. (==_iff c b'{').0 e)
      (if_lem P (c == b'[') (λ e. (==_iff c b'[').0 e)
        (if_lem P (c == quote) (λ e. (==_iff c quote).0 e)
          (if_lem P ((c == b'-') || is_digit c) (λ e. tt)
            (if_lem P (c == b't') (λ e. IsWord.true_word)
              (if_lem P (c == b'f') (λ e. IsWord.false_word)
                (if_lem P (c == b'n') (λ e. IsWord.null_word) tt))))))

pub unless_closed-Reads :
    {R : Text → Type 0} (c : ℕ) (loop : Text → Scan Text) (s : Text)
    → ((rest : Text) → s ≡ c ∷ rest → R rest)
    → Reads R (loop s)
    → Reads R (unless_closed c loop s)
unless_closed-Reads c loop s close h = elim (after_unit-cases c s) [
  | inl e ↦ rw (e, unless_closed) h
  | inr (rest, e, f) ↦ rw (e, unless_closed) (reads rest (close rest f))
]

pub comma_or-Reads :
    {R : Text → Type 0} (c : ℕ) (loop : Text → Scan Text) (s : Text)
    → ((rest : Text) → s ≡ c ∷ rest → R rest)
    → ((rest : Text) → s ≡ b',' ∷ rest → Reads R (loop rest))
    → Reads R (comma_or c loop s)
comma_or-Reads c loop s close h = elim (after_unit-cases b',' s) [
  | inl e ↦ rw (e, comma_or) (Reads-map (after_unit-Reads c s) close)
  | inr (rest, e, f) ↦ rw (e, comma_or) (h rest f)
]
