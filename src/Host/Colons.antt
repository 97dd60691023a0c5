-- ===== src/Host/Colons.antt =====
-- A host without a colon is not read as eight words, and one that is read as four octets has none.
use legion_cli.Prelude.{
  ℕ, ◌+◌, ◌*◌, ◌≡◌, ◌≢◌, refl, sym, ◌∙◌, inl, inr, subst, Bool, true, false, not, ◌&&◌, Option,
  none, some, List, [], ◌∷◌, ◌++◌, ◌==◌, ==_iff, nat_eq, contains, any, length, reverse,
  if◌then◌else◌, Bool-cases, Option-cases,
}
use mathlib.Core.List.{reverse-cons}
use legion_cli.Text.{Text, split, cons_head as text_cons}
use legion_cli.Host.Literals.{
  Octets, ends_line, without_first, without_zone, find_dotted, hex, split_double, parse_half,
  words_of_halves, undotted, octet, octets_of_parts, ipv6_words, ipv4_octets, normalize_host,
}
use legion_cli.Host.Words.{some_given, one_half, four_octets-some}
use legion_cli.Host.Lacking.{
  Lacks, apart, split_double-Lacks, split_double-two, split-Lacks, split-two, hex-Lacks,
  Lacks-append, find_dotted-Lacks, length-words_of,
}

eight_parts :
    (h : Text) (ns : List ℕ) → words_of_halves (h ∷ []) ≡ some ns → length (split b':' h) ≡ 8
unfolding words_of_halves parse_half
eight_parts [] ns e = let (f, g) = one_half (parse_half []) ns e in cc
eight_parts (c ∷ s) ns e =
    let (f, g) = one_half (parse_half (c ∷ s)) ns e in
    sym (length-words_of (split b':' (c ∷ s)) ns f) ∙ g

-- The text is not eight words, for it has at most one colon.
abbrev IsShort : Text → Type 0
IsShort u = (split_double u ≡ u ∷ []) × (length (split b':' u) ≢ 8)

Lacks-IsShort : (h : Text) → Lacks h → IsShort h
Lacks-IsShort h l = let one = split-Lacks h l in (split_double-Lacks h l, λ e. cc (rw one at e))

two-IsShort : (s t : Text) → Lacks s → Lacks t → IsShort (s ++ b':' ∷ t)
two-IsShort s t l m =
    let two = split-two s t l m in (split_double-two s t l m, λ e. cc (rw two at e))

undotted-IsShort :
    (number : Text → Option ℕ) (h u : Text) → undotted number h ≡ some u → Lacks h → IsShort u
unfolding undotted
undotted-IsShort number h u e l = cases (find_dotted h) e (λ b d f. find_dotted-Lacks h b d f l)
  where
    ended :
        (o : Option Octets) (b : Text) {u : Text}
        → Lacks b
        → (elim o [
          | none ↦ none
          | some o ↦
              some (b ++ hex (o.first * 256 + o.second) ++ b':' ∷ hex (o.third * 256 + o.fourth))
        ])
          ≡ some u
        → IsShort u
    ended none b m e = cc
    ended (some o) b m e = subst IsShort (some_given e) (
        two-IsShort (b ++ hex (o.first * 256 + o.second)) (hex (o.third * 256 + o.fourth))
          (Lacks-append b (hex (o.first * 256 + o.second)) m (hex-Lacks (o.first * 256 + o.second)))
          (hex-Lacks (o.third * 256 + o.fourth)))

    cases :
        (found : Option (Text × Text))
        → (elim found [
          | none ↦ some h
          | some (before, dotted) ↦ elim (ipv4_octets number dotted) [
            | none ↦ none
            | some o ↦
                some (
                  before ++ hex (o.first * 256 + o.second) ++ b':' ∷ hex (o.third * 256 + o.fourth))
          ]
        ])
          ≡ some u
        → ((b d : Text) → found ≡ some (b, d) → Lacks b)
        → IsShort u
    cases none e all = subst IsShort (some_given e) (Lacks-IsShort h l)
    cases (some (b, d)) e all = ended (ipv4_octets number d) b (all b d refl) e

words_of_halves-IsShort :
    (u : Text) (ns : List ℕ) → IsShort u → ¬ (words_of_halves (split_double u) ≡ some ns)
words_of_halves-IsShort u ns (one, few) e =
    few (eight_parts u ns (subst (λ l. words_of_halves l ≡ some ns) one e))

without_first-Lacks : (c : ℕ) (s : Text) → Lacks s → Lacks (without_first c s)
without_first-Lacks c [] e = refl
without_first-Lacks c (d ∷ s) e = elim (Bool-cases (d == c)) [
  | inl f ↦ rw (f) (apart (d == b':') (contains s b':') e).1
  | inr f ↦ rw (f) e
]

reverse-Lacks : (s : Text) → Lacks s → Lacks (reverse s)
reverse-Lacks [] e = refl
reverse-Lacks (c ∷ s) e =
    let (h, l) = apart (c == b':') (contains s b':') e in
    subst Lacks (sym (reverse-cons c s))
      (Lacks-append (reverse s) (c ∷ []) (reverse-Lacks s l) (rw h refl))

without_zone-Lacks : (s : Text) → Lacks s → Lacks (without_zone s)
unfolding without_zone
without_zone-Lacks [] e = refl
without_zone-Lacks (c ∷ s) e =
    let (h, l) = apart (c == b':') (contains s b':') e in
    kept (c == b'%' && not (any ends_line s)) (without_zone s) h (without_zone-Lacks s l)
  where
    kept : (b : Bool) (r : Text) → (c == b':') ≡ false → Lacks r → Lacks (if b then [] else c ∷ r)
    kept true r h l = refl
    kept false r h l = rw (h) l

-- What a host needs of the runtime: lower case adds no colon, and a text with a colon is no number.
pub record KeepsColons (lower : Text → Text) (number : Text → Option ℕ) : Type 0 where
  pub lower-adds_none : (s : Text) → Lacks s → Lacks (lower s)
  pub number-has_none : (s : Text) (n : ℕ) → number s ≡ some n → Lacks s

abbrev AllLack : List Text → Type 0
AllLack [] = Unit
AllLack (p ∷ ps) = Lacks p × AllLack ps

AllLack-tail :
    (c : ℕ) (ps : List Text) → AllLack (text_cons c ps) → (c == b':') ≡ false × AllLack ps
AllLack-tail c [] (a, t) = ((apart (c == b':') false a).0, tt)
AllLack-tail c (p ∷ ps) (a, t) = let (h, l) = apart (c == b':') (contains p b':') a in (h, (l, t))

joined-Lacks : (s : Text) → AllLack (split b'.' s) → Lacks s
unfolding split
joined-Lacks [] a = refl
joined-Lacks (c ∷ s) a = elim (Bool-cases (c == b'.')) [
  | inl e ↦
      let (f, rest) : AllLack ([] ∷ split b'.' s) = rw (e, split) at a in
      let is_dot = (==_iff c b'.').0 e in rw (is_dot) (joined-Lacks s rest)
  | inr e ↦
      let b : AllLack (text_cons c (split b'.' s)) = rw (e, split) at a in
      let (h, l) = AllLack-tail c (split b'.' s) b in rw (h) (joined-Lacks s l)
]

octet-some :
    (number : Text → Option ℕ) (p : Text) (n : ℕ)
    → octet number p ≡ some n
    → (k : ℕ) × (number p ≡ some k)
octet-some number p n e = elim (Option-cases (number p)) [
  | inl none_there ↦ let impossible = rw (none_there, octet) at e in cc
  | inr k ↦ k
]

module _ (lower : Text → Text) (number : Text → Option ℕ) (law : KeepsColons lower number) where
  parts-AllLack : (ps : List Text) (o : Octets) → octets_of_parts number ps ≡ some o → AllLack ps
  parts-AllLack [] o e = cc
  parts-AllLack (p ∷ []) o e = cc
  parts-AllLack (p ∷ q ∷ []) o e = cc
  parts-AllLack (p ∷ q ∷ r ∷ []) o e = cc
  parts-AllLack (p ∷ q ∷ r ∷ s ∷ []) o e =
      let (f, g, h, i) =
        four_octets-some (octet number p) (octet number q) (octet number r) (octet number s) o e in
      (lacks p f, (lacks q g, (lacks r h, (lacks s i, tt))))
    where
      lacks : (p : Text) {n : ℕ} → octet number p ≡ some n → Lacks p
      lacks p {n} e = let (k, f) = octet-some number p n e in law.number-has_none p k f
  parts-AllLack (p ∷ q ∷ r ∷ s ∷ t ∷ ps) o e = cc

  pub ipv4_octets-Lacks : (host : Text) (o : Octets) → ipv4_octets number host ≡ some o → Lacks host
  unfolding ipv4_octets
  ipv4_octets-Lacks host o e = joined-Lacks host (parts-AllLack (split b'.' host) o e)

  normalize_host-Lacks : (s : Text) → Lacks s → Lacks (normalize_host lower s)
  unfolding normalize_host
  normalize_host-Lacks s l =
      let opened = without_first b'[' s in
      let turned = reverse opened in
      let closed = without_first b']' turned in
      let bare = reverse closed in
      let bare_lacks : Lacks bare =
        reverse-Lacks closed
          (without_first-Lacks b']' turned (reverse-Lacks opened (without_first-Lacks b'[' s l))) in
      law.lower-adds_none (without_zone bare) (without_zone-Lacks bare bare_lacks)

  -- A host without a colon is not read as eight words.
  pub ipv6_words-Lacks : (host : Text) → Lacks host → ipv6_words lower number host ≡ none
  unfolding ipv6_words
  ipv6_words-Lacks host l =
      shut (undotted number (normalize_host lower host)) (λ u e.
        undotted-IsShort number (normalize_host lower host) u e (normalize_host-Lacks host l))
    where
      shut :
          (o : Option Text)
          → ((u : Text) → o ≡ some u → IsShort u)
          → (elim o [ none ↦ none | some h ↦ words_of_halves (split_double h) ]) ≡ none
      shut none all = refl
      shut (some u) all = elim (Option-cases (words_of_halves (split_double u))) [
        | inl e ↦ e
        | inr (ns, e) ↦ absurd (words_of_halves-IsShort u ns (all u refl) e)
      ]
