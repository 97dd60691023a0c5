-- ===== src/Host/Words.antt =====
-- What the readers of literals return is in range: octets below 256, eight words below 65536.
use legion_cli.Prelude.{
  ℕ, zero, suc, ◌+◌, ◌-◌, ◌<◌, ◌≡◌, inl, inr, refl, sym, ◌∙◌, ap, Bool, true, false, ◌&&◌, Option,
  none, some, List, [], ◌∷◌, ◌++◌, Memᴰ, Memᴰ-append, ◌==◌, nat_eq, ==_iff, leb, ltb, ltb→lt, all,
  all_iff, subst, length, length-append, if◌then◌else◌, arith,
}
use legion_cli.Text.{Text, split}
use legion_cli.Host.Literals.{
  Octets, octet, four_octets, octets_of_parts, ipv4_octets, is_lower_hex_digit, hex_value,
  parse_int_16, word_of, words_of, parse_half, zeros, fill, words_of_halves, split_double,
  normalize_host, undotted, ipv6_words,
}

pub some_given : {A : Type 0} {a b : A} → some a ≡ some b → a ≡ b
some_given e = cc

given_if :
    {A : Type 0} (b : Bool) {v n : A} → (if b then some v else none) ≡ some n → (b ≡ true) × (v ≡ n)
given_if true e = (refl, some_given e)
given_if false e = cc

right_of : (a b : Bool) → a && b ≡ true → b ≡ true
right_of true b e = e
right_of false b e = cc

middle_of : (a b c : Bool) → a && b && c ≡ true → b ≡ true
middle_of true true c e = refl
middle_of true false c e = cc
middle_of false b c e = cc

octet-lt : (number : Text → Option ℕ) (p : Text) (n : ℕ) → octet number p ≡ some n → n < 256
octet-lt number p n e = octet_in (number p) n e
  where
    kept : (m n : ℕ) (b : Bool) → leb m 255 ≡ b → (if b then some m else none) ≡ some n → n < 256
    kept m n true h e = let f = some_given e in ground arith
    kept m n false h e = cc

    octet_in :
        (o : Option ℕ) (n : ℕ)
        → (elim o [ none ↦ none | some n ↦ if leb n 255 then some n else none ]) ≡ some n
        → n < 256
    octet_in none n e = cc
    octet_in (some m) n e = kept m n (leb m 255) refl e

pub four_octets-some :
    (x y z w : Option ℕ) (o : Octets)
    → four_octets x y z w ≡ some o
    → (x ≡ some o.first) × (y ≡ some o.second) × (z ≡ some o.third) × (w ≡ some o.fourth)
four_octets-some none y z w o e = cc
four_octets-some (some a) none z w o e = cc
four_octets-some (some a) (some b) none w o e = cc
four_octets-some (some a) (some b) (some c) none o e = cc
four_octets-some (some a) (some b) (some c) (some d) o e =
    let f = some_given e in
    (
      ap (λ (q : Octets). some q.first) f,
      ap (λ (q : Octets). some q.second) f,
      ap (λ (q : Octets). some q.third) f,
      ap (λ (q : Octets). some q.fourth) f,
    )

abbrev pub InRange : Octets → Type 0
InRange o = (o.first < 256) × (o.second < 256) × (o.third < 256) × (o.fourth < 256)

parts-InRange :
    (number : Text → Option ℕ) (parts : List Text) (o : Octets)
    → octets_of_parts number parts ≡ some o
    → InRange o
parts-InRange number [] o e = cc
parts-InRange number (p ∷ []) o e = cc
parts-InRange number (p ∷ q ∷ []) o e = cc
parts-InRange number (p ∷ q ∷ r ∷ []) o e = cc
parts-InRange number (p ∷ q ∷ r ∷ s ∷ []) o e =
    let (f, g, h, i) =
      four_octets-some (octet number p) (octet number q) (octet number r) (octet number s) o e in
    (
      octet-lt number p o.first f,
      octet-lt number q o.second g,
      octet-lt number r o.third h,
      octet-lt number s o.fourth i,
    )
parts-InRange number (p ∷ q ∷ r ∷ s ∷ t ∷ parts) o e = cc

pub ipv4_octets-InRange :
    (number : Text → Option ℕ) (host : Text) (o : Octets)
    → ipv4_octets number host ≡ some o
    → InRange o
unfolding ipv4_octets
ipv4_octets-InRange number host o e = parts-InRange number (split b'.' host) o e

hex_value-lt : (c : ℕ) → is_lower_hex_digit c ≡ true → hex_value c < 16
hex_value-lt c e = ground arith

value-lt :
    (w : Text)
    → leb (length w) 4 ≡ true
    → ((c : ℕ) → Memᴰ c w → hex_value c < 16)
    → parse_int_16 0 w < 65536
value-lt [] e h = omega arith
value-lt (a ∷ []) e h = omega (arith, h a (Memᴰ.head refl))
value-lt (a ∷ b ∷ []) e h = omega (arith, h a (Memᴰ.head refl), h b (Memᴰ.tail (Memᴰ.head refl)))
value-lt (a ∷ b ∷ c ∷ []) e h = omega (
  arith,
  h a (Memᴰ.head refl),
  h b (Memᴰ.tail (Memᴰ.head refl)),
  h c (Memᴰ.tail (Memᴰ.tail (Memᴰ.head refl))),
)
value-lt (a ∷ b ∷ c ∷ d ∷ []) e h = omega (
  arith,
  h a (Memᴰ.head refl),
  h b (Memᴰ.tail (Memᴰ.head refl)),
  h c (Memᴰ.tail (Memᴰ.tail (Memᴰ.head refl))),
  h d (Memᴰ.tail (Memᴰ.tail (Memᴰ.tail (Memᴰ.head refl)))),
)
value-lt (a ∷ b ∷ c ∷ d ∷ x ∷ w) e h = ground arith

word_of-lt : (w : Text) (n : ℕ) → word_of w ≡ some n → n < 65536
word_of-lt w n e =
    let (f, g) = given_if (leb 1 (length w) && leb (length w) 4 && all is_lower_hex_digit w) e in
    let digits = right_of (leb 1 (length w) && leb (length w) 4) (all is_lower_hex_digit w) f in
    let short = middle_of (leb 1 (length w)) (leb (length w) 4) (all is_lower_hex_digit w) f in
    subst (λ (k : ℕ). k < 65536) g
      (value-lt w short (λ c m. hex_value-lt c ((all_iff is_lower_hex_digit w).0 digits c m)))

-- Eight words, each of 16 bits.
pub record IsAddress (words : List ℕ) : Type 0 where
  pub eight : length words ≡ 8
  pub small : (n : ℕ) → Memᴰ n words → n < 65536

abbrev Small : List ℕ → Type 0
Small words = (n : ℕ) → Memᴰ n words → n < 65536

Small-cons : (n : ℕ) (ns : List ℕ) → n < 65536 → Small ns → Small (n ∷ ns)
Small-cons n ns h k m (Memᴰ.head e) = subst (λ (x : ℕ). x < 65536) (sym e) h
Small-cons n ns h k m (Memᴰ.tail t) = k m t

zeros-Small : (k : ℕ) → Small (zeros k)
zeros-Small zero n m = elim m [ ]
zeros-Small (suc k) n m = Small-cons 0 (zeros k) (omega arith) (zeros-Small k) n m

length-zeros : (k : ℕ) → length (zeros k) ≡ k
length-zeros zero = refl
length-zeros (suc k) = ap (λ (n : ℕ). suc n) (length-zeros k)

consed :
    (o : Option ℕ) (os : Option (List ℕ)) {ns : List ℕ}
    → (elim o [ none ↦ none | some n ↦ elim os [ none ↦ none | some t ↦ some (n ∷ t) ] ]) ≡ some ns
    → (n : ℕ) × (t : List ℕ) × (o ≡ some n) × (os ≡ some t) × (n ∷ t ≡ ns)
consed none os e = cc
consed (some n) none e = cc
consed (some n) (some t) e = (n, t, refl, refl, some_given e)

words_of-Small : (ws : List Text) (ns : List ℕ) → words_of ws ≡ some ns → Small ns
words_of-Small [] ns e = subst Small (some_given e) (λ n m. elim m [ ])
words_of-Small (w ∷ ws) ns e =
    let (n, t, f, g, k) = consed (word_of w) (words_of ws) e in
    subst Small k (Small-cons n t (word_of-lt w n f) (words_of-Small ws t g))

parse_half-Small : (h : Text) (ns : List ℕ) → parse_half h ≡ some ns → Small ns
unfolding parse_half
parse_half-Small [] ns e = words_of-Small [] ns e
parse_half-Small (c ∷ s) ns e = words_of-Small (split b':' (c ∷ s)) ns e

fill-IsAddress :
    (head tail ns : List ℕ) → Small head → Small tail → fill head tail ≡ some ns → IsAddress ns
fill-IsAddress head tail ns h t e =
    let count = 8 - length head - length tail in
    let (f, g) = given_if (ltb (length head + length tail) 8) e in
    subst IsAddress g (record {
      eight = omega (
        arith,
        length-append (head ++ zeros count) tail,
        length-append head (zeros count),
        length-zeros count,
        ltb→lt (length head + length tail) 8 f,
      );
      small = λ n m. elim ((Memᴰ-append n (head ++ zeros count) tail).0 m) [
        | inl l ↦ elim ((Memᴰ-append n head (zeros count)).0 l) [
          | inl q ↦ h n q
          | inr q ↦ zeros-Small count n q
        ]
        | inr r ↦ t n r
      ];
    })

pub one_half :
    (o : Option (List ℕ)) (ns : List ℕ)
    → (elim o [ none ↦ none | some head ↦ if length head == 8 then some head else none ]) ≡ some ns
    → (o ≡ some ns) × (length ns ≡ 8)
one_half none ns e = cc
one_half (some head) ns e =
    let (f, g) = given_if (length head == 8) e in
    (ap (λ (x : List ℕ). some x) g, ap length (sym g) ∙ (==_iff (length head) 8).0 f)

two_halves :
    (o p : Option (List ℕ)) (ns : List ℕ)
    → (elim o [ none ↦ none | some head ↦ elim p [ none ↦ none | some tail ↦ fill head tail ] ])
      ≡ some ns
    → (head : List ℕ) × (tail : List ℕ) × (o ≡ some head)
      × (p ≡ some tail)
      × (fill head tail ≡ some ns)
two_halves none p ns e = cc
two_halves (some head) none ns e = cc
two_halves (some head) (some tail) ns e = (head, tail, refl, refl, e)

halves-IsAddress : (hs : List Text) (ns : List ℕ) → words_of_halves hs ≡ some ns → IsAddress ns
unfolding words_of_halves
halves-IsAddress [] ns e = cc
halves-IsAddress (h ∷ []) ns e =
    let (f, g) = one_half (parse_half h) ns e in
    record { eight = g; small = parse_half-Small h ns f }
halves-IsAddress (h ∷ t ∷ []) ns e =
    let (head, tail, f, g, k) = two_halves (parse_half h) (parse_half t) ns e in
    fill-IsAddress head tail ns (parse_half-Small h head f) (parse_half-Small t tail g) k
halves-IsAddress (h ∷ t ∷ u ∷ hs) ns e = cc

from_halves :
    (o : Option Text) (ns : List ℕ)
    → (elim o [ none ↦ none | some h ↦ words_of_halves (split_double h) ]) ≡ some ns
    → IsAddress ns
from_halves none ns e = cc
from_halves (some h) ns e = halves-IsAddress (split_double h) ns e

-- What `ipv6Words` returns is eight words, each of 16 bits.
pub ipv6_words-IsAddress :
    (lower : Text → Text) (number : Text → Option ℕ) (host : Text) (words : List ℕ)
    → ipv6_words lower number host ≡ some words
    → IsAddress words
unfolding ipv6_words
ipv6_words-IsAddress lower number host words e =
    from_halves (undotted number (normalize_host lower host)) words e
