-- ===== src/Host/Literals.antt =====
-- Address literals: `ipv4Octets`, `normalizeHost` and `ipv6Words`.
use legion_cli.Prelude.{
  ℕ, zero, suc, ◌+◌, ◌-◌, ◌*◌, ◌/◌, ◌%◌, Bool, not, ◌&&◌, ◌||◌, Option, none, some, List, [], ◌∷◌,
  ◌++◌, reverse, ◌==◌, nat_eq, list_eq, leb, ltb, all, any, contains, length, if◌then◌else◌,
}
use legion_cli.Text.{Text, split}

pub record Octets : Type 0 where
  pub first : ℕ
  pub second : ℕ
  pub third : ℕ
  pub fourth : ℕ

-- `number` is `Number(·)` where it is a natural number, and nothing where it is not.
abbrev pub octet : (Text → Option ℕ) → Text → Option ℕ
octet number part = elim (number part) [ none ↦ none | some n ↦ if leb n 255 then some n else none ]

-- Four octets, if all are.
abbrev pub four_octets : Option ℕ → Option ℕ → Option ℕ → Option ℕ → Option Octets
four_octets none q r s = none
four_octets (some a) none r s = none
four_octets (some a) (some b) none s = none
four_octets (some a) (some b) (some c) none = none
four_octets (some a) (some b) (some c) (some d) =
    some (record { first = a; second = b; third = c; fourth = d })

abbrev pub octets_of_parts : (Text → Option ℕ) → List Text → Option Octets
octets_of_parts number (p ∷ q ∷ r ∷ s ∷ []) =
    four_octets (octet number p) (octet number q) (octet number r) (octet number s)
octets_of_parts number _ = none

unfoldable pub ipv4_octets : (Text → Option ℕ) → Text → Option Octets
unfolding split
ipv4_octets number host = octets_of_parts number (split b'.' host)

-- `.replace(/^\[|\]$/g, "")`
abbrev pub without_first : ℕ → Text → Text
without_first c [] = []
without_first c (d ∷ s) = if d == c then s else d ∷ s

abbrev without_brackets : Text → Text
without_brackets s = reverse (without_first b']' (reverse (without_first b'[' s)))

-- A unit that `.` of a regular expression does not match.
abbrev pub ends_line : ℕ → Bool
ends_line c = contains (0x0a ∷ 0x0d ∷ 0x2028 ∷ 0x2029 ∷ []) c

-- `.replace(/%.*$/, "")`
unfoldable pub without_zone : Text → Text
without_zone [] = []
without_zone (c ∷ s) =
    let rest = without_zone s in if c == b'%' && not (any ends_line s) then [] else c ∷ rest

unfoldable pub normalize_host : (Text → Text) → Text → Text
unfolding without_zone
normalize_host lower hostname = lower (without_zone (without_brackets hostname))

abbrev is_decimal : ℕ → Bool
is_decimal c = leb b'0' c && leb c b'9'

abbrev is_dotted_part : Text → Bool
is_dotted_part p = leb 1 (length p) && leb (length p) 3 && all is_decimal p

-- `(\d{1,3}(?:\.\d{1,3}){3})$` from its first unit, and the first place where it stands.
unfoldable pub is_dotted : Text → Bool
unfolding split
is_dotted s = length (split b'.' s) == 4 && all is_dotted_part (split b'.' s)

unfoldable pub find_dotted : Text → Option (Text × Text)
unfolding is_dotted
find_dotted [] = none
find_dotted (c ∷ s) =
    let later = find_dotted s in
    if is_dotted (c ∷ s)
    then some ([], c ∷ s)
    else (elim later [ none ↦ none | some (before, dotted) ↦ some (c ∷ before, dotted) ])

abbrev pub hex_digit : ℕ → ℕ
hex_digit n = if ltb n 10 then b'0' + n else b'a' + (n - 10)

-- `((a << 8) | b).toString(16)`, of a number below 65536.
unfoldable pub hex : ℕ → Text
hex n =
    if ltb n 16
    then hex_digit n ∷ []
    else if ltb n 256
    then hex_digit (n / 16) ∷ hex_digit (n % 16) ∷ []
    else if ltb n 4096
    then hex_digit (n / 256) ∷ hex_digit (n / 16 % 16) ∷ hex_digit (n % 16) ∷ []
    else hex_digit (n / 4096)
      ∷ hex_digit (n / 256 % 16)
      ∷ hex_digit (n / 16 % 16)
      ∷ hex_digit (n % 16)
      ∷ []

abbrev pub is_lower_hex_digit : ℕ → Bool
is_lower_hex_digit c = is_decimal c || (leb b'a' c && leb c b'f')

abbrev pub hex_value : ℕ → ℕ
hex_value c = if is_decimal c then c - b'0' else c - b'a' + 10

-- `Number.parseInt(w, 16)`
abbrev pub parse_int_16 : ℕ → Text → ℕ
parse_int_16 n [] = n
parse_int_16 n (c ∷ s) = parse_int_16 (n * 16 + hex_value c) s

abbrev pub word_of : Text → Option ℕ
word_of w =
    if leb 1 (length w) && leb (length w) 4 && all is_lower_hex_digit w
    then some (parse_int_16 0 w)
    else none

-- `part.split(":").map(...)`, unless one is not a word.
abbrev pub words_of : List Text → Option (List ℕ)
words_of [] = some []
words_of (w ∷ ws) = elim (word_of w) [
  | none ↦ none
  | some n ↦ elim (words_of ws) [ none ↦ none | some ns ↦ some (n ∷ ns) ]
]

unfoldable pub parse_half : Text → Option (List ℕ)
unfolding split
parse_half [] = some []
parse_half (c ∷ s) = words_of (split b':' (c ∷ s))

abbrev pub cons_head : ℕ → List Text → List Text
cons_head c [] = (c ∷ []) ∷ []
cons_head c (h ∷ t) = (c ∷ h) ∷ t

-- `split("::")`
unfoldable pub split_double : Text → List Text
split_double [] = [] ∷ []
split_double (c ∷ []) = (c ∷ []) ∷ []
split_double (c ∷ d ∷ s) =
    let after = split_double s in
    let further = split_double (d ∷ s) in
    if c == b':' && d == b':' then [] ∷ after else cons_head c further

abbrev pub zeros : ℕ → List ℕ
zeros zero = []
zeros (suc n) = 0 ∷ zeros n

-- The words around a `::`, if it stands for one zero at least.
abbrev pub fill : List ℕ → List ℕ → Option (List ℕ)
fill head tail =
    if ltb (length head + length tail) 8
    then some (head ++ zeros (8 - length head - length tail) ++ tail)
    else none

unfoldable pub words_of_halves : List Text → Option (List ℕ)
unfolding parse_half
words_of_halves (h ∷ []) = elim (parse_half h) [
  | none ↦ none
  | some head ↦ if length head == 8 then some head else none
]
words_of_halves (h ∷ t ∷ []) = elim (parse_half h) [
  | none ↦ none
  | some head ↦ elim (parse_half t) [ none ↦ none | some tail ↦ fill head tail ]
]
words_of_halves _ = none

-- The dotted end of a literal in two words.
unfoldable pub undotted : (Text → Option ℕ) → Text → Option Text
unfolding find_dotted ipv4_octets hex
undotted number h = elim (find_dotted h) [
  | none ↦ some h
  | some (before, dotted) ↦ elim (ipv4_octets number dotted) [
    | none ↦ none
    | some o ↦
        some (before ++ hex (o.first * 256 + o.second) ++ b':' ∷ hex (o.third * 256 + o.fourth))
  ]
]

unfoldable pub ipv6_words : (Text → Text) → (Text → Option ℕ) → Text → Option (List ℕ)
unfolding normalize_host undotted split_double words_of_halves
ipv6_words lower number host = elim (undotted number (normalize_host lower host)) [
  | none ↦ none
  | some h ↦ words_of_halves (split_double h)
]
