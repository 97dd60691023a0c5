-- ===== src/Text.antt =====
-- A string of the source where the code walks through it: the list of its UTF-16 code units.
-- The methods of strings and arrays of strings that the source calls.
pub mod Order
use Prim.Native.Char.{code}
use legion_cli.Prelude.{
  Option, none, some, ℕ, filter, Memᴰ-filter, ==_iff, not, ◌+◌, ◌≡◌, ◌↔◌, ◌⊎◌, inl, inr, Bool, true,
  false, ◌&&◌, List, [], ◌∷◌, ◌++◌, map, String, Memᴰ, ◌==◌, nat_eq, list_eq, ltb, leb, contains,
  arith, if◌then◌else◌, Memᴰ-cons, Bool-cases, contains_iff,
}

abbrev pub Text : Type 0
Text = List ℕ

-- The code units of a literal; the literals of the source are ASCII.
abbrev pub codes : String → Text
codes String.[] = []
codes (String.◌∷◌ c s) = code c ∷ codes s

abbrev pub cons_head : ℕ → List Text → List Text
cons_head c [] = (c ∷ []) ∷ []
cons_head c (h ∷ t) = (c ∷ h) ∷ t

-- `split(sep)` at a separator of one unit: never an empty list.
unfoldable pub split : ℕ → Text → List Text
split sep [] = [] ∷ []
split sep (c ∷ s) = if c == sep then [] ∷ split sep s else cons_head c (split sep s)

-- `join(sep)` with a separator of one unit.
unfoldable pub join_text : ℕ → List Text → Text
join_text sep [] = []
join_text sep (s ∷ []) = s
join_text sep (s ∷ t ∷ r) = s ++ sep ∷ join_text sep (t ∷ r)

abbrev pub starts_with : Text → Text → Bool
starts_with [] s = true
starts_with (p ∷ ps) [] = false
starts_with (p ∷ ps) (c ∷ s) = (p == c) && starts_with ps s

-- What stands after a prefix.
abbrev pub after_prefix : Text → Text → Option Text
after_prefix [] s = some s
after_prefix (p ∷ ps) [] = none
after_prefix (p ∷ ps) (c ∷ s) = if p == c then after_prefix ps s else none

abbrev pub includes_unit : ℕ → Text → Bool
includes_unit u s = contains s u

-- The order of `Array.prototype.sort` with no comparison: by code units.
abbrev pub text_le : Text → Text → Bool
text_le [] t = true
text_le (c ∷ s) [] = false
text_le (c ∷ s) (d ∷ t) = if c == d then text_le s t else ltb c d

abbrev pub insert_sorted : Text → List Text → List Text
insert_sorted s [] = s ∷ []
insert_sorted s (t ∷ ts) = if text_le s t then s ∷ t ∷ ts else t ∷ insert_sorted s ts

-- `[...new Set(items)].sort()`
unfoldable pub sorted_set : List Text → List Text
sorted_set [] = []
sorted_set (s ∷ ss) =
    let rest = sorted_set ss in if contains rest s then rest else insert_sorted s rest

pub mem-insert_sorted :
    (a s : Text) (ss : List Text) → Memᴰ a (insert_sorted s ss) ↔ ((a ≡ s) ⊎ Memᴰ a ss)
mem-insert_sorted a s [] = Memᴰ-cons a s []
mem-insert_sorted a s (t ∷ ts) = ground (
  arith,
  mem-insert_sorted a s ts,
  Memᴰ-cons a s (t ∷ ts),
  Memᴰ-cons a t ts,
  Memᴰ-cons a t (insert_sorted s ts),
)

pub mem-sorted_set : (a : Text) (ss : List Text) → Memᴰ a (sorted_set ss) ↔ Memᴰ a ss
unfolding sorted_set
mem-sorted_set a [] = ground arith
mem-sorted_set a (s ∷ ss) = elim (Bool-cases (contains (sorted_set ss) s)) [
  | inl old ↦ rw old (
    λ m. Memᴰ.tail ((mem-sorted_set a ss).0 m),
    λ m. elim ((Memᴰ-cons a s ss).0 m) [
      | inl e ↦ rw e ((contains_iff (sorted_set ss) s).0 old)
      | inr t ↦ (mem-sorted_set a ss).1 t
    ],
  )
  | inr new ↦
      rw new ground
        (arith, mem-insert_sorted a s (sorted_set ss), mem-sorted_set a ss, Memᴰ-cons a s ss)
]

-- `toLowerCase` on ASCII texts: what the parameter for it is in tests, and how a regular expression
-- with the flag `i` folds letters.
abbrev pub ascii_lower_case : Text → Text
ascii_lower_case s = map (λ c. if leb b'A' c && leb c b'Z' then c + 32 else c) s

-- `[...new Set(items)]`: the first of each.
unfoldable pub unique : List Text → List Text
unique [] = []
unique (s ∷ ss) = s ∷ filter (λ t. not (t == s)) (unique ss)

-- `items.sort()`
unfoldable pub sort_texts : List Text → List Text
sort_texts [] = []
sort_texts (s ∷ ss) = insert_sorted s (sort_texts ss)

pub mem-sort_texts : (a : Text) (ss : List Text) → Memᴰ a (sort_texts ss) ↔ Memᴰ a ss
unfolding sort_texts
mem-sort_texts a [] = ground arith
mem-sort_texts a (s ∷ ss) =
    ground (arith, mem-insert_sorted a s (sort_texts ss), mem-sort_texts a ss, Memᴰ-cons a s ss)

pub mem-unique : (a : Text) (ss : List Text) → Memᴰ a (unique ss) ↔ Memᴰ a ss
unfolding unique
mem-unique a [] = ground arith
mem-unique a (s ∷ ss) = ground (
  arith,
  Memᴰ-filter (λ t. not (t == s)) a (unique ss),
  mem-unique a ss,
  Memᴰ-cons a s ss,
  Memᴰ-cons a s (filter (λ t. not (t == s)) (unique ss)),
  ==_iff a s,
)
