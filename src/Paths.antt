-- ===== src/Paths.antt =====
-- packages/schema/src/paths.ts: the normal form in which the trust boundaries compare paths, and
-- the paths that a file contract may name. `lower` is `String.prototype.toLowerCase`, whose Unicode
-- tables are not in the repository: a parameter.
use legion_cli.Prelude.{
  ℕ, suc, Bool, false, not, ◌&&◌, ◌||◌, List, [], ◌∷◌, map, ◌==◌, nat_eq, list_eq, leb, all, any,
  contains, if◌then◌else◌,
}
use legion_cli.Text.{Text, codes, split, join_text, starts_with}

abbrev pub slash : ℕ
slash = b'/'

-- What stands before the first occurrence of a unit: all of the text if there is none.
unfoldable pub before_unit : ℕ → Text → Text
before_unit u [] = []
before_unit u (c ∷ s) = let rest = before_unit u s in if c == u then [] else c ∷ rest

-- `.replace(/[. ]+$/, "")`
unfoldable pub strip_end : Text → Text
strip_end [] = []
strip_end (c ∷ s) = elim (strip_end s) [
  | [] ↦ if (c == b'.') || (c == b' ') then [] else c ∷ []
  | d ∷ r ↦ c ∷ d ∷ r
]

abbrev pub is_digit : ℕ → Bool
is_digit c = leb b'0' c && leb c b'9'

abbrev is_letter : ℕ → Bool
is_letter c = (leb b'A' c && leb c b'Z') || (leb b'a' c && leb c b'z')

-- `\d+$`
abbrev pub digits_to_end : Text → Bool
digits_to_end [] = false
digits_to_end (c ∷ s) = all is_digit (c ∷ s)

-- `/^[^~.]{1,6}~\d+$/`, with the number of leading units read so far.
short_name_from : ℕ → Text → Bool
short_name_from n [] = false
short_name_from n (c ∷ s) =
    let rest = short_name_from (suc n) s in
    if c == b'~' then leb 1 n && leb n 6 && digits_to_end s else if c == b'.' then false else rest

unfoldable pub is_short_name_segment : Text → Bool
unfolding short_name_from
is_short_name_segment segment = short_name_from 0 segment

-- `/^[A-Za-z]:/`
abbrev pub has_drive : Text → Bool
has_drive (c ∷ d ∷ s) = is_letter c && (d == b':')
has_drive _ = false

-- `/[*?[\\]/`
abbrev is_glob_or_backslash : ℕ → Bool
is_glob_or_backslash c = (c == b'*') || (c == b'?') || (c == b'[') || (c == 92)

abbrev pub dot : Text
dot = codes "."

abbrev pub dotdot : Text
dotdot = codes ".."

abbrev pub dotgit : Text
dotgit = codes ".git"

module _ (lower : Text → Text) where
  unfoldable pub normalize_path_segment : Text → Text
  unfolding before_unit strip_end
  normalize_path_segment segment = strip_end (lower (before_unit b':' segment))

  abbrev pub normalize_part : Text → Text
  normalize_part segment =
      if (segment == dot) || (segment == dotdot) then segment else normalize_path_segment segment

  unfoldable pub normalize_path_key : Text → Text
  unfolding normalize_path_segment split join_text
  normalize_path_key path = join_text slash (map normalize_part (split slash path))

  abbrev pub bad_raw_segment : Text → Bool
  bad_raw_segment segment =
      (segment == []) || (segment == dot) || (segment == dotdot) || (segment == dotgit)

  abbrev pub bad_segment : Text → Bool
  bad_segment segment =
      let norm = normalize_path_segment segment in
      (norm == [])
      || (norm == dot)
      || (norm == dotdot)
      || (norm == dotgit)
      || is_short_name_segment norm

  unfoldable pub is_concrete_posix_repo_relative_path : Text → Bool
  unfolding normalize_path_segment is_short_name_segment split
  is_concrete_posix_repo_relative_path path =
      not (path == [])
      && not (starts_with (slash ∷ []) path)
      && not (has_drive path)
      && not (any is_glob_or_backslash path)
      && not (contains path b':')
      && not (any bad_raw_segment (split slash path))
      && not (any bad_segment (split slash path))

-- An empty part is legal only as the last one.
abbrev inner_empty : List Text → Bool
inner_empty [] = false
inner_empty (s ∷ []) = false
inner_empty (s ∷ t ∷ r) = (s == []) || inner_empty (t ∷ r)

unfoldable pub is_posix_repo_relative_root : Text → Bool
unfolding split
is_posix_repo_relative_root path =
    not (path == [])
    && not (starts_with (slash ∷ []) path)
    && not (has_drive path)
    && not (contains path 92)
    && not (any (λ segment. (segment == dotdot) || (segment == dot)) (split slash path))
    && not (inner_empty (split slash path))
