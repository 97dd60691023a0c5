-- ===== src/Qa/Tags.antt =====
-- The tags in the titles of tests: packages/qa/src/tags.ts. Each test of a regular expression is a
-- search over the units of the title; `i` without `u` folds ASCII letters alone.
use legion_cli.Prelude.{
  ℕ, Bool, true, false, not, ◌&&◌, ◌||◌, Option, none, some, List, [], ◌∷◌, ◌==◌, nat_eq, leb,
  contains, any, if◌then◌else◌, is_empty,
}
use legion_cli.Text.{Text, codes, after_prefix, ascii_lower_case}
use legion_cli.Lifecycle.{Priority, p0, p1, p2}
use legion_cli.Graph.Readiness.{AcceptanceCriterion}

-- `\s`
abbrev pub is_white : ℕ → Bool
is_white c =
    (leb 9 c && leb c 13)
    || (leb 0x2000 c && leb c 0x200a)
    || contains (0x20 ∷ 0xa0 ∷ 0x1680 ∷ 0x2028 ∷ 0x2029 ∷ 0x202f ∷ 0x205f ∷ 0x3000 ∷ 0xfeff ∷ []) c

-- `\w`
abbrev is_word : ℕ → Bool
is_word c =
    (leb b'0' c && leb c b'9')
    || (leb b'A' c && leb c b'Z')
    || (leb b'a' c && leb c b'z')
    || c == b'_'

-- `\b` after a word, and `(\s|$)`.
abbrev word_ends : Text → Bool
word_ends [] = true
word_ends (c ∷ s) = not (is_word c)

abbrev pub tag_ends : Text → Bool
tag_ends [] = true
tag_ends (c ∷ s) = is_white c

-- The word stands here, and `ends` holds of what follows.
abbrev pub stands_here : (Text → Bool) → Text → Text → Bool
stands_here ends word s = elim (after_prefix word s) [ none ↦ false | some rest ↦ ends rest ]

abbrev anywhere : (Text → Bool) → Text → Bool
anywhere p [] = p []
anywhere p (c ∷ s) = p (c ∷ s) || anywhere p s

-- `@p0`, `@p1`, `@p2`
abbrev pub tag_from_priority : Priority → Text
tag_from_priority p0 = codes "@p0"
tag_from_priority p1 = codes "@p1"
tag_from_priority p2 = codes "@p2"

unfoldable pub tag_after_white : Text → Text → Bool
tag_after_white tag [] = false
tag_after_white tag (c ∷ s) = (is_white c && stands_here tag_ends tag s) || tag_after_white tag s

abbrev pub has_tag : Text → Text → Bool
has_tag tag s = stands_here tag_ends tag s || tag_after_white tag s

unfoldable pub priority_from_title : Text → Priority
priority_from_title title =
    if has_tag (tag_from_priority p0) (ascii_lower_case title)
    then p0
    else if has_tag (tag_from_priority p2) (ascii_lower_case title)
    then p2
    else p1

unfoldable pub is_visual_title : Text → Bool
is_visual_title title = anywhere (stands_here word_ends (codes "@visual")) (ascii_lower_case title)

-- The words of `UI_AC_RE`.
abbrev ui_words : List Text
ui_words =
    codes "ui"
    ∷ codes "ux"
    ∷ codes "screen"
    ∷ codes "page"
    ∷ codes "button"
    ∷ codes "click"
    ∷ codes "tap"
    ∷ codes "visual"
    ∷ codes "wireframe"
    ∷ codes "board"
    ∷ codes "phone"
    ∷ codes "mobile"
    ∷ codes "desktop"
    ∷ codes "browser"
    ∷ codes "layout"
    ∷ []

-- A word of the list between two `\b`; the first argument tells whether a word comes before.
unfoldable has_ui_word : Bool → Text → Bool
has_ui_word after_word [] = false
has_ui_word after_word (c ∷ s) =
    (not after_word && any (λ (word : Text). stands_here word_ends word (c ∷ s)) ui_words)
    || has_ui_word (is_word c) s

unfoldable pub is_ui_acceptance : AcceptanceCriterion → Bool
unfolding has_ui_word
is_ui_acceptance ac =
    let statement = ascii_lower_case (codes ac.statement) in
    has_ui_word false statement || anywhere (stands_here (λ rest. true) (codes "@visual")) statement

-- The fields of a spec that the score reads.
pub record ScoredSpec : Type 0 where
  pub id : Text
  pub acceptance : List AcceptanceCriterion
  pub wireframes_index : Option Text

-- `if (spec.wireframesIndex)`: absent, null and empty alike.
abbrev is_set : Option Text → Bool
is_set none = false
is_set (some s) = not (is_empty s)

unfoldable pub spec_has_ui : ScoredSpec → Bool
unfolding is_ui_acceptance
spec_has_ui spec = is_set spec.wireframes_index || any is_ui_acceptance spec.acceptance
