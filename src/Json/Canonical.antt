-- ===== src/Json/Canonical.antt =====
-- packages/persist/src/canonical-json.ts: `canonicalJson`, the text that the digests of records are
-- taken of. A value is a tree, so the guard against cycles has no counterpart; an object or array
-- that is not plain (its prototype, a symbol key, an accessor, a hidden property or a hole) is
-- `exotic`. Numbers, and how JSON.stringify writes numbers and strings, are a record of the runtime.
pub mod Order
mod Tests
use legion_cli.Prelude.{
  Bool, true, false, ◌&&◌, ℕ, suc, Option, none, some, List, [], ◌∷◌, ◌++◌, leb, if◌then◌else◌,
}
use legion_cli.Text.{Text, codes, text_le, join_text}
use legion_cli.Attempt.{Attempt, returned, thrown, ◌>>=◌}
use legion_cli.Json.Result.{Scan}
use legion_cli.Json.Reader.{Limit, json_depth_limit}

pub record Stringify : Type 1 where
  pub Number : Type 0
  pub is_finite : Number → Bool
  pub number_text : Number → Text
  pub string_text : Text → Text

mutual
  pub data Value (N : Type 0) : Type 0 where
    undefined null unsupported exotic : Value N
    boolean : Bool → Value N
    number : N → Value N
    string : Text → Value N
    array : Items N → Value N
    object : Members N → Value N

  pub data Items (N : Type 0) : Type 0 where
    no_items : Items N
    item : Value N → Items N → Items N

  -- The properties in the order of their insertion.
  pub data Members (N : Type 0) : Type 0 where
    no_members : Members N
    member : Text → Value N → Members N → Members N

-- `bad_depth` is thrown by `jsonDepthLimit`.
pub data CanonicalError : Type 0 where
  not_finite unsupported_value too_deep not_plain bad_depth : CanonicalError

abbrev pub Part : Type 0
Part = Text × Attempt CanonicalError Text

pub record CanonicalJsonOptions : Type 0 where
  pub max_depth : Option Limit
  pub omit_undefined_object_values : Bool

abbrev pub is_undefined : {N : Type 0} → Value N → Bool
is_undefined Value.undefined = true
is_undefined _ = false

-- `keys.sort()`, with what each property is written as.
abbrev pub insert_part : Part → List Part → List Part
insert_part p [] = p ∷ []
insert_part (k, v) ((l, w) ∷ ps) =
    if text_le k l then (k, v) ∷ (l, w) ∷ ps else (l, w) ∷ insert_part (k, v) ps

unfoldable pub sort_parts : List Part → List Part
sort_parts [] = []
sort_parts (p ∷ ps) = insert_part p (sort_parts ps)

abbrev pub enclose : ℕ → ℕ → Attempt CanonicalError (List Text) → Attempt CanonicalError Text
enclose opening closing parts =
    parts >>= λ texts. returned (opening ∷ join_text b',' texts ++ closing ∷ [])

-- `if (depth >= maxDepth) throw`
abbrev pub unless_deep : Bool → Attempt CanonicalError Text → Attempt CanonicalError Text
unless_deep true text = thrown CanonicalError.too_deep
unless_deep false text = text

-- What comes after `jsonDepthLimit`.
abbrev pub within_limit : Scan ℕ → (ℕ → Attempt CanonicalError Text) → Attempt CanonicalError Text
within_limit (Scan.read max_depth) rest = rest max_depth
within_limit _ rest = thrown CanonicalError.bad_depth

module _ (runtime : Stringify) (options : CanonicalJsonOptions) where
  -- The parts of an object, up to the first that throws.
  unfoldable pub write_parts : List Part → Attempt CanonicalError (List Text)
  write_parts [] = returned []
  write_parts ((key, child) ∷ ps) =
      let rest = write_parts ps in
      child >>= λ text.
      rest >>= λ texts. returned ((runtime.string_text key ++ b':' ∷ text) ∷ texts)

  unfoldable mutual
    pub serialize : ℕ → Value runtime.Number → ℕ → Attempt CanonicalError Text
    serialize max Value.null depth = returned (codes "null")
    serialize max Value.undefined depth = thrown CanonicalError.unsupported_value
    serialize max Value.unsupported depth = thrown CanonicalError.unsupported_value
    serialize max (Value.boolean b) depth = returned (if b then codes "true" else codes "false")
    serialize max (Value.string s) depth = returned (runtime.string_text s)
    serialize max (Value.number n) depth =
        if runtime.is_finite n
        then returned (runtime.number_text n)
        else thrown CanonicalError.not_finite
    serialize max Value.exotic depth =
        thrown (if leb max depth then CanonicalError.too_deep else CanonicalError.not_plain)
    serialize max (Value.array items) depth =
        unless_deep (leb max depth) (enclose b'[' b']' (serialize_items max items (suc depth)))
    serialize max (Value.object members) depth =
        unless_deep (leb max depth)
          (enclose b'{' b'}' (write_parts (sort_parts (serialize_members max members (suc depth)))))

    pub serialize_items : ℕ → Items runtime.Number → ℕ → Attempt CanonicalError (List Text)
    serialize_items max Items.no_items depth = returned []
    serialize_items max (Items.item v vs) depth =
        let rest = serialize_items max vs depth in
        serialize max v depth >>= λ text. rest >>= λ texts. returned (text ∷ texts)

    -- The properties with what each is written as, in the order of their insertion.
    pub serialize_members : ℕ → Members runtime.Number → ℕ → List Part
    serialize_members max Members.no_members depth = []
    serialize_members max (Members.member key child ms) depth =
        let rest = serialize_members max ms depth in
        if is_undefined child && options.omit_undefined_object_values
        then rest
        else (key, serialize max child depth) ∷ rest

  unfoldable pub canonical_json : Value runtime.Number → Attempt CanonicalError Text
  unfolding serialize json_depth_limit
  canonical_json value =
      within_limit (json_depth_limit options.max_depth) (λ max_depth. serialize max_depth value 0)
