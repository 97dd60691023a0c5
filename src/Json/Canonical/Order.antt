-- ===== src/Json/Canonical/Order.antt =====
-- The text of a value does not depend on the order in which its properties were inserted.
use legion_cli.Prelude.{
  ◌≡◌, ◌≢◌, refl, ◌∙◌, ap, ◌⊎◌, inl, inr, Bool, true, false, ◌&&◌, ℕ, suc, List, [], ◌∷◌, leb,
  arith, if◌then◌else◌, Bool-cases,
}
use legion_cli.Text.{Text, text_le}
use legion_cli.Text.Order.{text_le_total, text_le_antisym, text_le_trans}
use legion_cli.Attempt.{Attempt, returned, ◌>>=◌}
use legion_cli.Json.Result.{Scan}
use legion_cli.Json.Reader.{json_depth_limit}
use legion_cli.Json.Canonical.{
  Stringify, Value, Items, Members, CanonicalError, Part, CanonicalJsonOptions, is_undefined,
  insert_part, sort_parts, enclose, unless_deep, within_limit, write_parts, serialize,
  serialize_items, serialize_members, canonical_json,
}

-- The same value, but for the order of the properties of its objects, at any depth.
mutual
  pub data Same {N : Type 0} : Value N → Value N → Type 0 where
    alike : (v : Value N) → Same v v
    arrays : {vs ws : Items N} → SameItems vs ws → Same (Value.array vs) (Value.array ws)
    objects : {ms ns : Members N} → Shuffled ms ns → Same (Value.object ms) (Value.object ns)

  pub data SameItems {N : Type 0} : Items N → Items N → Type 0 where
    no_items : SameItems Items.no_items Items.no_items
    item :
        {v w : Value N} {vs ws : Items N}
        → Same v w
        → SameItems vs ws
        → SameItems (Items.item v vs) (Items.item w ws)

  pub data Shuffled {N : Type 0} : Members N → Members N → Type 0 where
    no_members : Shuffled Members.no_members Members.no_members
    member :
        (key : Text) {v w : Value N} {ms ns : Members N}
        → Same v w
        → Shuffled ms ns
        → Shuffled (Members.member key v ms) (Members.member key w ns)
    swap :
        (k l : Text) (v w : Value N) (ms : Members N)
        → k ≢ l
        → Shuffled
            (Members.member k v (Members.member l w ms))
            (Members.member l w (Members.member k v ms))
    and_then : {ms ns os : Members N} → Shuffled ms ns → Shuffled ns os → Shuffled ms os

Same-is_undefined : {N : Type 0} {v w : Value N} → Same v w → is_undefined v ≡ is_undefined w
Same-is_undefined (alike v) = refl
Same-is_undefined (arrays s) = refl
Same-is_undefined (objects s) = refl

-- Of two different keys, one comes first.
order :
    (k l : Text)
    → k ≢ l
    → (text_le k l ≡ true × text_le l k ≡ false) ⊎ (text_le k l ≡ false × text_le l k ≡ true)
order k l n = ground (arith, text_le_antisym k l, text_le_total k l)

insert_part-swap :
    (k l : Text) (v w : Attempt CanonicalError Text) (ps : List Part)
    → k ≢ l
    → insert_part (k, v) (insert_part (l, w) ps) ≡ insert_part (l, w) (insert_part (k, v) ps)
insert_part-swap k l v w [] n = elim (order k l n) [
  | inl (h, g) ↦ simp (h, g)
  | inr (g, h) ↦ simp (h, g)
]
insert_part-swap k l v w ((m, x) ∷ ps) n = elim (order k l n) [
  | inl (h, g) ↦ elim (Bool-cases (text_le l m)) [
    | inl l_first ↦ let k_first = text_le_trans k l m h l_first in simp (h, g, l_first, k_first)
    | inr l_late ↦ elim (Bool-cases (text_le k m)) [
      | inl k_first ↦ simp (g, l_late, k_first)
      | inr k_late ↦ simp (l_late, k_late, insert_part-swap k l v w ps n)
    ]
  ]
  | inr (g, h) ↦ elim (Bool-cases (text_le k m)) [
    | inl k_first ↦ let l_first = text_le_trans l k m h k_first in simp (h, g, l_first, k_first)
    | inr k_late ↦ elim (Bool-cases (text_le l m)) [
      | inl l_first ↦ simp (g, l_first, k_late)
      | inr l_late ↦ simp (l_late, k_late, insert_part-swap k l v w ps n)
    ]
  ]
]

-- A property that may be left out goes to the same place in the sorted parts.
skipped-Same :
    {b c : Bool} {x y : Attempt CanonicalError Text} (ps qs : List Part) (key : Text)
    → x ≡ y
    → b ≡ c
    → sort_parts ps ≡ sort_parts qs
    → sort_parts (if b then ps else (key, x) ∷ ps) ≡ sort_parts (if c then qs else (key, y) ∷ qs)
unfolding sort_parts
skipped-Same {b} {c} {x} {y} ps qs key same alike_ rest = elim (Bool-cases b) [
  | inl h ↦ let k : c ≡ true = cc in rw (h, k) rest
  | inr h ↦ let k : c ≡ false = cc in rw (h, k, same, rest, sort_parts) refl
]

skipped-swap :
    (k l : Text) (x y : Attempt CanonicalError Text) (b c : Bool) (ps : List Part)
    → k ≢ l
    → sort_parts
        (if b then if c then ps else (l, y) ∷ ps else (k, x) ∷ (if c then ps else (l, y) ∷ ps))
      ≡ sort_parts
          (if c then if b then ps else (k, x) ∷ ps else (l, y) ∷ (if b then ps else (k, x) ∷ ps))
unfolding sort_parts
skipped-swap k l x y true true ps n = refl
skipped-swap k l x y true false ps n = refl
skipped-swap k l x y false true ps n = refl
skipped-swap k l x y false false ps n = insert_part-swap k l x y (sort_parts ps) n

module _ (runtime : Stringify) (options : CanonicalJsonOptions) where
  parts : ℕ → Members runtime.Number → ℕ → List Part
  parts max ms depth = sort_parts (serialize_members runtime options max ms depth)

  mutual
    unfolding serialize parts sort_parts

    serialize-Same :
        (max : ℕ) {v w : Value runtime.Number} (depth : ℕ)
        → Same v w
        → serialize runtime options max v depth ≡ serialize runtime options max w depth
    serialize-Same max depth (alike v) = refl
    serialize-Same max depth (arrays s) =
        ap (λ r. unless_deep (leb max depth) (enclose b'[' b']' r))
          (serialize_items-Same max (suc depth) s)
    serialize-Same max depth (objects s) =
        ap (λ r. unless_deep (leb max depth) (enclose b'{' b'}' (write_parts runtime options r)))
          (parts-Shuffled max (suc depth) s)

    serialize_items-Same :
        (max : ℕ) {vs ws : Items runtime.Number} (depth : ℕ)
        → SameItems vs ws
        → serialize_items runtime options max vs depth
          ≡ serialize_items runtime options max ws depth
    serialize_items-Same max depth no_items = refl
    serialize_items-Same max depth (item {v} {w} {vs} {ws} s rest) =
        ap
          (λ r. r >>= λ text.
            serialize_items runtime options max vs depth >>= λ texts. returned (text ∷ texts))
          (serialize-Same max depth s)
        ∙ ap
            (λ r. serialize runtime options max w depth >>= λ text.
              r >>= λ texts. returned (text ∷ texts))
            (serialize_items-Same max depth rest)

    parts-Shuffled :
        (max : ℕ) {ms ns : Members runtime.Number} (depth : ℕ)
        → Shuffled ms ns
        → parts max ms depth ≡ parts max ns depth
    parts-Shuffled max depth no_members = refl
    parts-Shuffled max depth (member key {v} {w} {ms} {ns} s rest) =
        skipped-Same (serialize_members runtime options max ms depth)
          (serialize_members runtime options max ns depth) key (serialize-Same max depth s)
          (ap (λ b. b && options.omit_undefined_object_values) (Same-is_undefined s))
          (parts-Shuffled max depth rest)
    parts-Shuffled max depth (swap k l v w ms n) =
        skipped-swap k l (serialize runtime options max v depth)
          (serialize runtime options max w depth)
          (is_undefined v && options.omit_undefined_object_values)
          (is_undefined w && options.omit_undefined_object_values)
          (serialize_members runtime options max ms depth) n
    parts-Shuffled max depth (and_then s t) =
        parts-Shuffled max depth s ∙ parts-Shuffled max depth t

within_limit-same :
    (limit : Scan ℕ) {f g : ℕ → Attempt CanonicalError Text}
    → ((max : ℕ) → f max ≡ g max)
    → within_limit limit f ≡ within_limit limit g
within_limit-same (Scan.read max) h = h max
within_limit-same (Scan.thrown e) h = refl
within_limit-same Scan.out_of_fuel h = refl

-- Two values that differ only in the order in which the properties of their objects, at any depth,
-- were inserted have the same canonical text, or canonicalJson refuses both for the same reason.
pub canonical_json-Same :
    (runtime : Stringify) (options : CanonicalJsonOptions) {v w : Value runtime.Number}
    → Same v w
    → canonical_json runtime options v ≡ canonical_json runtime options w
unfolding canonical_json
canonical_json-Same runtime options {v} {w} s =
    within_limit-same (json_depth_limit options.max_depth)
      (λ max. serialize-Same runtime options max 0 s)
