-- ===== src/Json/Canonical/Tests.antt =====
-- The canonical text of a small record, whichever property was inserted first.
use legion_cli.Prelude.{
  ◌≡◌, ◌≢◌, refl, true, false, none, some, ℕ, [], ◌∷◌, ◌++◌, ==_iff, nat_eq, list_eq,
}
use legion_cli.Text.{codes, join_text}
use legion_cli.Attempt.{returned, thrown}
use legion_cli.Json.Reader.{Limit}
use legion_cli.Json.Canonical.{
  Stringify, Value, Items, Members, CanonicalError, CanonicalJsonOptions, canonical_json,
  write_parts, sort_parts,
}
use legion_cli.Json.Canonical.Order.{Same, Shuffled, canonical_json-Same}

-- A runtime that writes every number as 1.
abbrev quoted : Stringify
quoted = record {
  Number = ℕ;
  is_finite = λ n. true;
  number_text = λ n. codes "1";
  string_text = λ s. b'"' ∷ s ++ b'"' ∷ [];
}

abbrev plain : CanonicalJsonOptions
plain = record { max_depth = none; omit_undefined_object_values = true }

abbrev shallow : CanonicalJsonOptions
shallow = record { max_depth = some (Limit.natural 1); omit_undefined_object_values = false }

abbrev flags : Value ℕ
flags = Value.array (Items.item (Value.boolean true) (Items.item Value.null Items.no_items))

abbrev rest : Members ℕ
rest = Members.member (codes "c") Value.undefined Members.no_members

abbrev one_order : Value ℕ
one_order =
    Value.object (
      Members.member (codes "b") flags (Members.member (codes "a") (Value.string (codes "x")) rest))

abbrev other_order : Value ℕ
other_order =
    Value.object (
      Members.member (codes "a") (Value.string (codes "x")) (Members.member (codes "b") flags rest))

written : canonical_json quoted plain one_order ≡ returned (codes "{\"a\":\"x\",\"b\":[true,null]}")
unfolding canonical_json write_parts sort_parts join_text
written = refl

nested_too_deep : canonical_json quoted shallow one_order ≡ thrown CanonicalError.too_deep
unfolding canonical_json write_parts sort_parts
nested_too_deep = refl

different : codes "b" ≢ codes "a"
different e = let h = (==_iff (codes "b") (codes "a")).1 e in cc

canonical_json-Same_example :
    canonical_json quoted plain one_order ≡ canonical_json quoted plain other_order
canonical_json-Same_example = canonical_json-Same quoted plain {v = one_order} {w = other_order} (
    Same.objects
      (Shuffled.swap (codes "b") (codes "a") flags (Value.string (codes "x")) rest different))
