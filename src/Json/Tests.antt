-- ===== src/Json/Tests.antt =====
-- Documents that the reader takes and refuses, and the witnesses of its theorems.
use legion_cli.Prelude.{◌≡◌, ◌≢◌, ◌↔◌, refl, true, none, some, [], ◌∷◌, length}
use legion_cli.Text.{Text, codes}
use legion_cli.Json.Result.{JsonError, read, thrown, out_of_fuel}
use legion_cli.Json.Surrogates.{is_well_formed, is_well_formed_iff, IsPaired}
use legion_cli.Json.Reader.{
  Input, Limit, Runtime, StrictJsonOptions, parse_strict_json, byte_limit, json_depth_limit,
  parse_text, scan_value, skip_space, token, scan_string,
}
use legion_cli.Json.Strings.{scan_body}
use legion_cli.Json.Numbers.{scan_number}
use legion_cli.Json.Accepts.{Accepted, parse_strict_json-Accepted, parse_strict_json-ends}

-- The literal without its quotes: right for literals without escapes.
abbrev but_last : Text → Text
but_last [] = []
but_last (c ∷ []) = []
but_last (c ∷ d ∷ s) = c ∷ but_last (d ∷ s)

abbrev unquoted : Text → Text
unquoted [] = []
unquoted (c ∷ s) = but_last s

abbrev runtime : Runtime Text
runtime = record {
  byte_length = λ s. length s;
  utf8 = λ b. some b;
  json_parse = λ s. s;
  decode = unquoted;
  is_finite = λ s. true;
}

abbrev defaults : StrictJsonOptions
defaults = record { max_bytes = none; max_depth = none }

abbrev shallow : StrictJsonOptions
shallow = record { max_bytes = none; max_depth = some (Limit.natural 1) }

abbrev sample : Text
sample = codes "{ \"a\" : [1, -2.5e+3, true], \"b\": {} }"

sample_read : parse_strict_json runtime (Input.string sample) defaults ≡ read sample
unfolding parse_strict_json byte_limit json_depth_limit is_well_formed parse_text scan_value
    skip_space token scan_string scan_body scan_number
sample_read = refl

twice :
    parse_strict_json runtime (Input.string (codes "{\"a\":1,\"a\":2}")) defaults
    ≡ thrown JsonError.duplicate_key
unfolding parse_strict_json byte_limit json_depth_limit is_well_formed parse_text scan_value
    skip_space token scan_string scan_body scan_number
twice = refl

leading_zero :
    parse_strict_json runtime (Input.string (codes "01")) defaults ≡ thrown JsonError.invalid
unfolding parse_strict_json byte_limit json_depth_limit is_well_formed parse_text scan_value
    skip_space token scan_string scan_body scan_number
leading_zero = refl

trailing_comma :
    parse_strict_json runtime (Input.string (codes "[1,]")) defaults ≡ thrown JsonError.invalid
unfolding parse_strict_json byte_limit json_depth_limit is_well_formed parse_text scan_value
    skip_space token scan_string scan_body scan_number
trailing_comma = refl

deep : parse_strict_json runtime (Input.string sample) shallow ≡ thrown JsonError.too_deep
unfolding parse_strict_json byte_limit json_depth_limit is_well_formed parse_text scan_value
    skip_space token scan_string scan_body scan_number
deep = refl

parse_strict_json-Accepted_example : Accepted runtime (Input.string sample) defaults sample
parse_strict_json-Accepted_example =
    parse_strict_json-Accepted runtime (Input.string sample) defaults sample sample_read

parse_strict_json-ends_example :
    parse_strict_json runtime (Input.string sample) defaults ≢ out_of_fuel
parse_strict_json-ends_example = parse_strict_json-ends runtime (Input.string sample) defaults

is_well_formed_iff_example :
    (is_well_formed (0xd83d ∷ 0xde00 ∷ b'a' ∷ []) ≡ true) ↔ IsPaired (0xd83d ∷ 0xde00 ∷ b'a' ∷ [])
is_well_formed_iff_example = is_well_formed_iff (0xd83d ∷ 0xde00 ∷ b'a' ∷ [])
