-- ===== src/Json/Reader.antt =====
-- The reader of documents: `value` with its loops, and `parseStrictJson` around it.
use legion_cli.Prelude.{
  ℕ, zero, suc, ◌+◌, ◌*◌, Bool, not, ◌||◌, ◌&&◌, Option, none, some, List, [], ◌∷◌, ◌==◌, nat_eq,
  list_eq, leb, ltb, if◌then◌else◌, contains, length, is_empty,
}
use legion_cli.Text.{Text, codes, after_prefix}
use legion_cli.Json.Result.{Scan, JsonError, read, thrown, out_of_fuel, ◌>>=◌, ◌>>◌, demand}
use legion_cli.Json.Surrogates.{is_well_formed}
use legion_cli.Json.Strings.{quote, scan_body, Mode}
use legion_cli.Json.Numbers.{is_digit, scan_number}

abbrev pub is_space : ℕ → Bool
is_space c = (c == 0x20) || (c == 0x09) || (c == 0x0a) || (c == 0x0d)

-- `whitespace`
unfoldable pub skip_space : Text → Text
skip_space [] = []
skip_space (c ∷ s) = let rest = skip_space s in if is_space c then rest else c ∷ s

-- What follows the unit `c`, if the text starts with it.
abbrev pub after_unit : ℕ → Text → Option Text
after_unit c [] = none
after_unit c (d ∷ s) = if d == c then some s else none

abbrev pub or_invalid : Option Text → Scan Text
or_invalid none = thrown JsonError.invalid
or_invalid (some s) = read s

-- What the first unit of a value announces.
pub data Token : Type 0 where
  brace bracket string_quote numeral unknown : Token
  literal : Text → Token

unfoldable pub token : ℕ → Token
token c =
    if c == b'{'
    then Token.brace
    else if c == b'['
    then Token.bracket
    else if c == quote
    then Token.string_quote
    else if (c == b'-') || is_digit c
    then Token.numeral
    else if c == b't'
    then Token.literal (codes "true")
    else if c == b'f'
    then Token.literal (codes "false")
    else if c == b'n'
    then Token.literal (codes "null")
    else Token.unknown

-- The body of an object, unless it closes at once; likewise of an array.
abbrev pub unless_closed : ℕ → (Text → Scan Text) → Text → Scan Text
unless_closed c loop s = elim (after_unit c s) [ some rest ↦ read rest | none ↦ loop s ]

-- After an element: a comma and the next one, or the end.
abbrev pub comma_or : ℕ → (Text → Scan Text) → Text → Scan Text
comma_or c loop s = elim (after_unit b',' s) [
  | some rest ↦ loop rest
  | none ↦ or_invalid (after_unit c s)
]

-- `string` after the quote: the string and what follows its literal; `decode` is `JSON.parse` of a literal.
unfoldable pub scan_string : (Text → Text) → Text → Scan (Text × Text)
scan_string decode s = scan_body Mode.plain s >>= λ (body, rest).
    let value = decode (quote ∷ body) in
    demand (is_well_formed value) JsonError.unpaired_surrogate >> read (value, rest)

-- `decode` is `JSON.parse` of a string literal, `is_finite` is `Number.isFinite(Number(·))` of a
-- number literal; `max_depth` is in force.
module _ (decode : Text → Text) (is_finite : Text → Bool) (max_depth : ℕ) where
  abbrev pub enter : ℕ → Scan (Unit {0})
  enter depth = demand (ltb depth max_depth) JsonError.too_deep

  -- `value` and its two loops, with what they call passed in.
  abbrev pub at_token :
      (List Text → ℕ → Text → Scan Text) → (ℕ → Text → Scan Text) → ℕ → ℕ → Text → Token → Scan Text
  at_token members items depth c s Token.brace =
      enter depth >> unless_closed b'}' (members [] (suc depth)) (skip_space s)
  at_token members items depth c s Token.bracket =
      enter depth >> unless_closed b']' (items (suc depth)) (skip_space s)
  at_token members items depth c s Token.string_quote =
      scan_string decode s >>= λ (_, rest). read rest
  at_token members items depth c s Token.numeral =
      scan_number is_finite (c ∷ s) >>= λ (_, rest). read rest
  at_token members items depth c s (Token.literal word) = or_invalid (after_prefix word (c ∷ s))
  at_token members items depth c s Token.unknown = thrown JsonError.invalid

  abbrev pub value_step :
      (List Text → ℕ → Text → Scan Text) → (ℕ → Text → Scan Text) → ℕ → Text → Scan Text
  value_step members items depth [] = thrown JsonError.invalid
  value_step members items depth (c ∷ s) = at_token members items depth c s (token c)

  abbrev pub member_step :
      (ℕ → Text → Scan Text) → (List Text → ℕ → Text → Scan Text) → List Text → ℕ → Text → Scan Text
  member_step value members keys depth s = or_invalid (after_unit quote s) >>= λ s1.
      scan_string decode s1 >>= λ (key, s2).
      demand (not (contains keys key)) JsonError.duplicate_key
      >> or_invalid (after_unit b':' (skip_space s2))
      >>= λ s3. value depth s3 >>= λ s4.
          comma_or b'}' (λ s5. members (key ∷ keys) depth (skip_space s5)) (skip_space s4)

  abbrev pub item_step : (ℕ → Text → Scan Text) → (ℕ → Text → Scan Text) → ℕ → Text → Scan Text
  item_step value items depth s =
      value depth s >>= λ s1. comma_or b']' (items depth) (skip_space s1)

  -- `scan_members` is the loop of an object whose `keys` have been seen, `scan_items` that of an
  -- array, each at nesting depth `depth` of its values.
  unfoldable mutual
    pub scan_value : ℕ → ℕ → Text → Scan Text
    scan_value zero depth s = out_of_fuel
    scan_value (suc fuel) depth s =
        value_step (scan_members fuel) (scan_items fuel) depth (skip_space s)

    pub scan_members : ℕ → List Text → ℕ → Text → Scan Text
    scan_members zero keys depth s = out_of_fuel
    scan_members (suc fuel) keys depth s =
        member_step (scan_value fuel) (scan_members fuel) keys depth s

    pub scan_items : ℕ → ℕ → Text → Scan Text
    scan_items zero depth s = out_of_fuel
    scan_items (suc fuel) depth s = item_step (scan_value fuel) (scan_items fuel) depth s

-- The number of an option: a natural number, or anything else, negative, fractional or NaN.
pub data Limit : Type 0 where
  natural : ℕ → Limit
  not_natural : Limit

-- `maxBytes` in force; the first number is `DEFAULT_STRICT_JSON_MAX_BYTES`, the second
-- `Number.MAX_SAFE_INTEGER`.
unfoldable pub byte_limit : Option Limit → Scan ℕ
byte_limit none = read 1048576
byte_limit (some (Limit.natural n)) =
    demand (leb 1 n && leb n 9007199254740991) JsonError.bad_limit >> read n
byte_limit (some Limit.not_natural) = thrown JsonError.bad_limit

-- `MAX_JSON_DEPTH`
abbrev pub max_json_depth : ℕ
max_json_depth = 32

unfoldable pub json_depth_limit : Option Limit → Scan ℕ
json_depth_limit none = read max_json_depth
json_depth_limit (some (Limit.natural n)) =
    demand (leb n max_json_depth) JsonError.bad_limit >> read n
json_depth_limit (some Limit.not_natural) = thrown JsonError.bad_limit

pub data Input : Type 0 where
  string : Text → Input
  bytes : List ℕ → Input

-- What the runtime does: `Buffer.byteLength`, the fatal UTF-8 decoder, `JSON.parse` of a document
-- and of a string literal, `Number.isFinite(Number(·))`.
pub record Runtime (V : Type 0) : Type 0 where
  pub byte_length : Text → ℕ
  pub utf8 : List ℕ → Option Text
  pub json_parse : Text → V
  pub decode : Text → Text
  pub is_finite : Text → Bool

pub record StrictJsonOptions : Type 0 where
  pub max_bytes : Option Limit
  pub max_depth : Option Limit

module _ {V : Type 0} (runtime : Runtime V) where
  abbrev pub input_bytes : Input → ℕ
  input_bytes (Input.string s) = runtime.byte_length s
  input_bytes (Input.bytes b) = length b

  abbrev pub input_text : Input → Scan Text
  input_text (Input.string s) = demand (is_well_formed s) JsonError.unpaired_surrogate >> read s
  input_text (Input.bytes b) = elim (runtime.utf8 b) [
    | some s ↦ read s
    | none ↦ thrown JsonError.not_utf8
  ]

  -- Enough for the text: two steps for each unit and one more.
  abbrev pub fuel_of : Text → ℕ
  fuel_of s = 2 * length s + 1

  unfoldable pub parse_text : ℕ → Text → Scan V
  parse_text max_depth s =
      scan_value (runtime.decode) (runtime.is_finite) max_depth (fuel_of s) 0 s >>= λ rest.
      demand (is_empty (skip_space rest)) JsonError.invalid >> read (runtime.json_parse s)

  unfoldable pub parse_strict_json : Input → StrictJsonOptions → Scan V
  parse_strict_json input options = byte_limit (options.max_bytes) >>= λ max_bytes.
      json_depth_limit (options.max_depth) >>= λ max_depth.
      demand (leb (input_bytes input) max_bytes) JsonError.too_long >>= λ _.
      input_text input >>= λ s. parse_text max_depth s
