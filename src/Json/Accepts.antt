-- ===== src/Json/Accepts.antt =====
-- `parseStrictJson` as a whole: what it returns, and that it always ends.
use mathlib.Core.List.{append-nil}
use legion_cli.Prelude.{
  ℕ, ◌≡◌, ◌≢◌, ◌≤◌, inl, inr, refl, sym, ◌∙◌, subst, ap, ◌&&◌, Option, none, some, ◌++◌, leb,
  is_empty, is_empty_iff, Bool-cases, Option-cases, arith, leb→le,
}
use legion_cli.Text.{Text}
use legion_cli.Json.Result.{
  JsonError, read, out_of_fuel, Reads, reads, throws, Reads-bind, Reads-map, Reads-demand,
  Reads-read, Reads-out_of_fuel,
}
use legion_cli.Json.Surrogates.{is_well_formed}
use legion_cli.Json.Reader.{
  skip_space, Limit, byte_limit, json_depth_limit, Input, Runtime, StrictJsonOptions, input_bytes,
  input_text, fuel_of, parse_text, parse_strict_json,
}
use legion_cli.Json.Grammar.{IsDocument}
use legion_cli.Json.Scans.{skip_space-Leaves}
use legion_cli.Json.Sound.{scan_value-Reads}

-- The limit in force: the option when it is a number from `low` to `high`, the default when it is
-- not given.
abbrev InForce : ℕ → ℕ → ℕ → Option Limit → ℕ → Type 0
InForce low high default none n = n ≡ default
InForce low high default (some (Limit.natural m)) n = n ≡ m × low ≤ m × m ≤ high
InForce low high default (some Limit.not_natural) n = ⊥

byte_limit-Reads : (o : Option Limit) → Reads (InForce 1 9007199254740991 1048576 o) (byte_limit o)
unfolding byte_limit
byte_limit-Reads none = reads 1048576 refl
byte_limit-Reads (some (Limit.natural m)) =
    Reads-bind (Reads-demand (leb 1 m && leb m 9007199254740991) JsonError.bad_limit)
      (λ _ e. reads m (ground (arith, e)))
byte_limit-Reads (some Limit.not_natural) = throws JsonError.bad_limit

json_depth_limit-Reads : (o : Option Limit) → Reads (InForce 0 32 32 o) (json_depth_limit o)
unfolding json_depth_limit
json_depth_limit-Reads none = reads 32 refl
json_depth_limit-Reads (some (Limit.natural m)) =
    Reads-bind (Reads-demand (leb m 32) JsonError.bad_limit) (λ _ e. reads m (ground (arith, e)))
json_depth_limit-Reads (some Limit.not_natural) = throws JsonError.bad_limit

module _ {V : Type 0} (runtime : Runtime V) where
  abbrev Document : ℕ → Text → Type 0
  Document max_depth s = IsDocument (runtime.decode) (runtime.is_finite) max_depth s

  parse_text-Reads :
      (max_depth : ℕ) (s : Text)
      → Reads
          (λ v. Document max_depth s × (v ≡ runtime.json_parse s))
          (parse_text runtime max_depth s)
  unfolding parse_text
  parse_text-Reads max_depth s =
      Reads-bind
        (scan_value-Reads (runtime.decode) (runtime.is_finite) max_depth (fuel_of runtime s) 0 s
          (omega arith))
        (λ rest (value, e, hv).
          Reads-bind (Reads-demand (is_empty (skip_space rest)) JsonError.invalid) (λ _ nothing.
            let (w, f, hw) = skip_space-Leaves rest in
            let g =
              f
              ∙ ap (λ (t : Text). w ++ t) ((is_empty_iff (skip_space rest)).0 nothing)
              ∙ append-nil w in
            reads (runtime.json_parse s) (
              subst (Document max_depth) (sym (e ∙ ap (λ (t : Text). value ++ t) g))
                  (IsDocument.document hv hw),
              refl,
            )))

  -- What a value that `parse_strict_json` returns shows of the input and the options.
  pub record Accepted (input : Input) (options : StrictJsonOptions) (v : V) : Type 0 where
    pub text : Text
    pub max_bytes : ℕ
    pub max_depth : ℕ
    pub is_text : input_text runtime input ≡ read text
    pub bytes_in_force : InForce 1 9007199254740991 1048576 (options.max_bytes) max_bytes
    pub depth_in_force : InForce 0 32 32 (options.max_depth) max_depth
    pub fits : input_bytes runtime input ≤ max_bytes
    pub is_document : Document max_depth text
    pub parsed : v ≡ runtime.json_parse text

  input_text-Reads :
      (input : Input) → Reads (λ s. input_text runtime input ≡ read s) (input_text runtime input)
  input_text-Reads (Input.string s) = elim (Bool-cases (is_well_formed s)) [
    | inl e ↦ rw (e) (reads s refl)
    | inr e ↦ rw (e) (throws JsonError.unpaired_surrogate)
  ]
  input_text-Reads (Input.bytes b) = elim (Option-cases (runtime.utf8 b)) [
    | inl e ↦ rw (e, input_text) (throws JsonError.not_utf8)
    | inr (s, e) ↦ rw (e, input_text) (reads s refl)
  ]

  parse_strict_json-Reads :
      (input : Input) (options : StrictJsonOptions)
      → Reads (Accepted input options) (parse_strict_json runtime input options)
  unfolding parse_strict_json
  parse_strict_json-Reads input options =
      Reads-bind (byte_limit-Reads (options.max_bytes)) (λ most hb.
        Reads-bind (json_depth_limit-Reads (options.max_depth)) (λ deepest hd.
          Reads-bind (Reads-demand (leb (input_bytes runtime input) most) JsonError.too_long)
            (λ _ fits. Reads-bind (input_text-Reads input) (λ s hs.
              Reads-map (parse_text-Reads deepest s) (λ v (doc, e). record {
                text = s;
                max_bytes = most;
                max_depth = deepest;
                is_text = hs;
                bytes_in_force = hb;
                depth_in_force = hd;
                fits = leb→le (input_bytes runtime input) most fits;
                is_document = doc;
                parsed = e;
              })))))

  -- What `parseStrictJson` returns is `JSON.parse` of the input's text, and that text is a document
  -- of strict JSON: nested no deeper than the limit in force, with no key twice in an object, with
  -- finite numbers and without unpaired surrogates in its strings; the input has no more bytes than
  -- the limit in force. A limit that is not given is 1 MiB or 32 levels, one that is given is from
  -- 1 to 2^53 - 1, or from 0 to 32.
  pub parse_strict_json-Accepted :
      (input : Input) (options : StrictJsonOptions) (v : V)
      → parse_strict_json runtime input options ≡ read v
      → Accepted input options v
  parse_strict_json-Accepted input options v e =
      Reads-read (parse_strict_json-Reads input options) e

  -- `parseStrictJson` always ends: the fuel of the model, two steps for each unit of the text and
  -- one more, is never used up, whatever the input.
  pub parse_strict_json-ends :
      (input : Input) (options : StrictJsonOptions)
      → parse_strict_json runtime input options ≢ out_of_fuel
  parse_strict_json-ends input options = Reads-out_of_fuel (parse_strict_json-Reads input options)
