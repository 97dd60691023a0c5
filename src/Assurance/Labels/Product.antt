-- ===== src/Assurance/Labels/Product.antt =====
-- `namespacedOrigin`, `canonicalDigest` and `labelProductBytes` of
-- packages/core/src/assurance-flow-labels.ts. SHA-256, `toLowerCase` and JSON.stringify are
-- parameters.
use legion_cli.Prelude.{
  Bool, false, not, ◌&&◌, ℕ, Option, none, some, List, [], ◌∷◌, ◌++◌, length, ltb, ◌==◌, nat_eq,
  list_eq, option_eq, if◌then◌else◌,
}
use legion_cli.Text.{Text, codes}
use legion_cli.Attempt.{Attempt, returned, thrown, ◌>>=◌}
use legion_cli.Paths.{normalize_path_key}
use legion_cli.Json.Canonical.{
  Stringify, Value, Members, CanonicalError, CanonicalJsonOptions, canonical_json,
}
use legion_cli.Assurance.Labels.{
  ProvenanceLabel, Confidentiality, LabelError, max_origin_length, base32, join_labels, sealed,
  untrusted,
}

pub data Namespace : Type 0 where
  file remote : Namespace

abbrev pub namespace_name : Namespace → Text
namespace_name Namespace.file = codes "file"
namespace_name Namespace.remote = codes "remote"

pub record PolicySource : Type 0 where
  pub id : Text
  pub path : Text
  pub classification : Confidentiality

pub record BaselineSource : Type 0 where
  pub path : Text
  pub sha256 : Option Text

pub record Generated : Type 0 where
  pub sha256 : Text
  pub label : ProvenanceLabel

pub record ProductBytesLabelInput : Type 0 where
  pub policy_sources : List PolicySource
  pub baseline_sources : List BaselineSource
  pub generated : Option Generated
  pub path : Text
  pub digest : Option Text

-- `Array.prototype.find`
abbrev pub find : {A : Type 0} → (A → Bool) → List A → Option A
find p [] = none
find p (x ∷ xs) = if p x then some x else find p xs

-- What canonicalJson throws is thrown on.
abbrev pub canonical_text : Attempt CanonicalError Text → Attempt LabelError Text
canonical_text (returned text) = returned text
canonical_text (thrown e) = thrown (LabelError.canonical e)

-- SHA-256 of the UTF-8 bytes of a text, as bytes and as hexadecimal digits.
pub record Sha256 : Type 0 where
  pub digest_bytes : Text → List ℕ
  pub digest_hex : Text → Text

abbrev pub default_options : CanonicalJsonOptions
default_options = record { max_depth = none; omit_undefined_object_values = false }

module _ (runtime : Stringify) (sha : Sha256) where
  unfoldable pub canonical_digest : Text → Value runtime.Number → Attempt LabelError Text
  unfolding canonical_json
  canonical_digest domain value =
      canonical_text (canonical_json runtime default_options value) >>= λ text.
      returned (sha.digest_hex (domain ++ 0 ∷ text))

  unfoldable pub namespaced_origin : Namespace → Value runtime.Number → Attempt LabelError Text
  unfolding canonical_json base32
  namespaced_origin namespace descriptor =
      canonical_text (canonical_json runtime default_options descriptor) >>= λ text.
      let domain =
        codes "legion-cli-" ++ namespace_name namespace ++ codes "-origin/v1" ++ 0 ∷ [] in
      let origin = namespace_name namespace ++ b'-' ∷ base32 (sha.digest_bytes (domain ++ text)) in
      if ltb max_origin_length (length origin)
      then thrown LabelError.origin_exceeds_bound
      else returned origin

  -- `{ sourceId, path }`
  abbrev pub source_descriptor : Text → Text → Value runtime.Number
  source_descriptor source_id path = Value.object (
      Members.member (codes "sourceId") (Value.string source_id)
        (Members.member (codes "path") (Value.string path) Members.no_members))

  abbrev pub file_label : Text → Text → Confidentiality → Attempt LabelError ProvenanceLabel
  file_label source_id path confidentiality =
      namespaced_origin Namespace.file (source_descriptor source_id path) >>= λ origin.
      returned
        (record { origins = origin ∷ []; integrity = untrusted; confidentiality = confidentiality })

  module _ (lower : Text → Text) where
    abbrev pub policy_of : ProductBytesLabelInput → Option PolicySource
    policy_of input =
        find (λ source. normalize_path_key lower source.path == normalize_path_key lower input.path)
          input.policy_sources

    abbrev pub generated_matches : ProductBytesLabelInput → Bool
    generated_matches input = elim input.generated [
      | none ↦ false
      | some g ↦ some g.sha256 == input.digest
    ]

    -- `baseline?.sha256 === input.digest`
    abbrev pub baseline_matches : ProductBytesLabelInput → Bool
    baseline_matches input =
        elim (find
          (λ source. normalize_path_key lower source.path == normalize_path_key lower input.path)
          input.baseline_sources) [ none ↦ false | some baseline ↦ baseline.sha256 == input.digest ]

    -- The label of the path's own bytes, if they get one.
    unfoldable pub classified : ProductBytesLabelInput → Attempt LabelError (List ProvenanceLabel)
    unfolding namespaced_origin
    classified input = elim (policy_of input) [
      | some policy ↦
          file_label policy.id input.path policy.classification >>= λ l. returned (l ∷ [])
      | none ↦
          if generated_matches input
          then returned []
          else (file_label (codes "unclassified") input.path sealed >>= λ l. returned (l ∷ []))
    ]

    abbrev pub provenance : ProductBytesLabelInput → List ProvenanceLabel
    provenance input = elim input.generated [ none ↦ [] | some g ↦ g.label ∷ [] ]

    -- The label of bytes that neither the baseline nor the generated provenance explains.
    unfoldable pub unexplained : ProductBytesLabelInput → Attempt LabelError (List ProvenanceLabel)
    unfolding namespaced_origin
    unexplained input =
        if not (baseline_matches input) && not (generated_matches input)
        then (file_label (codes "unexplained-change") input.path sealed >>= λ l. returned (l ∷ []))
        else returned []

    unfoldable pub label_product_bytes : ProductBytesLabelInput → Attempt LabelError ProvenanceLabel
    unfolding classified unexplained join_labels
    label_product_bytes input = classified input >>= λ own. unexplained input >>= λ change.
        join_labels (own ++ provenance input ++ change) >>= λ label.
        returned (record label { integrity = untrusted })
