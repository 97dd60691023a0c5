-- ===== src/Assurance/Labels/Tests.antt =====
-- Runs of the joins of labels, of base 32, and of the label of a file's bytes.
use legion_cli.Prelude.{◌≡◌, refl, true, none, some, ℕ, [], ◌∷◌, ◌++◌}
use legion_cli.Text.{codes, ascii_lower_case}
use legion_cli.Attempt.{returned}
use legion_cli.Json.Canonical.{Stringify}
use legion_cli.Assurance.Labels.{
  ProvenanceLabel, approved, untrusted, public, workspace, sealed, base32, join_labels,
  remote_response_label, disclosure_label,
}
use legion_cli.Assurance.Labels.Lattice.{Joined, join_labels-Joined}
use legion_cli.Assurance.Labels.Product.{Sha256, ProductBytesLabelInput, label_product_bytes}
use legion_cli.Assurance.Labels.Disclosure.{remote_response_label-disclosure_label}
use legion_cli.Prelude.{◌⊎◌, List, Memᴰ}
use legion_cli.Text.{Text}
use legion_cli.Assurance.Labels.Explained.{IsLabelled, label_product_bytes-IsLabelled}

foobar : base32 (codes "foobar") ≡ codes "mzxw6ytboi"
unfolding base32
foobar = refl

abbrev notes : ProvenanceLabel
notes = record {
  origins = codes "b" ∷ codes "a" ∷ [];
  integrity = approved;
  confidentiality = workspace;
}

abbrev page : ProvenanceLabel
page = record { origins = codes "b" ∷ []; integrity = untrusted; confidentiality = public }

abbrev both : ProvenanceLabel
both = record {
  origins = codes "a" ∷ codes "b" ∷ [];
  integrity = untrusted;
  confidentiality = workspace;
}

notes_and_page : join_labels (notes ∷ page ∷ []) ≡ returned both
unfolding join_labels
notes_and_page = refl

join_labels-Joined_example : Joined (notes ∷ page ∷ []) (join_labels (notes ∷ page ∷ []))
join_labels-Joined_example = join_labels-Joined (notes ∷ page ∷ [])

answer :
    remote_response_label notes page (codes "r")
    ≡ returned (record {
      origins = codes "a" ∷ codes "b" ∷ codes "r" ∷ [];
      integrity = untrusted;
      confidentiality = sealed;
    })
unfolding remote_response_label
answer = refl

released : disclosure_label notes (some (codes "a" ∷ codes "b" ∷ [])) ≡ record {
  origins = codes "b" ∷ codes "a" ∷ [];
  integrity = approved;
  confidentiality = public;
}
unfolding disclosure_label
released = refl

kept_back : disclosure_label notes (some (codes "a" ∷ [])) ≡ notes
unfolding disclosure_label
kept_back = refl

abbrev quoted : Stringify
quoted = record {
  Number = ℕ;
  is_finite = λ n. true;
  number_text = λ n. codes "1";
  string_text = λ s. b'"' ∷ s ++ b'"' ∷ [];
}

abbrev zeros : Sha256
zeros = record {
  digest_bytes = λ t. codes "0123456789abcdef0123456789abcdef";
  digest_hex = λ t. [];
}

abbrev declared : ProductBytesLabelInput
declared = record {
  policy_sources =
      record { id = codes "docs"; path = codes "docs/a.md"; classification = public } ∷ [];
  baseline_sources = record { path = codes "docs/a.md"; sha256 = some (codes "1") } ∷ [];
  generated = none;
  path = codes "docs/A.md";
  digest = some (codes "1");
}

label_product_bytes-IsLabelled_example :
    IsLabelled quoted zeros ascii_lower_case
      (λ t. refl)
      declared
      (label_product_bytes quoted zeros ascii_lower_case declared)
label_product_bytes-IsLabelled_example =
    label_product_bytes-IsLabelled quoted zeros ascii_lower_case (λ t. refl) declared

abbrev response : ProvenanceLabel
response = record {
  origins = codes "a" ∷ codes "b" ∷ codes "r" ∷ [];
  integrity = untrusted;
  confidentiality = sealed;
}

shown : (disclosure_label response (some response.origins)).confidentiality ≡ public
unfolding disclosure_label
shown = refl

remote_response_label-disclosure_label_example :
    (released : List Text) × (some response.origins ≡ some released)
    × ((x : Text)
        → Memᴰ x notes.origins ⊎ (Memᴰ x page.origins ⊎ (x ≡ codes "r"))
        → Memᴰ x released)
remote_response_label-disclosure_label_example =
    remote_response_label-disclosure_label notes page (codes "r") (some response.origins) response
      answer shown
