-- ===== src/Assurance/Labels.antt =====
-- packages/core/src/assurance-flow-labels.ts, with ProvenanceLabelSchema of
-- packages/schema/src/assurance.ts: where data comes from and who may see it. Product has
-- the labels of files, Flow the order of labels, Lattice the join as a least upper bound.
pub mod Flow
pub mod Bounds
pub mod Lattice
pub mod Product
pub mod Origins
pub mod Parts
pub mod Explained
pub mod Disclosure
mod Tests
use legion_cli.Prelude.{
  ◌≡◌, Bool, true, false, not, ◌&&◌, ◌||◌, ℕ, zero, suc, ◌+◌, ◌-◌, ◌*◌, ◌/◌, ◌%◌, ◌^◌, Option, none,
  some, List, [], ◌∷◌, ◌++◌, length, any, contains, is_empty, ltb, leb, ◌==◌, nat_eq, list_eq,
  option_eq, if◌then◌else◌,
}
use legion_cli.Text.{Text, codes, sort_texts}
use legion_cli.Attempt.{Attempt, returned, thrown, ◌>>=◌}
use legion_cli.Json.Canonical.{CanonicalError}

pub data Integrity : Type 0 where
  approved untrusted : Integrity

pub data Confidentiality : Type 0 where
  public workspace sealed : Confidentiality

pub record ProvenanceLabel : Type 0 where
  pub origins : List Text
  pub integrity : Integrity
  pub confidentiality : Confidentiality

pub data LabelError : Type 0 where
  origin_exceeds_bound join_exceeds_bound : LabelError
  canonical : CanonicalError → LabelError

abbrev pub max_origins : ℕ
max_origins = 256

abbrev pub max_origin_length : ℕ
max_origin_length = 64

-- `alphabet[i]`
abbrev pub character_at : Text → ℕ → Text
character_at [] i = codes "undefined"
character_at (c ∷ s) zero = c ∷ []
character_at (c ∷ s) (suc i) = character_at s i

abbrev pub alphabet : Text
alphabet = codes "abcdefghijklmnopqrstuvwxyz234567"

-- The `while` loop of `base32`, on fuel; the accumulator is a word of 32 bits.
unfoldable pub drain : ℕ → ℕ → ℕ → Text → ℕ × Text
drain zero bits accumulator result = (bits, result)
drain (suc fuel) bits accumulator result = elim (leb 5 bits) [
  | true ↦
      drain fuel (bits - 5) accumulator
        (result ++ character_at alphabet ((accumulator / 2 ^ (bits - 5)) % 32))
  | false ↦ (bits, result)
]

-- What stands after the loop over the bytes.
abbrev pub last_group : ℕ → ℕ → Text → Text
last_group bits accumulator result =
    if ltb 0 bits
    then result ++ character_at alphabet ((accumulator * 2 ^ (5 - bits)) % 2 ^ 32 % 32)
    else result

-- The loop over the bytes. A byte leaves fewer than 5 bits behind, so the number of bits is fuel
-- enough for the loop inside.
unfoldable pub base32_from : ℕ → ℕ → Text → List ℕ → Text
unfolding drain
base32_from bits accumulator result [] = last_group bits accumulator result
base32_from bits accumulator result (byte ∷ bytes) =
    let next = accumulator * 2 ^ 8 % 2 ^ 32 + byte in
    let (left, grown) = drain (bits + 8) (bits + 8) next result in base32_from left next grown bytes

unfoldable pub base32 : List ℕ → Text
unfolding base32_from
base32 bytes = base32_from 0 0 [] bytes

abbrev pub confidentiality_rank : Confidentiality → ℕ
confidentiality_rank public = 0
confidentiality_rank workspace = 1
confidentiality_rank sealed = 2

-- `origins.add(origin)`
abbrev pub add_origin : List Text → Text → List Text
add_origin origins origin = if contains origins origin then origins else origins ++ origin ∷ []

-- The loop over the origins of one label.
unfoldable pub add_origins : List Text → List Text → Attempt LabelError (List Text)
add_origins origins [] = returned origins
add_origins origins (o ∷ os) = elim (ltb max_origins (length (add_origin origins o))) [
  | true ↦ thrown LabelError.join_exceeds_bound
  | false ↦ add_origins (add_origin origins o) os
]

abbrev pub join_integrity : Integrity → Integrity → Integrity
join_integrity integrity untrusted = untrusted
join_integrity integrity approved = integrity

abbrev pub join_confidentiality : Confidentiality → Confidentiality → Confidentiality
join_confidentiality confidentiality label =
    if ltb (confidentiality_rank confidentiality) (confidentiality_rank label)
    then label
    else confidentiality

-- The loop over the labels, from what the three variables hold.
unfoldable pub join_from :
    ProvenanceLabel → List ProvenanceLabel → Attempt LabelError ProvenanceLabel
unfolding add_origins
join_from held [] = returned held
join_from held (label ∷ labels) = add_origins held.origins label.origins >>= λ origins.
    join_from
      (record {
        origins = origins;
        integrity = join_integrity held.integrity label.integrity;
        confidentiality = join_confidentiality held.confidentiality label.confidentiality;
      })
      labels

abbrev pub bottom : ProvenanceLabel
bottom = record { origins = []; integrity = approved; confidentiality = public }

unfoldable pub join_labels : List ProvenanceLabel → Attempt LabelError ProvenanceLabel
unfolding join_from sort_texts
join_labels labels =
    join_from bottom labels >>= λ held. returned (record held { origins = sort_texts held.origins })

unfoldable pub remote_response_label :
    ProvenanceLabel → ProvenanceLabel → Text → Attempt LabelError ProvenanceLabel
unfolding join_labels
remote_response_label request control remote_origin = join_labels (
    request
    ∷ control
    ∷ record { origins = remote_origin ∷ []; integrity = untrusted; confidentiality = sealed }
    ∷ [])

abbrev pub is_sealed : ProvenanceLabel → Bool
is_sealed label = elim label.confidentiality [ sealed ↦ true | _ ↦ false ]

abbrev pub is_public : ProvenanceLabel → Bool
is_public label = elim label.confidentiality [ public ↦ true | _ ↦ false ]

-- `releaseOrigins` is `none` where it is undefined.
unfoldable pub disclosure_label : ProvenanceLabel → Option (List Text) → ProvenanceLabel
disclosure_label label none = label
disclosure_label label (some release_origins) =
    if is_empty release_origins || is_public label
    then label
    else if any (λ origin. not (contains release_origins origin)) label.origins
    then label
    else record label { confidentiality = public }
