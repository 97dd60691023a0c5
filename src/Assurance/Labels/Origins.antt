-- ===== src/Assurance/Labels/Origins.antt =====
-- The names of origins fit the bound: base 32 writes 52 characters for a digest of 32 bytes.
use legion_cli.Prelude.{
  ◌≡◌, ◌≤◌, ◌<◌, ◌+◌, ◌-◌, ◌*◌, ◌/◌, ◌%◌, ◌^◌, inl, inr, refl, false, ℕ, zero, suc, List, [], ◌∷◌,
  ◌++◌, length, length-append, ltb, leb, arith, Bool-cases,
}
use legion_cli.Text.{Text, codes}
use legion_cli.Attempt.{returned}
use legion_cli.Json.Canonical.{Stringify, Value, canonical_json}
use legion_cli.Assurance.Labels.{
  character_at, alphabet, drain, last_group, base32_from, base32, max_origin_length,
}
use legion_cli.Assurance.Labels.Product.{
  Sha256, Namespace, namespace_name, namespaced_origin, default_options,
}

length-character_at : (s : Text) (i : ℕ) → i < length s → length (character_at s i) ≡ 1
length-character_at [] i h = absurd (omega arith)
length-character_at (c ∷ s) zero h = refl
length-character_at (c ∷ s) (suc i) h = length-character_at s i (omega arith)

length-letter : (x : ℕ) → length (character_at alphabet (x % 32)) ≡ 1
length-letter x = length-character_at alphabet (x % 32) (omega arith)

-- The bits that are left, and those that the result took.
Drained : ℕ → Text → ℕ × Text → Type 0
Drained bits result (left, grown) =
    (5 * length grown + left ≡ 5 * length result + bits) × (left < 5)

drain-Drained :
    (fuel bits accumulator : ℕ) (result : Text)
    → bits ≤ fuel
    → Drained bits result (drain fuel bits accumulator result)
unfolding drain Drained
drain-Drained zero bits accumulator result h = (refl, omega arith)
drain-Drained (suc fuel) bits accumulator result h = elim (Bool-cases (leb 5 bits)) [
  | inr few ↦ rw (few, drain) (refl, ground arith)
  | inl many ↦
      rw (many, drain)
        (let letter = length-letter (accumulator / 2 ^ (bits - 5)) in
          let more =
            length-append result (character_at alphabet ((accumulator / 2 ^ (bits - 5)) % 32)) in
          let (total, few) =
            drain-Drained fuel (bits - 5) accumulator
              (result ++ character_at alphabet ((accumulator / 2 ^ (bits - 5)) % 32))
              (ground arith) in
          (ground arith, few))
]

length-last_group :
    (bits accumulator : ℕ) (result : Text)
    → 5 * length (last_group bits accumulator result) ≤ 5 * length result + bits + 4
length-last_group bits accumulator result =
    let letter = length-letter ((accumulator * 2 ^ (5 - bits)) % 2 ^ 32) in
    let more =
      length-append result (character_at alphabet ((accumulator * 2 ^ (5 - bits)) % 2 ^ 32 % 32)) in
    elim (Bool-cases (ltb 0 bits)) [ inl h ↦ rw h (ground arith) | inr h ↦ rw h (ground arith) ]

length-base32_from :
    (bits accumulator : ℕ) (result : Text) (bytes : List ℕ)
    → 5 * length (base32_from bits accumulator result bytes)
      ≤ 5 * length result + bits + 8 * length bytes + 4
unfolding base32_from Drained
length-base32_from bits accumulator result [] =
    let last = length-last_group bits accumulator result in omega arith
length-base32_from bits accumulator result (byte ∷ bytes) =
    let next = accumulator * 2 ^ 8 % 2 ^ 32 + byte in
    let drained = drain (bits + 8) (bits + 8) next result in
    let (total, few) = drain-Drained (bits + 8) (bits + 8) next result (omega arith) in
    let rest = length-base32_from drained.0 next drained.1 bytes in omega arith

length-base32 : (bytes : List ℕ) → 5 * length (base32 bytes) ≤ 8 * length bytes + 4
unfolding base32
length-base32 bytes = let h = length-base32_from 0 0 [] bytes in omega arith

length-namespace_name : (n : Namespace) → length (namespace_name n) ≤ 6
length-namespace_name Namespace.file = omega arith
length-namespace_name Namespace.remote = omega arith

-- A digest of 32 bytes gives an origin within the bound.
pub namespaced_origin-returned :
    (runtime : Stringify) (sha : Sha256)
    → ((t : Text) → length (sha.digest_bytes t) ≡ 32)
    → (namespace : Namespace) (descriptor : Value runtime.Number) (text : Text)
    → canonical_json runtime default_options descriptor ≡ returned text
    → (origin : Text) × (namespaced_origin runtime sha namespace descriptor ≡ returned origin)
unfolding namespaced_origin
namespaced_origin-returned runtime sha bytes namespace descriptor text e =
    let domain = codes "legion-cli-" ++ namespace_name namespace ++ codes "-origin/v1" ++ 0 ∷ [] in
    let digest = sha.digest_bytes (domain ++ text) in
    let origin = namespace_name namespace ++ b'-' ∷ base32 digest in
    let short = length-base32 digest in
    let size = bytes (domain ++ text) in
    let name = length-namespace_name namespace in
    let whole = length-append (namespace_name namespace) (b'-' ∷ base32 digest) in
    let within : ltb max_origin_length (length origin) ≡ false = ground arith in
    (origin, rw (e, namespaced_origin) (rw within refl))
