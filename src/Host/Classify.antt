-- ===== src/Host/Classify.antt =====
-- `embeddedIpv4`, `isPrivateIPv6` and `isPrivateOrLocalHost`.
use legion_cli.Prelude.{
  ℕ, ◌/◌, ◌%◌, Bool, true, false, not, ◌&&◌, ◌||◌, Option, none, some, List, [], ◌∷◌, reverse, ◌==◌,
  nat_eq, list_eq, contains, if◌then◌else◌,
}
use legion_cli.Text.{Text, codes, starts_with}
use legion_cli.Host.Ipv4.{is_private_ipv4}
use legion_cli.Host.Literals.{Octets, ipv4_octets, normalize_host, ipv6_words}

abbrev pub hextets_to_ipv4 : ℕ → ℕ → Octets
hextets_to_ipv4 hi lo = record {
  first = hi / 256 % 256;
  second = hi % 256;
  third = lo / 256 % 256;
  fourth = lo % 256;
}

abbrev pub private_octets : Octets → Bool
private_octets o = is_private_ipv4 o.first o.second o.third o.fourth

-- The words are eight whenever there are any, so the other lists stand for nothing.
unfoldable pub embedded_in : List ℕ → Option Octets
embedded_in (w0 ∷ w1 ∷ w2 ∷ w3 ∷ w4 ∷ w5 ∷ w6 ∷ w7 ∷ []) =
    if not (w0 == 0 && w1 == 0 && w2 == 0 && w3 == 0 && w4 == 0)
    then none
    else if not (w5 == 0xffff) && not (w5 == 0)
    then none
    else some (hextets_to_ipv4 w6 w7)
embedded_in _ = none

-- `w & 0xffc0` and the like keep the upper bits.
unfoldable pub private_words : List ℕ → Bool
private_words (w0 ∷ w1 ∷ w2 ∷ w3 ∷ w4 ∷ w5 ∷ w6 ∷ w7 ∷ []) =
    if w0 == 0 && w1 == 0 && w2 == 0 && w3 == 0 && w4 == 0xffff && w5 == 0
    then private_octets (hextets_to_ipv4 w6 w7)
    else if w0 == 0
        && w1 == 0
        && w2 == 0
        && w3 == 0
        && w4 == 0
        && w5 == 0
        && w6 == 0
        && (w7 == 0 || w7 == 1)
    then true
    else if w0 / 64 == 0xfe80 / 64
    then true
    else if w0 / 64 == 0xfec0 / 64
    then true
    else if w0 == 0x2001 && w1 == 0x0db8
    then true
    else if w0 / 512 == 0xfc00 / 512
    then true
    else if w0 / 256 == 0xff00 / 256
    then true
    else if w0 == 0x64 && w1 == 0xff9b && w2 == 0 && w3 == 0 && w4 == 0 && w5 == 0
    then true
    else w0 == 0x2002
private_words _ = false

abbrev ends_with : Text → Text → Bool
ends_with end s = starts_with (reverse end) (reverse s)

abbrev pub is_local_name : Text → Bool
is_local_name host =
    contains (codes "localhost" ∷ codes "metadata.google.internal" ∷ []) host
    || ends_with (codes ".localhost") host
    || ends_with (codes ".local") host

-- `lower` is `toLowerCase`, `number` is `Number(·)` where that is a natural number.
module _ (lower : Text → Text) (number : Text → Option ℕ) where
  unfoldable pub embedded_ipv4 : Text → Option Octets
  unfolding ipv6_words embedded_in
  embedded_ipv4 host = elim (ipv6_words lower number host) [
    | none ↦ none
    | some words ↦ embedded_in words
  ]

  -- A literal with a colon: private if it cannot be read.
  unfoldable pub private_literal : Text → Bool
  unfolding ipv6_words private_words
  private_literal host = elim (ipv6_words lower number host) [
    | none ↦ true
    | some words ↦ private_words words
  ]

  abbrev pub classify_rest : Text → Bool
  classify_rest host = elim (ipv4_octets number host) [
    | some o ↦ private_octets o
    | none ↦ if contains host b':' then private_literal host else false
  ]

  abbrev pub classify : Text → Bool
  classify host = elim (embedded_ipv4 host) [
    | some o ↦ private_octets o
    | none ↦ classify_rest host
  ]

  unfoldable pub is_private_or_local_host : Text → Bool
  unfolding normalize_host
  is_private_or_local_host hostname =
      let host = normalize_host lower hostname in if is_local_name host then true else classify host
