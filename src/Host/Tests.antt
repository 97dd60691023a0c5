-- ===== src/Host/Tests.antt =====
-- Hosts that are classified, and the witnesses of the theorems.
use legion_cli.Prelude.{
  ℕ, Bool, Bool-cases, inr, ◌==◌, ==_iff, nat_eq, contains, ◌+◌, ◌-◌, ◌*◌, ◌≡◌, inl, refl, true,
  false, ◌&&◌, ◌||◌, leb, Option, none, some, [], ◌∷◌, all, any, if◌then◌else◌, arith,
}
use legion_cli.Text.{Text, codes, ascii_lower_case}
use legion_cli.Host.Ipv4.{
  is_private_ipv4, address, in_block, private_blocks, is_private_ipv4-blocks,
}
use legion_cli.Host.Literals.{ipv6_words, normalize_host}
use legion_cli.Host.Words.{IsAddress, ipv6_words-IsAddress}
use legion_cli.Host.Classify.{
  is_local_name, is_private_or_local_host, embedded_ipv4, private_literal,
}
use legion_cli.Host.Colons.{KeepsColons}
use legion_cli.Host.Lacking.{Lacks, apart}
use legion_cli.Host.Private.{Denotes, in_private_block, is_private_or_local_host-blocks}

-- The decimal numbers among what `Number` reads; an empty text is 0.
abbrev decimal_from : ℕ → Text → ℕ
decimal_from n [] = n
decimal_from n (c ∷ s) = decimal_from (n * 10 + (c - b'0')) s

abbrev number : Text → Option ℕ
number s = if all (λ c. leb b'0' c && leb c b'9') s then some (decimal_from 0 s) else none

abbrev mapped_host : Text
mapped_host = codes "[::FFFF:8.8.4.4]"

loopback : is_private_or_local_host ascii_lower_case number (codes "[::ffff:127.0.0.1]") ≡ true
unfolding is_private_or_local_host embedded_ipv4 is_private_ipv4
loopback = refl

link_local : is_private_or_local_host ascii_lower_case number (codes "fe80::1%eth0") ≡ true
unfolding is_private_or_local_host embedded_ipv4 private_literal
link_local = refl

unreadable : is_private_or_local_host ascii_lower_case number (codes "1:2:3") ≡ true
unfolding is_private_or_local_host embedded_ipv4 private_literal
unreadable = refl

named : is_private_or_local_host ascii_lower_case number (codes "example.com") ≡ false
unfolding is_private_or_local_host embedded_ipv4
named = refl

mapped_public : is_private_or_local_host ascii_lower_case number mapped_host ≡ false
unfolding is_private_or_local_host embedded_ipv4 is_private_ipv4
mapped_public = refl

mapped_words :
    ipv6_words ascii_lower_case number (normalize_host ascii_lower_case mapped_host)
    ≡ some (0 ∷ 0 ∷ 0 ∷ 0 ∷ 0 ∷ 0xffff ∷ 0x808 ∷ 0x404 ∷ [])
unfolding ipv6_words
mapped_words = refl

is_private_ipv4-blocks_example :
    is_private_ipv4 172 20 1 9 ≡ any (in_block (address 172 20 1 9)) private_blocks
is_private_ipv4-blocks_example =
    is_private_ipv4-blocks 172 20 1 9 (omega arith) (omega arith) (omega arith) (omega arith)

ipv6_words-IsAddress_example : IsAddress (0 ∷ 0 ∷ 0 ∷ 0 ∷ 0 ∷ 0xffff ∷ 0x808 ∷ 0x404 ∷ [])
ipv6_words-IsAddress_example =
    ipv6_words-IsAddress ascii_lower_case number (normalize_host ascii_lower_case mapped_host)
      (0 ∷ 0 ∷ 0 ∷ 0 ∷ 0 ∷ 0xffff ∷ 0x808 ∷ 0x404 ∷ []) mapped_words

lower-Lacks : (s : Text) → Lacks s → Lacks (ascii_lower_case s)
lower-Lacks [] e = refl
lower-Lacks (c ∷ s) e =
    let (h, l) = apart (c == b':') (contains s b':') e in
    let here : ((if leb b'A' c && leb c b'Z' then c + 32 else c) == b':') ≡ false =
      ground (arith, ==_iff c b':', ==_iff (if leb b'A' c && leb c b'Z' then c + 32 else c) b':') in
    rw (here) (lower-Lacks s l)

both_hold : (a b : Bool) → a && b ≡ true → (a ≡ true) × (b ≡ true)
both_hold true b e = (refl, e)
both_hold false b e = cc

digits_lack : (s : Text) → all (λ c. leb b'0' c && leb c b'9') s ≡ true → Lacks s
digits_lack [] e = refl
digits_lack (c ∷ s) e =
    let (h, l) = both_hold (leb b'0' c && leb c b'9') _ e in
    let here : (c == b':') ≡ false = ground (arith, ==_iff c b':') in rw (here) (digits_lack s l)

number-Lacks : (s : Text) (n : ℕ) → number s ≡ some n → Lacks s
number-Lacks s n e = elim (Bool-cases (all (λ c. leb b'0' c && leb c b'9') s)) [
  | inl digits ↦ digits_lack s digits
  | inr other ↦ let impossible = rw (other, number) at e in cc
]

ascii-KeepsColons : KeepsColons ascii_lower_case number
ascii-KeepsColons = record { lower-adds_none = lower-Lacks; number-has_none = number-Lacks }

is_private_or_local_host-blocks_example :
    is_private_or_local_host ascii_lower_case number mapped_host
    ≡ is_local_name (normalize_host ascii_lower_case mapped_host)
      || in_private_block (0x808 * 65536 + 0x404)
is_private_or_local_host-blocks_example =
    is_private_or_local_host-blocks ascii_lower_case number mapped_host (0x808 * 65536 + 0x404)
      ascii-KeepsColons (Denotes.mapped 0xffff 0x808 0x404 mapped_words (inl refl) refl)
