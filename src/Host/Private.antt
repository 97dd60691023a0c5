-- ===== src/Host/Private.antt =====
-- Mapped, compatible, translated and dotted addresses of a private block, and the classifier.
use legion_cli.Prelude.{
  ℕ, ◌+◌, ◌*◌, ◌<◌, ◌≡◌, ◌⊎◌, inl, inr, refl, sym, ◌∙◌, ap, ◌||◌, Bool-cases, Option-cases, Bool,
  true, false, Option, none, some, List, [], ◌∷◌, Memᴰ, nat_eq, any, contains, if◌then◌else◌, arith,
}
use legion_cli.Text.{Text}
use legion_cli.Host.Ipv4.{address, in_block, private_blocks, is_private_ipv4-blocks}
use legion_cli.Host.Literals.{Octets, ipv4_octets, normalize_host, ipv6_words}
use legion_cli.Host.Words.{InRange, IsAddress, ipv4_octets-InRange, ipv6_words-IsAddress}
use legion_cli.Host.Colons.{KeepsColons, ipv4_octets-Lacks, ipv6_words-Lacks}
use legion_cli.Host.Classify.{
  hextets_to_ipv4, private_octets, embedded_in, private_words, embedded_ipv4, private_literal,
  classify_rest, classify, is_local_name, is_private_or_local_host,
}

abbrev octets_address : Octets → ℕ
octets_address o = address o.first o.second o.third o.fourth

-- Whether the address is in a private block.
abbrev pub in_private_block : ℕ → Bool
in_private_block n = any (in_block n) private_blocks

-- The host is read as an IPv4 address: in eight words whose first five are zero, mapped or compatible;
-- in eight words that translate it; or in four octets.
pub data Denotes (lower : Text → Text) (number : Text → Option ℕ) (host : Text) (n : ℕ)
    : Type 0 where
  mapped :
      (w hi lo : ℕ)
      → ipv6_words lower number host ≡ some (0 ∷ 0 ∷ 0 ∷ 0 ∷ 0 ∷ w ∷ hi ∷ lo ∷ [])
      → (w ≡ 0xffff) ⊎ (w ≡ 0)
      → n ≡ hi * 65536 + lo
      → Denotes lower number host n
  translated :
      (hi lo : ℕ)
      → ipv6_words lower number host ≡ some (0 ∷ 0 ∷ 0 ∷ 0 ∷ 0xffff ∷ 0 ∷ hi ∷ lo ∷ [])
      → n ≡ hi * 65536 + lo
      → Denotes lower number host n
  dotted :
      (o : Octets)
      → ipv4_octets number host ≡ some o
      → n ≡ octets_address o
      → Denotes lower number host n

octets-blocks : (o : Octets) → InRange o → private_octets o ≡ in_private_block (octets_address o)
octets-blocks o (ha, hb, hc, hd) =
    is_private_ipv4-blocks o.first o.second o.third o.fourth ha hb hc hd

hextets-InRange : (hi lo : ℕ) → InRange (hextets_to_ipv4 hi lo)
hextets-InRange hi lo = (omega arith, omega arith, omega arith, omega arith)

hextets-address :
    (hi lo : ℕ) → hi < 65536 → lo < 65536 → octets_address (hextets_to_ipv4 hi lo) ≡ hi * 65536 + lo
hextets-address hi lo h l = omega (arith, h, l)

hextets-blocks :
    (n hi lo : ℕ)
    → n ≡ hi * 65536 + lo
    → hi < 65536
    → lo < 65536
    → private_octets (hextets_to_ipv4 hi lo) ≡ in_private_block n
hextets-blocks n hi lo f h l =
    octets-blocks (hextets_to_ipv4 hi lo) (hextets-InRange hi lo)
    ∙ ap in_private_block (hextets-address hi lo h l ∙ sym f)

last_words :
    (a b c d e f hi lo : ℕ)
    → IsAddress (a ∷ b ∷ c ∷ d ∷ e ∷ f ∷ hi ∷ lo ∷ [])
    → (hi < 65536) × (lo < 65536)
last_words a b c d e f hi lo w = (
  w.small hi
      (Memᴰ.tail (Memᴰ.tail (Memᴰ.tail (Memᴰ.tail (Memᴰ.tail (Memᴰ.tail (Memᴰ.head refl))))))),
  w.small lo (
      Memᴰ.tail
        (Memᴰ.tail (Memᴰ.tail (Memᴰ.tail (Memᴰ.tail (Memᴰ.tail (Memᴰ.tail (Memᴰ.head refl)))))))),
)

embedded-mapped :
    (w hi lo : ℕ)
    → (w ≡ 0xffff) ⊎ (w ≡ 0)
    → embedded_in (0 ∷ 0 ∷ 0 ∷ 0 ∷ 0 ∷ w ∷ hi ∷ lo ∷ []) ≡ some (hextets_to_ipv4 hi lo)
unfolding embedded_in
embedded-mapped w hi lo (inl e) = rw (e, embedded_in) refl
embedded-mapped w hi lo (inr e) = rw (e, embedded_in) refl

either_true : (b c : Bool) → (if b then true else c) ≡ b || c
either_true true c = refl
either_true false c = refl

module _ (lower : Text → Text) (number : Text → Option ℕ) where
  embedded-words :
      (host : Text) (words : List ℕ)
      → ipv6_words lower number host ≡ some words
      → embedded_ipv4 lower number host ≡ embedded_in words
  unfolding embedded_ipv4
  embedded-words host words e = rw (e, embedded_ipv4) refl

  literal-words :
      (host : Text) (words : List ℕ)
      → ipv6_words lower number host ≡ some words
      → private_literal lower number host ≡ private_words words
  unfolding private_literal
  literal-words host words e = rw (e, private_literal) refl

  classify-embedded :
      (host : Text) (o : Octets)
      → embedded_ipv4 lower number host ≡ some o
      → classify lower number host ≡ private_octets o
  classify-embedded host o e = rw (e, classify) refl

  classify-rest :
      (host : Text)
      → embedded_ipv4 lower number host ≡ none
      → classify lower number host ≡ classify_rest lower number host
  classify-rest host e = rw (e, classify) refl

  rest-octets :
      (host : Text) (o : Octets)
      → ipv4_octets number host ≡ some o
      → classify_rest lower number host ≡ private_octets o
  rest-octets host o e = rw (e, classify_rest) refl

  rest-literal :
      (host : Text)
      → ipv4_octets number host ≡ none
      → contains host b':' ≡ true
      → classify_rest lower number host ≡ private_literal lower number host
  rest-literal host e f = rw (e, f, classify_rest) refl

  translated-words :
      (hi lo : ℕ)
      → private_words (0 ∷ 0 ∷ 0 ∷ 0 ∷ 0xffff ∷ 0 ∷ hi ∷ lo ∷ [])
        ≡ private_octets (hextets_to_ipv4 hi lo)
  unfolding private_words
  translated-words hi lo = refl

  translated-embedded : (hi lo : ℕ) → embedded_in (0 ∷ 0 ∷ 0 ∷ 0 ∷ 0xffff ∷ 0 ∷ hi ∷ lo ∷ []) ≡ none
  unfolding embedded_in
  translated-embedded hi lo = refl

  embedded-none :
      (host : Text) → ipv6_words lower number host ≡ none → embedded_ipv4 lower number host ≡ none
  unfolding embedded_ipv4
  embedded-none host e = rw (e, embedded_ipv4) refl

  words-colon :
      (host : Text) (words : List ℕ)
      → KeepsColons lower number
      → ipv6_words lower number host ≡ some words
      → (contains host b':' ≡ true) × (ipv4_octets number host ≡ none)
  words-colon host words law e = (
    elim (Bool-cases (contains host b':')) [
      | inl colon ↦ colon
      | inr lacks ↦ let shut = ipv6_words-Lacks lower number law host lacks in cc
    ],
    elim (Option-cases (ipv4_octets number host)) [
      | inl nothing ↦ nothing
      | inr (o, f) ↦
          let lacks = ipv4_octets-Lacks lower number law host o f in
          let shut = ipv6_words-Lacks lower number law host lacks in cc
    ],
  )

  classify-blocks :
      (host : Text) (n : ℕ)
      → KeepsColons lower number
      → Denotes lower number host n
      → classify lower number host ≡ in_private_block n
  classify-blocks host n law (Denotes.mapped w hi lo f g k) =
      let words = 0 ∷ 0 ∷ 0 ∷ 0 ∷ 0 ∷ w ∷ hi ∷ lo ∷ [] in
      let (h, l) = last_words 0 0 0 0 0 w hi lo (ipv6_words-IsAddress lower number host words f) in
      classify-embedded host (hextets_to_ipv4 hi lo)
        (embedded-words host words f ∙ embedded-mapped w hi lo g)
      ∙ hextets-blocks n hi lo k h l
  classify-blocks host n law (Denotes.translated hi lo f k) =
      let words = 0 ∷ 0 ∷ 0 ∷ 0 ∷ 0xffff ∷ 0 ∷ hi ∷ lo ∷ [] in
      let (h, g) = words-colon host words law f in
      let (h', l) =
        last_words 0 0 0 0 0xffff 0 hi lo (ipv6_words-IsAddress lower number host words f) in
      classify-rest host (embedded-words host words f ∙ translated-embedded hi lo)
      ∙ rest-literal host g h
      ∙ literal-words host words f
      ∙ translated-words hi lo
      ∙ hextets-blocks n hi lo k h' l
  classify-blocks host n law (Denotes.dotted o g k) =
      let shut =
        ipv6_words-Lacks lower number law host (ipv4_octets-Lacks lower number law host o g) in
      classify-rest host (embedded-none host shut)
      ∙ rest-octets host o g
      ∙ octets-blocks o (ipv4_octets-InRange number host o g)
      ∙ ap in_private_block (sym k)

  -- Where lower case adds no colon and a text with a colon is not read as a number: a host that is read
  -- as an IPv4 address in one of these ways is refused exactly when it is a local name or the address is
  -- in a private block. It is read by the code's own readers, in eight words, the first five zero and
  -- the sixth 0xffff or zero (mapped or compatible), in eight words that start 0, 0, 0, 0, 0xffff, 0
  -- (translated), or in four octets.
  pub is_private_or_local_host-blocks :
      (hostname : Text) (n : ℕ)
      → KeepsColons lower number
      → Denotes lower number (normalize_host lower hostname) n
      → is_private_or_local_host lower number hostname
        ≡ is_local_name (normalize_host lower hostname) || in_private_block n
  unfolding is_private_or_local_host
  is_private_or_local_host-blocks hostname n law d =
      let host = normalize_host lower hostname in
      either_true (is_local_name host) (classify lower number host)
      ∙ ap (λ b. is_local_name host || b) (classify-blocks host n law d)
