-- ===== src/Host/Ipv4.antt =====
-- `isPrivateIPv4` against the blocks of addresses that its comments name.
use legion_cli.Prelude.{
  ℕ, ◌+◌, ◌*◌, ◌/◌, ◌<◌, ◌≡◌, refl, sym, ap, ◌∙◌, Bool, true, false, ◌&&◌, ◌||◌, List, [], ◌∷◌,
  ◌==◌, nat_eq, ==_iff, leb, any, if◌then◌else◌, arith,
}

-- `isPrivateIPv4` of four octets; the source reads the first three.
unfoldable pub is_private_ipv4 : ℕ → ℕ → ℕ → ℕ → Bool
is_private_ipv4 a b c d =
    if a == 10
    then true
    else if a == 127
    then true
    else if a == 0
    then true
    else if a == 169 && b == 254
    then true
    else if a == 172 && leb 16 b && leb b 31
    then true
    else if a == 192 && b == 168
    then true
    else if a == 100 && leb 64 b && leb b 127
    then true
    else if a == 192 && b == 0 && c == 0
    then true
    else if a == 192 && b == 0 && c == 2
    then true
    else if a == 198 && b == 51 && c == 100
    then true
    else if a == 203 && b == 0 && c == 113
    then true
    else if a == 192 && b == 88 && c == 99
    then true
    else if a == 198 && (b == 18 || b == 19)
    then true
    else leb 224 a

-- The number of 32 bits that four octets spell.
abbrev pub address : ℕ → ℕ → ℕ → ℕ → ℕ
address a b c d = ((a * 256 + b) * 256 + c) * 256 + d

-- A block of addresses: its first address, and two to the number of bits that are free in it.
pub record Block : Type 0 where
  pub first : ℕ
  pub size : ℕ

-- The address is one of the block's.
abbrev pub in_block : ℕ → Block → Bool
in_block n block = n / block.size == block.first / block.size

-- A block as it is written, with the bits that are free in place of the bits that are not.
abbrev block : ℕ → ℕ → ℕ → ℕ → Block
block a b c size = record { first = address a b c 0; size = size }

-- 10/8, 127/8, 0/8, 169.254/16, 172.16/12, 192.168/16, 100.64/10, 192.0.0/24, 192.0.2/24,
-- 198.51.100/24, 203.0.113/24, 192.88.99/24, 198.18/15, 224/4 and 240/4.
abbrev pub private_blocks : List Block
private_blocks =
    block 10 0 0 16777216
    ∷ block 127 0 0 16777216
    ∷ block 0 0 0 16777216
    ∷ block 169 254 0 65536
    ∷ block 172 16 0 1048576
    ∷ block 192 168 0 65536
    ∷ block 100 64 0 4194304
    ∷ block 192 0 0 256
    ∷ block 192 0 2 256
    ∷ block 198 51 100 256
    ∷ block 203 0 113 256
    ∷ block 192 88 99 256
    ∷ block 198 18 0 131072
    ∷ block 224 0 0 268435456
    ∷ block 240 0 0 268435456
    ∷ []

-- The quotients of an address by the sizes of the blocks.
module _ (a b c d : ℕ) (hb : b < 256) (hc : c < 256) (hd : d < 256) where
  by_8 : address a b c d / 16777216 ≡ a
  by_8 = omega (arith, hb, hc, hd)

  by_16 : address a b c d / 65536 ≡ a * 256 + b
  by_16 = omega (arith, hb, hc, hd)

  by_24 : address a b c d / 256 ≡ (a * 256 + b) * 256 + c
  by_24 = omega (arith, hb, hc, hd)

  by_12 : address a b c d / 1048576 ≡ a * 16 + b / 16
  by_12 = omega (arith, hb, hc, hd)

  by_10 : address a b c d / 4194304 ≡ a * 4 + b / 64
  by_10 = omega (arith, hb, hc, hd)

  by_15 : address a b c d / 131072 ≡ a * 128 + b / 2
  by_15 = omega (arith, hb, hc, hd)

  by_4 : address a b c d / 268435456 ≡ a / 16
  by_4 = omega (arith, hb, hc, hd)

same : (x y : Bool) → (x ≡ true → y ≡ true) → (y ≡ true → x ≡ true) → x ≡ y
same true true f g = refl
same true false f g = sym (f refl)
same false true f g = g refl
same false false f g = refl

chain : {x y p q : Bool} → x ≡ p → y ≡ q → (if x then true else y) ≡ (p || q)
chain {x = true} e f = rw (sym e) refl
chain {x = false} e f = rw (sym e, f) refl

two_octets : (a b x y : ℕ) → b < 256 → y < 256 → (a == x && b == y) ≡ (a * 256 + b == x * 256 + y)
two_octets a b x y hb hy =
    same (a == x && b == y) (a * 256 + b == x * 256 + y)
      (λ e. ground (arith, ==_iff a x, ==_iff b y, ==_iff (a * 256 + b) (x * 256 + y)))
      (λ e. ground (arith, ==_iff a x, ==_iff b y, ==_iff (a * 256 + b) (x * 256 + y)))

three_octets :
    (a b c x y z : ℕ)
    → b < 256
    → c < 256
    → y < 256
    → z < 256
    → (a == x && b == y && c == z) ≡ ((a * 256 + b) * 256 + c == (x * 256 + y) * 256 + z)
three_octets a b c x y z hb hc hy hz =
    same (a == x && b == y && c == z) ((a * 256 + b) * 256 + c == (x * 256 + y) * 256 + z)
      (λ e. ground (
        arith,
        ==_iff a x,
        ==_iff b y,
        ==_iff c z,
        ==_iff ((a * 256 + b) * 256 + c) ((x * 256 + y) * 256 + z),
      ))
      (λ e. ground (
        arith,
        ==_iff a x,
        ==_iff b y,
        ==_iff c z,
        ==_iff ((a * 256 + b) * 256 + c) ((x * 256 + y) * 256 + z),
      ))

twelve : (a b : ℕ) → b < 256 → (a == 172 && leb 16 b && leb b 31) ≡ (a * 16 + b / 16 == 2753)
twelve a b hb =
    same (a == 172 && leb 16 b && leb b 31) (a * 16 + b / 16 == 2753)
      (λ e. ground (arith, ==_iff a 172, ==_iff (a * 16 + b / 16) 2753))
      (λ e. ground (arith, ==_iff a 172, ==_iff (a * 16 + b / 16) 2753))

ten : (a b : ℕ) → b < 256 → (a == 100 && leb 64 b && leb b 127) ≡ (a * 4 + b / 64 == 401)
ten a b hb =
    same (a == 100 && leb 64 b && leb b 127) (a * 4 + b / 64 == 401)
      (λ e. ground (arith, ==_iff a 100, ==_iff (a * 4 + b / 64) 401))
      (λ e. ground (arith, ==_iff a 100, ==_iff (a * 4 + b / 64) 401))

fifteen : (a b : ℕ) → b < 256 → (a == 198 && (b == 18 || b == 19)) ≡ (a * 128 + b / 2 == 25353)
fifteen a b hb =
    same (a == 198 && (b == 18 || b == 19)) (a * 128 + b / 2 == 25353)
      (λ e. ground (arith, ==_iff a 198, ==_iff b 18, ==_iff b 19, ==_iff (a * 128 + b / 2) 25353))
      (λ e. ground (arith, ==_iff a 198, ==_iff b 18, ==_iff b 19, ==_iff (a * 128 + b / 2) 25353))

last_two : (a : ℕ) → a < 256 → leb 224 a ≡ (a / 16 == 14 || (a / 16 == 15 || false))
last_two a ha =
    same (leb 224 a) (a / 16 == 14 || (a / 16 == 15 || false))
      (λ e. ground (arith, ==_iff (a / 16) 14, ==_iff (a / 16) 15))
      (λ e. ground (arith, ==_iff (a / 16) 14, ==_iff (a / 16) 15))

at : (n : ℕ) {q r : ℕ} → q ≡ r → (r == n) ≡ (q == n)
at n e = ap (λ k. k == n) (sym e)

-- Of four octets, the classifier calls private exactly the addresses of the listed blocks: as numbers
-- of 32 bits, those that agree with a block's first address on the block's prefix.
pub is_private_ipv4-blocks :
    (a b c d : ℕ)
    → a < 256
    → b < 256
    → c < 256
    → d < 256
    → is_private_ipv4 a b c d ≡ any (in_block (address a b c d)) private_blocks
unfolding is_private_ipv4
is_private_ipv4-blocks a b c d ha hb hc hd = chain (at 10 (by_8 a b c d hb hc hd)) (
    chain (at 127 (by_8 a b c d hb hc hd)) (
      chain (at 0 (by_8 a b c d hb hc hd)) (
        chain (two_octets a b 169 254 hb (omega arith) ∙ at 43518 (by_16 a b c d hb hc hd)) (
          chain (twelve a b hb ∙ at 2753 (by_12 a b c d hb hc hd)) (
            chain (two_octets a b 192 168 hb (omega arith) ∙ at 49320 (by_16 a b c d hb hc hd)) (
              chain (ten a b hb ∙ at 401 (by_10 a b c d hb hc hd)) (
                chain
                  (three_octets a b c 192 0 0 hb hc (omega arith) (omega arith)
                    ∙ at 12582912 (by_24 a b c d hb hc hd))
                  (chain
                    (three_octets a b c 192 0 2 hb hc (omega arith) (omega arith)
                      ∙ at 12582914 (by_24 a b c d hb hc hd))
                    (chain
                      (three_octets a b c 198 51 100 hb hc (omega arith) (omega arith)
                        ∙ at 12989284 (by_24 a b c d hb hc hd))
                      (chain
                        (three_octets a b c 203 0 113 hb hc (omega arith) (omega arith)
                          ∙ at 13303921 (by_24 a b c d hb hc hd))
                        (chain
                          (three_octets a b c 192 88 99 hb hc (omega arith) (omega arith)
                            ∙ at 12605539 (by_24 a b c d hb hc hd))
                          (chain (fifteen a b hb ∙ at 25353 (by_15 a b c d hb hc hd)) (
                            last_two a ha
                            ∙ ap (λ (q : ℕ). q == 14 || (q == 15 || false))
                                (sym (by_4 a b c d hb hc hd)))))))))))))))
