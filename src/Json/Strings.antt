-- ===== src/Json/Strings.antt =====
-- The string literals of strict JSON, and the surrogates of a text.
use legion_cli.Prelude.{
  ℕ, zero, suc, ◌≡◌, ◌≢◌, ◌⊎◌, inl, inr, refl, sym, subst, ap, Bool, true, false, ◌&&◌, ◌||◌, [],
  ◌∷◌, ◌==◌, nat_eq, ==_iff, leb, ltb, if◌then◌else◌, contains,
}
use legion_cli.Text.{Text, codes}
use legion_cli.Json.Result.{
  Scan, JsonError, read, thrown, ◌>>=◌, Reads, Reads-bind, Splits, reads, throws,
}

abbrev pub quote : ℕ
quote = 0x22

abbrev pub backslash : ℕ
backslash = 0x5c

abbrev pub is_hex : ℕ → Bool
is_hex c = (leb 0x30 c && leb c 0x39) || (leb 0x41 c && leb c 0x46) || (leb 0x61 c && leb c 0x66)

-- `"\\/bfnrt` after the quote
abbrev pub is_escape : ℕ → Bool
is_escape c = (c == quote) || (c == backslash) || contains (codes "/bfnrt") c

-- Where the loop of `string()` stands: between characters, after a backslash, or with so many
-- hexadecimal digits to come.
pub data Mode : Type 0 where
  plain escaped : Mode
  digits : ℕ → Mode

pub data Turn : Type 0 where
  done fail : Turn
  go : Mode → Turn

abbrev pub turn : Mode → ℕ → Turn
turn Mode.plain c =
    if c == quote
    then Turn.done
    else if ltb c 0x20
    then Turn.fail
    else if c == backslash
    then Turn.go Mode.escaped
    else Turn.go Mode.plain
turn Mode.escaped c =
    if c == b'u'
    then Turn.go (Mode.digits 3)
    else if is_escape c
    then Turn.go Mode.plain
    else Turn.fail
turn (Mode.digits zero) c = if is_hex c then Turn.go Mode.plain else Turn.fail
turn (Mode.digits (suc n)) c = if is_hex c then Turn.go (Mode.digits n) else Turn.fail

abbrev after_turn : ℕ → Text → (Mode → Scan (Text × Text)) → Turn → Scan (Text × Text)
after_turn c s next Turn.done = read (c ∷ [], s)
after_turn c s next Turn.fail = thrown JsonError.invalid
after_turn c s next (Turn.go m) = next m >>= λ (body, rest). read (c ∷ body, rest)

-- The literal after its opening quote, the closing one included, and what follows it.
unfoldable pub scan_body : Mode → Text → Scan (Text × Text)
scan_body m [] = thrown JsonError.invalid
scan_body m (c ∷ s) = after_turn c s (λ m'. scan_body m' s) (turn m c)

-- Strings by their grammar: `IsBody` is a literal after its opening quote, `IsHex n` goes on with
-- `n + 1` hexadecimal digits.
mutual
  pub data IsBody : Text → Type 0 where
    close : IsBody (quote ∷ [])
    unit :
        {s : Text} (c : ℕ)
        → (c == quote) ≡ false
        → (c == backslash) ≡ false
        → ltb c 0x20 ≡ false
        → IsBody s
        → IsBody (c ∷ s)
    escape : {s : Text} (c : ℕ) → is_escape c ≡ true → IsBody s → IsBody (backslash ∷ c ∷ s)
    unicode : {s : Text} → IsHex 3 s → IsBody (backslash ∷ b'u' ∷ s)

  pub data IsHex : ℕ → Text → Type 0 where
    last : {s : Text} (c : ℕ) → is_hex c ≡ true → IsBody s → IsHex zero (c ∷ s)
    more : {s : Text} (c : ℕ) {n : ℕ} → is_hex c ≡ true → IsHex n s → IsHex (suc n) (c ∷ s)

-- What has been read in a mode, with what led to it.
abbrev pub IsRest : Mode → Text → Type 0
IsRest Mode.plain s = IsBody s
IsRest Mode.escaped s = IsBody (backslash ∷ s)
IsRest (Mode.digits n) s = IsHex n s

plain_go :
    (q l b : Bool) (m : Mode) {m' : Mode}
    → (if q
        then Turn.done
        else if l
        then Turn.fail
        else if b
        then Turn.go m
        else Turn.go Mode.plain)
      ≡ Turn.go m'
    → q ≡ false × l ≡ false × ((b ≡ true × m' ≡ m) ⊎ (b ≡ false × m' ≡ Mode.plain))
plain_go true l b m e = cc
plain_go false true b m e = cc
plain_go false false true m e = (refl, refl, inl (refl, (cc)))
plain_go false false false m e = (refl, refl, inr (refl, (cc)))

hex_go :
    (b : Bool) (m : Mode) {m' : Mode}
    → (if b then Turn.go m else Turn.fail) ≡ Turn.go m'
    → b ≡ true × m' ≡ m
hex_go true m e = (refl, (cc))
hex_go false m e = cc

escaped_go :
    (u b : Bool) (m : Mode) {m' : Mode}
    → (if u then Turn.go m else if b then Turn.go Mode.plain else Turn.fail) ≡ Turn.go m'
    → (u ≡ true × m' ≡ m) ⊎ (b ≡ true × m' ≡ Mode.plain)
escaped_go true b m e = inl (refl, (cc))
escaped_go false true m e = inr (refl, (cc))
escaped_go false false m e = cc

turn-IsRest :
    (m : Mode) (c : ℕ) (m' : Mode) (s : Text)
    → turn m c ≡ Turn.go m'
    → IsRest m' s
    → IsRest m (c ∷ s)
turn-IsRest Mode.plain c m' s e h =
    let (q, l, w) = plain_go (c == quote) (ltb c 0x20) (c == backslash) _ e in
    elim w [
      | inl (b, em) ↦
          subst (λ (d : ℕ). IsBody (d ∷ s)) (sym ((==_iff c backslash).0 b))
            (subst (λ (n : Mode). IsRest n s) em h)
      | inr (b, em) ↦ IsBody.unit c q b l (subst (λ (n : Mode). IsRest n s) em h)
    ]
turn-IsRest Mode.escaped c m' s e h = elim (escaped_go (c == b'u') (is_escape c) _ e) [
  | inl (u, em) ↦
      subst (λ (d : ℕ). IsBody (backslash ∷ d ∷ s)) (sym ((==_iff c b'u').0 u))
        (IsBody.unicode (subst (λ (n : Mode). IsRest n s) em h))
  | inr (b, em) ↦ IsBody.escape c b (subst (λ (n : Mode). IsRest n s) em h)
]
turn-IsRest (Mode.digits zero) c m' s e h =
    let (b, em) = hex_go (is_hex c) _ e in IsHex.last c b (subst (λ (n : Mode). IsRest n s) em h)
turn-IsRest (Mode.digits (suc n)) c m' s e h =
    let (b, em) = hex_go (is_hex c) _ e in IsHex.more c b (subst (λ (n : Mode). IsRest n s) em h)

plain_done :
    (q l b : Bool) (m : Mode)
    → (if q
        then Turn.done
        else if l
        then Turn.fail
        else if b
        then Turn.go m
        else Turn.go Mode.plain)
      ≡ Turn.done
    → q ≡ true
plain_done true l b m e = refl
plain_done false true b m e = cc
plain_done false false true m e = cc
plain_done false false false m e = cc

escaped_not_done :
    (u b : Bool) (m n : Mode)
    → (if u then Turn.go m else if b then Turn.go n else Turn.fail) ≢ Turn.done
escaped_not_done true b m n e = cc
escaped_not_done false true m n e = cc
escaped_not_done false false m n e = cc

turn-done : (m : Mode) (c : ℕ) → turn m c ≡ Turn.done → IsRest m (c ∷ [])
turn-done Mode.plain c e =
    let q = plain_done (c == quote) (ltb c 0x20) (c == backslash) _ e in
    subst (λ (d : ℕ). IsBody (d ∷ [])) (sym ((==_iff c quote).0 q)) IsBody.close
turn-done Mode.escaped c e = elim (escaped_not_done (c == b'u') (is_escape c) _ _ e) [ ]
turn-done (Mode.digits zero) c e =
    elim (escaped_not_done (is_hex c) false Mode.plain Mode.plain e) [ ]
turn-done (Mode.digits (suc n)) c e =
    elim (escaped_not_done (is_hex c) false (Mode.digits n) Mode.plain e) [ ]

after_turn-Splits :
    (m : Mode) (c : ℕ) (s : Text) (t : Turn)
    → turn m c ≡ t
    → {next : Mode → Scan (Text × Text)} → ((m' : Mode) → Reads (Splits (IsRest m') s) (next m'))
    → Reads (Splits (IsRest m) (c ∷ s)) (after_turn c s next t)
after_turn-Splits m c s Turn.done e h = reads (c ∷ [], s) (refl, turn-done m c e)
after_turn-Splits m c s Turn.fail e h = throws JsonError.invalid
after_turn-Splits m c s (Turn.go m') e h = Reads-bind (h m') (λ (body, rest) (eq, r).
    reads (c ∷ body, rest) (ap (λ (r : Text). c ∷ r) eq, turn-IsRest m c m' body e r))

-- The literal read is one of the grammar, and nothing is lost.
pub scan_body-Splits : (m : Mode) (s : Text) → Reads (Splits (IsRest m) s) (scan_body m s)
unfolding scan_body
scan_body-Splits m [] = throws JsonError.invalid
scan_body-Splits m (c ∷ s) = after_turn-Splits m c s (turn m c) refl (λ m'. scan_body-Splits m' s)
