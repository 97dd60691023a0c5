-- ===== src/Json/Numbers.antt =====
-- The numbers of strict JSON.
use legion_cli.Prelude.{
  ℕ, ◌≡◌, ◌⊎◌, inl, inr, refl, sym, subst, ap, Bool, true, false, ◌&&◌, ◌||◌, [], ◌∷◌, ◌++◌, ◌==◌,
  nat_eq, ==_iff, leb, if◌then◌else◌, Bool-cases,
}
use legion_cli.Text.{Text}
use legion_cli.Json.Result.{
  Scan, JsonError, read, thrown, ◌>>=◌, ◌>>◌, demand, Reads, Reads-bind, Splits, split-split,
  Reads-demand, Reads-if, reads, throws,
}

-- `digit`
abbrev pub is_digit : ℕ → Bool
is_digit c = leb 0x30 c && leb c 0x39

abbrev pub at_digit : Text → Bool
at_digit [] = false
at_digit (c ∷ s) = is_digit c

-- `if (text[cursor] === c) cursor++`: what is passed over, and what is left.
unfoldable take_unit : (ℕ → Bool) → Text → Text × Text
take_unit p [] = ([], [])
take_unit p (c ∷ s) = if p c then (c ∷ [], s) else ([], c ∷ s)

-- `while (digit()) cursor++`
unfoldable span_digits : Text → Text × Text
span_digits [] = ([], [])
span_digits (c ∷ s) =
    let (digits, rest) = span_digits s in if is_digit c then (c ∷ digits, rest) else ([], c ∷ s)

unfoldable some_digits : Text → Scan (Text × Text)
unfolding span_digits
some_digits s = demand (at_digit s) JsonError.invalid >> read (span_digits s)

unfoldable integer : Text → Scan (Text × Text)
unfolding span_digits take_unit
integer [] = thrown JsonError.invalid
integer (c ∷ s) =
    demand (is_digit c) JsonError.invalid
    >> (if c == b'0' then read (c ∷ [], s) else read (span_digits (c ∷ s)))

unfoldable fraction : Text → Scan (Text × Text)
unfolding some_digits
fraction [] = read ([], [])
fraction (c ∷ s) =
    if c == b'.'
    then (some_digits s >>= λ (digits, rest). read (c ∷ digits, rest))
    else read ([], c ∷ s)

abbrev is_sign : ℕ → Bool
is_sign c = (c == b'+') || (c == b'-')

unfoldable exponent : Text → Scan (Text × Text)
unfolding some_digits take_unit
exponent [] = read ([], [])
exponent (c ∷ s) =
    let (sign, s2) = take_unit is_sign s in
    if (c == b'e') || (c == b'E')
    then (some_digits (s2) >>= λ (digits, rest). read (c ∷ sign ++ digits, rest))
    else read ([], c ∷ s)

-- `number`: the literal and what follows it. `is_finite` is `Number.isFinite(Number(·))`.
unfoldable pub scan_number : (Text → Bool) → Text → Scan (Text × Text)
unfolding integer fraction exponent take_unit
scan_number is_finite s =
    let (minus, s1) = take_unit (λ c. c == b'-') s in
    integer s1 >>= λ (whole, s2). fraction s2 >>= λ (part, s3). exponent s3 >>= λ (power, s4).
    let literal = minus ++ whole ++ part ++ power in
    demand (is_finite literal) JsonError.not_finite >> read (literal, s4)

pub data IsDigits : Text → Type 0 where
  last : (c : ℕ) → is_digit c ≡ true → IsDigits (c ∷ [])
  more : {s : Text} (c : ℕ) → is_digit c ≡ true → IsDigits s → IsDigits (c ∷ s)

-- No leading zero.
pub data IsInteger : Text → Type 0 where
  zero_only : IsInteger (b'0' ∷ [])
  from : {s : Text} (c : ℕ) → (c == b'0') ≡ false → IsDigits (c ∷ s) → IsInteger (c ∷ s)

pub data IsFraction : Text → Type 0 where
  absent : IsFraction []
  point : {s : Text} → IsDigits s → IsFraction (b'.' ∷ s)

pub data IsExponent : Text → Type 0 where
  absent : IsExponent []
  power :
      (e : ℕ) {sign s : Text}
      → (e == b'e') || (e == b'E') ≡ true
      → (sign ≡ []) ⊎ (sign ≡ b'+' ∷ []) ⊎ (sign ≡ b'-' ∷ [])
      → IsDigits s
      → IsExponent (e ∷ sign ++ s)

pub data IsNumber : Text → Type 0 where
  number :
      {minus whole part power : Text}
      → (minus ≡ []) ⊎ (minus ≡ b'-' ∷ [])
      → IsInteger whole
      → IsFraction part
      → IsExponent power
      → IsNumber (minus ++ whole ++ part ++ power)

take_unit-Splits :
    (p : ℕ → Bool) (s : Text)
    → Splits (λ t. (t ≡ []) ⊎ ((c : ℕ) × (p c ≡ true) × (t ≡ c ∷ []))) s (take_unit p s)
unfolding take_unit
take_unit-Splits p [] = (refl, inl refl)
take_unit-Splits p (c ∷ s) = elim (Bool-cases (p c)) [
  | inl e ↦ rw (e) (refl, inr (c, e, refl))
  | inr e ↦ rw (e) (refl, inl refl)
]

span_digits-not_digit : (s : Text) → at_digit s ≡ false → span_digits s ≡ ([], s)
unfolding span_digits
span_digits-not_digit [] e = refl
span_digits-not_digit (c ∷ s) e = rw (e) refl

span_digits-Splits : (s : Text) → at_digit s ≡ true → Splits IsDigits s (span_digits s)
unfolding span_digits
span_digits-Splits [] e = cc
span_digits-Splits (c ∷ s) e = elim (Bool-cases (at_digit s)) [
  | inl h ↦
      let (eq, d) = span_digits-Splits s h in
      rw (e) (ap (λ (t : Text). c ∷ t) eq, IsDigits.more c e d)
  | inr h ↦ rw (e, span_digits-not_digit s h) (refl, IsDigits.last c e)
]

some_digits-Splits : (s : Text) → Reads (Splits IsDigits s) (some_digits s)
unfolding some_digits
some_digits-Splits s =
    Reads-bind (Reads-demand (at_digit s) JsonError.invalid)
      (λ _ e. reads (span_digits s) (span_digits-Splits s e))

head_eq : {a b : ℕ} {s t : Text} → a ∷ s ≡ b ∷ t → a ≡ b
head_eq e = cc

IsInteger-digits :
    (c : ℕ) (s : Text) (t rest : Text)
    → (c == b'0') ≡ false
    → IsDigits t
    → c ∷ s ≡ t ++ rest
    → IsInteger t
IsInteger-digits c s t rest h (IsDigits.last d e) eq =
    IsInteger.from d (rw (sym (head_eq eq)) h) (IsDigits.last d e)
IsInteger-digits c s t rest h (IsDigits.more d e r) eq =
    IsInteger.from d (rw (sym (head_eq eq)) h) (IsDigits.more d e r)

integer-Splits : (s : Text) → Reads (Splits IsInteger s) (integer s)
unfolding integer
integer-Splits [] = throws JsonError.invalid
integer-Splits (c ∷ s) = Reads-bind (Reads-demand (is_digit c) JsonError.invalid) (λ _ e.
    Reads-if (c == b'0')
      (λ h.
        reads (c ∷ [], s)
          (
            refl,
            subst (λ (d : ℕ). IsInteger (d ∷ [])) (sym ((==_iff c b'0').0 h)) IsInteger.zero_only,
          ))
      (λ h.
        let (eq, d) = span_digits-Splits (c ∷ s) e in
        reads (span_digits (c ∷ s)) (eq, IsInteger-digits c s _ _ h d eq)))

fraction-Splits : (s : Text) → Reads (Splits IsFraction s) (fraction s)
unfolding fraction
fraction-Splits [] = reads ([], []) (refl, IsFraction.absent)
fraction-Splits (c ∷ s) =
    Reads-if (c == b'.')
      (λ h. Reads-bind (some_digits-Splits s) (λ (digits, rest) (eq, d).
        reads (c ∷ digits, rest)
          (
            ap (λ (t : Text). c ∷ t) eq,
            subst (λ (k : ℕ). IsFraction (k ∷ digits)) (sym ((==_iff c b'.').0 h))
                (IsFraction.point d),
          )))
      (λ h. reads ([], c ∷ s) (refl, IsFraction.absent))

is_sign_iff :
    (sign : Text)
    → (sign ≡ []) ⊎ ((c : ℕ) × (is_sign c ≡ true) × (sign ≡ c ∷ []))
    → (sign ≡ []) ⊎ (sign ≡ b'+' ∷ []) ⊎ (sign ≡ b'-' ∷ [])
is_sign_iff sign (inl e) = inl e
is_sign_iff sign (inr (c, h, e)) = elim (Bool-cases (c == b'+')) [
  | inl p ↦ let f = (==_iff c b'+').0 p in inr (inl (cc))
  | inr p ↦ let f = (==_iff c b'-').0 (rw (sym h, p) refl) in inr (inr (cc))
]

exponent-Splits : (s : Text) → Reads (Splits IsExponent s) (exponent s)
unfolding exponent
exponent-Splits [] = reads ([], []) (refl, IsExponent.absent)
exponent-Splits (c ∷ s) =
    Reads-if ((c == b'e') || (c == b'E'))
      (λ h.
        let (sign, s2) = take_unit is_sign s in
        let (eq, m) = take_unit-Splits is_sign s in
        Reads-bind (some_digits-Splits s2) (λ (digits, rest) (eq2, d).
          reads (c ∷ sign ++ digits, rest)
            (
              ap (λ (t : Text). c ∷ t) (split-split s sign digits s2 rest eq eq2),
              IsExponent.power c h (is_sign_iff sign m) d,
            )))
      (λ h. reads ([], c ∷ s) (refl, IsExponent.absent))

minus_iff :
    (minus : Text)
    → (minus ≡ []) ⊎ ((c : ℕ) × ((c == b'-') ≡ true) × (minus ≡ c ∷ []))
    → (minus ≡ []) ⊎ (minus ≡ b'-' ∷ [])
minus_iff minus (inl e) = inl e
minus_iff minus (inr (c, h, e)) = let f = (==_iff c b'-').0 h in inr (cc)

-- The literal read is a number of the grammar that is finite, and nothing is lost.
pub scan_number-Splits :
    (is_finite : Text → Bool) (s : Text)
    → Reads (Splits (λ t. IsNumber t × (is_finite t ≡ true)) s) (scan_number is_finite s)
unfolding scan_number
scan_number-Splits is_finite s =
    let (minus, s1) = take_unit (λ c. c == b'-') s in
    let (e1, m) = take_unit-Splits (λ c. c == b'-') s in
    Reads-bind (integer-Splits s1) (λ (whole, s2) (e2, w).
      Reads-bind (fraction-Splits s2) (λ (part, s3) (e3, p).
        Reads-bind (exponent-Splits s3) (λ (pow, s4) (e4, x).
          let literal = minus ++ whole ++ part ++ pow in
          let f12 = split-split s minus whole s1 s2 e1 e2 in
          let f123 = split-split s (minus ++ whole) part s2 s3 f12 e3 in
          Reads-bind (Reads-demand (is_finite literal) JsonError.not_finite) (λ _ f.
            reads (literal, s4)
              (
                split-split s (minus ++ whole ++ part) pow s3 s4 f123 e4,
                (IsNumber.number (minus_iff minus m) w p x, f),
              )))))
