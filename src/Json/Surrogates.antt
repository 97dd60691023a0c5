-- ===== src/Json/Surrogates.antt =====
-- Unpaired surrogates in a text: `assertWellFormed`.
use legion_cli.Prelude.{
  ℕ, ◌≡◌, ◌↔◌, inl, inr, refl, Bool, true, false, not, ◌&&◌, [], ◌∷◌, leb, if◌then◌else◌,
  Bool-cases,
}
use legion_cli.Text.{Text}

abbrev is_high_surrogate : ℕ → Bool
is_high_surrogate c = leb 0xd800 c && leb c 0xdbff

abbrev is_low_surrogate : ℕ → Bool
is_low_surrogate c = leb 0xdc00 c && leb c 0xdfff

-- `assertWellFormed`
unfoldable pub is_well_formed : Text → Bool
is_well_formed [] = true
is_well_formed (c ∷ []) = not (is_high_surrogate c) && not (is_low_surrogate c)
is_well_formed (c ∷ d ∷ s) =
    let after_pair = is_low_surrogate d && is_well_formed s in
    let after_unit = not (is_low_surrogate c) && is_well_formed (d ∷ s) in
    if is_high_surrogate c then after_pair else after_unit

-- Every high surrogate stands before a low one, and every low one after a high one.
pub data IsPaired : Text → Type 0 where
  nothing : IsPaired []
  unit :
      {s : Text} (c : ℕ)
      → is_high_surrogate c ≡ false
      → is_low_surrogate c ≡ false
      → IsPaired s
      → IsPaired (c ∷ s)
  pair :
      {s : Text} (c d : ℕ)
      → is_high_surrogate c ≡ true
      → is_low_surrogate d ≡ true
      → IsPaired s
      → IsPaired (c ∷ d ∷ s)

both : (x y : Bool) → x && y ≡ true → x ≡ true × y ≡ true
both true true e = (refl, refl)
both true false e = cc
both false y e = cc

neither : (x y : Bool) → not x && not y ≡ true → x ≡ false × y ≡ false
neither false false e = (refl, refl)
neither false true e = cc
neither true y e = cc

neither_and : (x y : Bool) → not x && y ≡ true → x ≡ false × y ≡ true
neither_and false true e = (refl, refl)
neither_and false false e = cc
neither_and true y e = cc

if_true : (a x y : Bool) → a ≡ true → (if a then x else y) ≡ true → x ≡ true
if_true true x y h e = e
if_true false x y h e = cc

if_false : (a x y : Bool) → a ≡ false → (if a then x else y) ≡ true → y ≡ true
if_false true x y h e = cc
if_false false x y h e = e

well_formed-IsPaired : (s : Text) → is_well_formed s ≡ true → IsPaired s
unfolding is_well_formed
well_formed-IsPaired [] e = IsPaired.nothing
well_formed-IsPaired (c ∷ []) e =
    let (h, l) = neither (is_high_surrogate c) (is_low_surrogate c) e in
    IsPaired.unit c h l IsPaired.nothing
well_formed-IsPaired (c ∷ d ∷ s) e = elim (Bool-cases (is_high_surrogate c)) [
  | inl h ↦
      let (l, w) = both (is_low_surrogate d) (is_well_formed s) (if_true _ _ _ h e) in
      IsPaired.pair c d h l (well_formed-IsPaired s w)
  | inr h ↦
      let (l, w) = neither_and (is_low_surrogate c) (is_well_formed (d ∷ s)) (if_false _ _ _ h e) in
      IsPaired.unit c h l (well_formed-IsPaired (d ∷ s) w)
]

IsPaired-well_formed : (s : Text) → IsPaired s → is_well_formed s ≡ true
unfolding is_well_formed
IsPaired-well_formed [] h = refl
IsPaired-well_formed (c ∷ []) (IsPaired.unit x h l p) = rw (h, l) refl
IsPaired-well_formed (c ∷ d ∷ s) (IsPaired.unit x h l p) =
    rw (h, l) (IsPaired-well_formed (d ∷ s) p)
IsPaired-well_formed (c ∷ d ∷ s) (IsPaired.pair x y h l p) = rw (h, l) (IsPaired-well_formed s p)

-- `assertWellFormed` passes a text exactly when every high surrogate in it stands before a low one
-- and every low one after a high one.
pub is_well_formed_iff : (s : Text) → (is_well_formed s ≡ true) ↔ IsPaired s
is_well_formed_iff s = (well_formed-IsPaired s, IsPaired-well_formed s)
