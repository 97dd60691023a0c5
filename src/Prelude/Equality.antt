-- ===== src/Prelude/Equality.antt =====
-- Decidable equality as an interface: the `===` of the source, at numbers, texts and code units.
use Prim.Native.Nat.{ℕ}
use Prim.Native.String.{String}
use mathlib.Core.Path.{◌≡◌, refl}
use mathlib.Core.Logic.{◌↔◌}
use mathlib.Core.Bool.{Bool, true, false, ◌&&◌}
use mathlib.Core.Option.{Option, none, some}
use mathlib.Core.List.{List, [], ◌∷◌}
use native.Mathlib.Omega.{arith}
use text.Mathlib.Text.{◌==◌ as string_beq}
use text.Mathlib.TextEquality.{eq_iff}
use legion_cli.Prelude.Tests.{nat_beq, nat_beq_iff}

pub record Comparable {ℓ} (A : Type ℓ) : Type ℓ where
  pub equals : A → A → Bool
  pub equals_iff : (a b : A) → (equals a b ≡ true) ↔ (a ≡ b)

infix 50 ◌==◌
abbrev pub ◌==◌ {ℓ} : {A : Type ℓ} ⦃e : Comparable A⦄ → A → A → Bool
◌==◌ ⦃e⦄ = e.equals

module _ {ℓ} {A : Type ℓ} ⦃e : Comparable A⦄ where
  pub ==_iff : (a b : A) → ((a == b) ≡ true) ↔ (a ≡ b)
  ==_iff = e.equals_iff

  pub ==_self : (a : A) → (a == a) ≡ true
  ==_self a = (e.equals_iff a a).1 refl

  abbrev pub list_beq : List A → List A → Bool
  list_beq [] [] = true
  list_beq (x ∷ xs) (y ∷ ys) = (x == y) && list_beq xs ys
  list_beq _ _ = false

  pub list_beq_iff : (xs ys : List A) → (list_beq xs ys ≡ true) ↔ (xs ≡ ys)
  list_beq_iff [] [] = ground arith
  list_beq_iff (x ∷ xs) (y ∷ ys) = ground (arith, e.equals_iff x y, list_beq_iff xs ys)
  list_beq_iff [] (y ∷ ys) = ground arith
  list_beq_iff (x ∷ xs) [] = ground arith

  abbrev pub option_beq : Option A → Option A → Bool
  option_beq none none = true
  option_beq (some x) (some y) = x == y
  option_beq _ _ = false

  pub option_beq_iff : (x y : Option A) → (option_beq x y ≡ true) ↔ (x ≡ y)
  option_beq_iff none none = ground arith
  option_beq_iff (some x) (some y) = ground (arith, e.equals_iff x y)
  option_beq_iff none (some y) = ground arith
  option_beq_iff (some x) none = ground arith

instance abbrev pub list_eq {ℓ} : {A : Type ℓ} ⦃e : Comparable A⦄ → Comparable (List A)
list_eq = record { equals = list_beq; equals_iff = list_beq_iff }

instance abbrev pub option_eq {ℓ} : {A : Type ℓ} ⦃e : Comparable A⦄ → Comparable (Option A)
option_eq = record { equals = option_beq; equals_iff = option_beq_iff }

instance abbrev pub string_eq : Comparable String
string_eq = record { equals = string_beq; equals_iff = eq_iff }

instance abbrev pub nat_eq : Comparable ℕ
nat_eq = record { equals = nat_beq; equals_iff = nat_beq_iff }

-- The test that a decision procedure gives.
abbrev pub verdict {ℓ} : {P : Type ℓ} → Dec P → Bool
verdict (yes p) = true
verdict (no n) = false

pub decide_beq_iff {ℓ} :
    {A : Type ℓ} (d : Discrete A) (a b : A) → (verdict (d a b) ≡ true) ↔ (a ≡ b)
decide_beq_iff d a b = elim (d a b) as (λ (x : Dec (a ≡ b)). (verdict x ≡ true) ↔ (a ≡ b)) [
  | yes e ↦ (λ _. e, λ _. refl)
  | no n ↦ (λ h. cc, λ e. absurd (n e))
]

abbrev pub discrete_eq {ℓ} : {A : Type ℓ} → Discrete A → Comparable A
discrete_eq d = record { equals = λ a b. verdict (d a b); equals_iff = decide_beq_iff d }
