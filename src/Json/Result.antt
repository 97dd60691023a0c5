-- ===== src/Json/Result.antt =====
-- What a run of the reader ends in, and postconditions on it.
use legion_cli.Prelude.{
  ◌≡◌, ◌≢◌, refl, sym, subst, Bool, true, false, if◌then◌else◌, ℕ, List, ◌++◌, ◌∙◌, ap,
}
use mathlib.Core.List.{append_assoc}

-- What `parseStrictJson` throws, without the place of a syntax error.
pub data JsonError : Type 0 where
  invalid duplicate_key too_deep not_finite unpaired_surrogate too_long not_utf8 bad_limit :
      JsonError

-- `out_of_fuel` has no counterpart in the source.
pub data Scan (A : Type 0) : Type 0 where
  read : A → Scan A
  thrown : JsonError → Scan A
  out_of_fuel : Scan A

infixl 5 ◌>>=◌ ◌>>◌
abbrev pub ◌>>=◌ : {A B : Type 0} → Scan A → (A → Scan B) → Scan B
read a >>= f = f a
thrown e >>= f = thrown e
out_of_fuel >>= f = out_of_fuel

abbrev pub ◌>>◌ : {B : Type 0} → Scan (Unit {0}) → Scan B → Scan B
m >> k = m >>= λ _. k

abbrev pub demand : Bool → JsonError → Scan (Unit {0})
demand true e = read tt
demand false e = thrown e

-- The run kept within its fuel, and `P` holds of what it read.
pub data Reads {A : Type 0} (P : A → Type 0) : Scan A → Type 0 where
  reads : (a : A) → P a → Reads P (read a)
  throws : (e : JsonError) → Reads P (thrown e)

module _ {A : Type 0} {P : A → Type 0} where
  pub Reads-read : {r : Scan A} {a : A} → Reads P r → r ≡ read a → P a
  Reads-read (reads b h) e = subst P (cc) h
  Reads-read (throws x) e = cc

  pub Reads-out_of_fuel : {r : Scan A} → Reads P r → r ≢ out_of_fuel
  Reads-out_of_fuel (reads b h) = cc
  Reads-out_of_fuel (throws x) = cc

  pub Reads-map : {Q : A → Type 0} {r : Scan A} → Reads P r → ((a : A) → P a → Q a) → Reads Q r
  Reads-map (reads a h) f = reads a (f a h)
  Reads-map (throws x) f = throws x

  pub Reads-if :
      (b : Bool) {x y : Scan A}
      → (b ≡ true → Reads P x)
      → (b ≡ false → Reads P y)
      → Reads P (if b then x else y)
  Reads-if true hx hy = hx refl
  Reads-if false hx hy = hy refl

  pub Reads-bind :
      {B : Type 0} {Q : B → Type 0} {r : Scan A} {f : A → Scan B}
      → Reads P r
      → ((a : A) → P a → Reads Q (f a))
      → Reads Q (r >>= f)
  Reads-bind (reads a h) k = k a h
  Reads-bind (throws e) k = throws e

pub Reads-demand : (b : Bool) (e : JsonError) → Reads (λ _. b ≡ true) (demand b e)
Reads-demand true e = reads tt refl
Reads-demand false e = throws e

-- A text taken apart into what `P` holds of and the rest.
abbrev pub Splits : (List ℕ → Type 0) → List ℕ → List ℕ × List ℕ → Type 0
Splits P s (taken, rest) = s ≡ taken ++ rest × P taken

pub split-split : (s a b r r' : List ℕ) → s ≡ a ++ r → r ≡ b ++ r' → s ≡ a ++ b ++ r'
split-split s a b r r' e f = e ∙ ap (λ (t : List ℕ). a ++ t) f ∙ sym (append_assoc a b r')
