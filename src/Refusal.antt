-- ===== src/Refusal.antt =====
-- packages/core/src/errors.ts: `refuse(message, hint)` throws, and nothing in the modelled code
-- catches it. A function that may refuse returns its value or the refusal.
use Prim.Native.String
use legion_cli.Prelude.{◌≡◌, refl, List, [], ◌∷◌, String}

pub data Guarded (A : Type 0) : Type 0 where
  allowed : A → Guarded A
  refused : (message hint : String) → Guarded A

infixl 5 ◌>>=◌ ◌>>◌
abbrev pub ◌>>=◌ : {A B : Type 0} → Guarded A → (A → Guarded B) → Guarded B
allowed a >>= f = f a
refused message hint >>= f = refused message hint

abbrev pub ◌>>◌ : {B : Type 0} → Guarded (Unit {0}) → Guarded B → Guarded B
m >> k = m >>= λ _. k

abbrev pub concat : String → String → String
concat s t = String.◌++◌ s t

-- `Array.prototype.join`
abbrev pub join : String → List String → String
join sep [] = ""
join sep (s ∷ []) = s
join sep (s ∷ t ∷ ss) = concat s (concat sep (join sep (t ∷ ss)))

pub >>=-eq-allowed :
    {A B : Type 0} (m : Guarded A) (f : A → Guarded B) {b : B}
    → (m >>= f) ≡ allowed b
    → (a : A) × (m ≡ allowed a) × (f a ≡ allowed b)
>>=-eq-allowed (allowed a) f h = (a, refl, h)
>>=-eq-allowed (refused message hint) f h = cc
