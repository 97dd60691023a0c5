-- ===== src/Attempt.antt =====
-- What a function of the source returns or throws, where nothing in the modelled code catches it.

pub data Attempt (E A : Type 0) : Type 0 where
  returned : A → Attempt E A
  thrown : E → Attempt E A

infixl 5 ◌>>=◌
abbrev pub ◌>>=◌ : {E A B : Type 0} → Attempt E A → (A → Attempt E B) → Attempt E B
returned a >>= f = f a
thrown e >>= f = thrown e
