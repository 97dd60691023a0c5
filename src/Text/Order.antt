-- ===== src/Text/Order.antt =====
-- The order of texts by their code units, the order of `Array.prototype.sort`.
use legion_cli.Prelude.{◌≡◌, ◌≢◌, ◌⊎◌, inl, inr, refl, true, false, [], ◌∷◌, ==_iff, nat_eq, arith}
use legion_cli.Text.{Text, text_le}

pub text_le_total : (s t : Text) → (text_le s t ≡ true) ⊎ (text_le t s ≡ true)
text_le_total [] t = inl refl
text_le_total (c ∷ s) [] = inr refl
text_le_total (c ∷ s) (d ∷ t) = ground (arith, text_le_total s t, ==_iff c d, ==_iff d c)

pub text_le_antisym : (s t : Text) → text_le s t ≡ true → text_le t s ≡ true → s ≡ t
text_le_antisym [] [] h k = refl
text_le_antisym [] (d ∷ t) h k = cc
text_le_antisym (c ∷ s) [] h k = cc
text_le_antisym (c ∷ s) (d ∷ t) h k = ground (arith, text_le_antisym s t, ==_iff c d, ==_iff d c)

pub text_le_trans : (s t u : Text) → text_le s t ≡ true → text_le t u ≡ true → text_le s u ≡ true
text_le_trans [] t u h k = refl
text_le_trans (c ∷ s) [] u h k = cc
text_le_trans (c ∷ s) (d ∷ t) [] h k = cc
text_le_trans (c ∷ s) (d ∷ t) (x ∷ u) h k =
    ground (arith, text_le_trans s t u, ==_iff c d, ==_iff d x, ==_iff c x)

-- Of two different texts, exactly one comes first.
pub text_le_other : (s t : Text) → s ≢ t → text_le s t ≡ false → text_le t s ≡ true
text_le_other s t n h = elim (text_le_total s t) [ inl k ↦ (cc) | inr k ↦ k ]
