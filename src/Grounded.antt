-- ===== src/Grounded.antt =====
-- Graphs given by what each id depends on: the ids from which every path of dependencies ends.
use legion_cli.Prelude.{List, Memᴰ}
use legion_cli.Text.{Text}

module _ (parents : Text → List Text) where
  pub data Grounded : Text → Type 0 where
    grounded : {id : Text} → ((p : Text) → Memᴰ p (parents id) → Grounded p) → Grounded id

  -- `b` is reached from an id over at least one step.
  pub data Behind (b : Text) : Text → Type 0 where
    next : {a : Text} → Memᴰ b (parents a) → Behind b a
    later : {a c : Text} → Memᴰ c (parents a) → Behind b c → Behind b a

  pub Behind-next : {b c a : Text} → Behind b a → Memᴰ c (parents b) → Behind c a
  Behind-next (next m) n = later m (next n)
  Behind-next (later m p) n = later m (Behind-next p n)

  pub Grounded-loop : (a : Text) → Grounded a → ¬ Behind a a
  Grounded-loop a (grounded f) (next m) = Grounded-loop a (f a m) (next m)
  Grounded-loop a (grounded f) (later {c} m p) = Grounded-loop c (f c m) (Behind-next p m)
