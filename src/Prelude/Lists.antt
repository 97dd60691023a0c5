-- ===== src/Prelude/Lists.antt =====
-- Arrays as lists: the array methods that the source calls, and what they say of membership.
use Prim.Native.Nat.{ℕ, suc, ◌+◌}
use mathlib.Core.Path.{◌≡◌, refl}
use mathlib.Core.Logic.{◌≢◌, ◌↔◌, ◌⊎◌, inl, inr}
use mathlib.Core.Bool.{Bool, true, false, ◌&&◌, ◌||◌}
use mathlib.Core.List.{List, [], ◌∷◌, ◌++◌, Memᴰ, map}
use mathlib.Core.List.Memᴰ
use native.Mathlib.Omega.{arith}
use legion_cli.Prelude.Tests.{if◌then◌else◌, Bool-cases}
use legion_cli.Prelude.Equality.{Comparable, ◌==◌}

module _ {ℓ} {A : Type ℓ} where
  abbrev pub length : List A → ℕ
  length [] = 0
  length (x ∷ xs) = suc (length xs)

  -- `xs.length === 0`
  abbrev pub is_empty : List A → Bool
  is_empty [] = true
  is_empty (x ∷ xs) = false

  -- `Array.prototype.some`
  abbrev pub any : (A → Bool) → List A → Bool
  any p [] = false
  any p (x ∷ xs) = p x || any p xs

  -- `Array.prototype.every`
  abbrev pub all : (A → Bool) → List A → Bool
  all p [] = true
  all p (x ∷ xs) = p x && all p xs

  -- `Array.prototype.filter`
  abbrev pub filter : (A → Bool) → List A → List A
  filter p [] = []
  filter p (x ∷ xs) = if p x then x ∷ filter p xs else filter p xs

  pub length-append : (xs ys : List A) → length (xs ++ ys) ≡ length xs + length ys
  length-append [] ys = omega arith
  length-append (x ∷ xs) ys = omega (arith, length-append xs ys)

  pub Memᴰ-cons : (a x : A) (xs : List A) → Memᴰ a (x ∷ xs) ↔ ((a ≡ x) ⊎ Memᴰ a xs)
  Memᴰ-cons a x xs = (to, from)
    where
      to : Memᴰ a (x ∷ xs) → (a ≡ x) ⊎ Memᴰ a xs
      to (Memᴰ.head e) = inl e
      to (Memᴰ.tail m) = inr m

      from : (a ≡ x) ⊎ Memᴰ a xs → Memᴰ a (x ∷ xs)
      from (inl e) = Memᴰ.head e
      from (inr m) = Memᴰ.tail m

  pub Memᴰ-nil : (a : A) → ¬ Memᴰ a []
  Memᴰ-nil a m = Memᴰ.not-nil m

module _ {ℓ} {A : Type ℓ} where
  pub Memᴰ-append : (a : A) (xs ys : List A) → Memᴰ a (xs ++ ys) ↔ (Memᴰ a xs ⊎ Memᴰ a ys)
  Memᴰ-append a [] ys = ground (arith, Memᴰ-nil a)
  Memᴰ-append a (x ∷ xs) ys =
      ground (arith, Memᴰ-append a xs ys, Memᴰ-cons a x xs, Memᴰ-cons a x (xs ++ ys))

  pub any_iff :
      (p : A → Bool) (xs : List A) → (any p xs ≡ true) ↔ ((x : A) × Memᴰ x xs × (p x ≡ true))
  any_iff p xs = (to xs, λ (x, m, h). from xs x m h)
    where
      to : (ys : List A) → any p ys ≡ true → (x : A) × Memᴰ x ys × (p x ≡ true)
      to [] h = cc
      to (y ∷ ys) h = elim (Bool-cases (p y)) [
        | inl e ↦ (y, Memᴰ.head refl, e)
        | inr e ↦ let (x, m, k) = to ys (rw e at h) in (x, Memᴰ.tail m, k)
      ]

      from : (ys : List A) (x : A) → Memᴰ x ys → p x ≡ true → any p ys ≡ true
      from [] x m h = elim m [ ]
      from (y ∷ ys) x (Memᴰ.head e) h = ground arith
      from (y ∷ ys) x (Memᴰ.tail m) h = ground (arith, from ys x m h)

  pub all_iff :
      (p : A → Bool) (xs : List A) → (all p xs ≡ true) ↔ ((x : A) → Memᴰ x xs → p x ≡ true)
  all_iff p xs = (to xs, from xs)
    where
      to : (ys : List A) → all p ys ≡ true → (x : A) → Memᴰ x ys → p x ≡ true
      to [] h x m = elim m [ ]
      to (y ∷ ys) h x (Memᴰ.head e) = ground arith
      to (y ∷ ys) h x (Memᴰ.tail m) = ground (arith, to ys (ground arith) x m)

      from : (ys : List A) → ((x : A) → Memᴰ x ys → p x ≡ true) → all p ys ≡ true
      from [] h = refl
      from (y ∷ ys) h = ground (arith, h y (Memᴰ.head refl), from ys (λ x m. h x (Memᴰ.tail m)))

  pub Memᴰ-filter :
      (p : A → Bool) (a : A) (xs : List A) → Memᴰ a (filter p xs) ↔ (Memᴰ a xs × (p a ≡ true))
  Memᴰ-filter p a [] = ground (arith, Memᴰ-nil a)
  Memᴰ-filter p a (x ∷ xs) =
      ground (arith, Memᴰ-filter p a xs, Memᴰ-cons a x xs, Memᴰ-cons a x (filter p xs))

module _ {ℓ} {A : Type ℓ} ⦃e : Comparable A⦄ where
  -- `Array.prototype.includes` and `Set.prototype.has`
  abbrev pub contains : List A → A → Bool
  contains xs a = any (λ x. x == a) xs

  pub contains_iff : (xs : List A) (a : A) → (contains xs a ≡ true) ↔ Memᴰ a xs
  contains_iff [] a = ground (arith, Memᴰ-nil a)
  contains_iff (x ∷ xs) a = ground (arith, contains_iff xs a, e.equals_iff x a, Memᴰ-cons a x xs)

pub append-eq-nil : {A : Type 0} (xs ys : List A) → ((xs ++ ys) ≡ []) ↔ ((xs ≡ []) × (ys ≡ []))
append-eq-nil [] ys = ground arith
append-eq-nil (x ∷ xs) ys = ground arith

pub map-eq-nil : {A B : Type 0} (f : A → B) (xs : List A) → (map f xs ≡ []) ↔ (xs ≡ [])
map-eq-nil f [] = ground arith
map-eq-nil f (x ∷ xs) = ground arith

abbrev pub flat_map {ℓ κ} : {A : Type ℓ} {B : Type κ} → (A → List B) → List A → List B
flat_map f [] = []
flat_map f (x ∷ xs) = f x ++ flat_map f xs

pub any-eq-false :
    {A : Type 0} (p : A → Bool) (xs : List A)
    → (any p xs ≡ false) ↔ ((x : A) → Memᴰ x xs → p x ≡ false)
any-eq-false p xs = (to xs, from xs)
  where
    to : (ys : List _) → any p ys ≡ false → (x : _) → Memᴰ x ys → p x ≡ false
    to [] h x m = elim m [ ]
    to (y ∷ ys) h x (Memᴰ.head e) = ground arith
    to (y ∷ ys) h x (Memᴰ.tail m) = to ys (ground arith) x m

    from : (ys : List _) → ((x : _) → Memᴰ x ys → p x ≡ false) → any p ys ≡ false
    from [] h = refl
    from (y ∷ ys) h = ground (arith, h y (Memᴰ.head refl), from ys (λ x m. h x (Memᴰ.tail m)))

pub flat_map-nil :
    {A B : Type 0} (f : A → List B) (xs : List A)
    → (flat_map f xs ≡ []) ↔ ((x : A) → Memᴰ x xs → f x ≡ [])
flat_map-nil f xs = (to xs, from xs)
  where
    to : (ys : List _) → flat_map f ys ≡ [] → (x : _) → Memᴰ x ys → f x ≡ []
    to [] h x m = elim m [ ]
    to (y ∷ ys) h x (Memᴰ.head e) = rw e ((append-eq-nil (f y) (flat_map f ys)).0 h).0
    to (y ∷ ys) h x (Memᴰ.tail m) = to ys ((append-eq-nil (f y) (flat_map f ys)).0 h).1 x m

    from : (ys : List _) → ((x : _) → Memᴰ x ys → f x ≡ []) → flat_map f ys ≡ []
    from [] h = refl
    from (y ∷ ys) h =
        (append-eq-nil (f y) (flat_map f ys)).1
          (h y (Memᴰ.head refl), from ys (λ x m. h x (Memᴰ.tail m)))

pub filter-eq-nil :
    {A : Type 0} (p : A → Bool) (xs : List A)
    → (filter p xs ≡ []) ↔ ((x : A) → Memᴰ x xs → p x ≡ false)
filter-eq-nil p xs = (to xs, from xs)
  where
    to : (ys : List _) → filter p ys ≡ [] → (x : _) → Memᴰ x ys → p x ≡ false
    to [] h x m = elim m [ ]
    to (y ∷ ys) h x (Memᴰ.head e) = ground arith
    to (y ∷ ys) h x (Memᴰ.tail m) = to ys (ground arith) x m

    from : (ys : List _) → ((x : _) → Memᴰ x ys → p x ≡ false) → filter p ys ≡ []
    from [] h = refl
    from (y ∷ ys) h = ground (arith, h y (Memᴰ.head refl), from ys (λ x m. h x (Memᴰ.tail m)))

pub is_empty_iff : {A : Type 0} (xs : List A) → (is_empty xs ≡ true) ↔ (xs ≡ [])
is_empty_iff [] = ground arith
is_empty_iff (x ∷ xs) = ground arith

pub some_iff : {A : Type 0} (xs : List A) → (is_empty xs ≡ false) ↔ (xs ≢ [])
some_iff [] = ground arith
some_iff (x ∷ xs) = ground arith
