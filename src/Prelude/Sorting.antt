-- ===== src/Prelude/Sorting.antt =====
-- ORDER BY as an insertion sort, with what the statements rely on: order, and the same rows.
use Prim.Native.Nat.{ℕ, suc}
use mathlib.Core.Path.{◌≡◌, refl}
use mathlib.Core.Logic.{inl, inr}
use mathlib.Core.Bool.{Bool, true, false, ◌||◌}
use mathlib.Core.List.{List, [], ◌∷◌, Perm}
use mathlib.Core.List.Perm
use native.Mathlib.Omega.{arith}
use cache_proxyfy.Prelude.Tests.{leb, if◌then◌else◌, Bool-cases}
use cache_proxyfy.Prelude.Lists.{All, length, any}

-- ASC and DESC on a number.
abbrev pub ascending : {A : Type 0} → (A → ℕ) → A → A → Bool
ascending rank a b = leb (rank a) (rank b)

abbrev pub descending : {A : Type 0} → (A → ℕ) → A → A → Bool
descending rank a b = leb (rank b) (rank a)

module _ {A : Type 0} (before : A → A → Bool) where
  abbrev insert_by : A → List A → List A
  insert_by a [] = a ∷ []
  insert_by a (x ∷ xs) = let rest = insert_by a xs in if before a x then a ∷ x ∷ xs else x ∷ rest

  -- The order among equals, which SQL leaves open, is that of the rows.
  unfoldable pub order_by : List A → List A
  order_by [] = []
  order_by (x ∷ xs) = insert_by x (order_by xs)

  -- Each element stands before all that follow.
  abbrev pub IsSorted : List A → Type 0
  IsSorted [] = Unit
  IsSorted (x ∷ xs) = All (λ y. before x y ≡ true) xs × IsSorted xs

  insert_by-perm : (a : A) (xs : List A) → Perm (insert_by a xs) (a ∷ xs)
  insert_by-perm a [] = Perm.refl (a ∷ [])
  insert_by-perm a (x ∷ xs) = elim (Bool-cases (before a x)) [
    | inl e ↦ rw e (Perm.refl (a ∷ x ∷ xs))
    | inr e ↦ rw e (Perm.trans (Perm.cons x (insert_by-perm a xs)) (Perm.swap a x xs))
  ]

  pub order_by-perm : (xs : List A) → Perm (order_by xs) xs
  unfolding order_by
  order_by-perm [] = Perm.refl []
  order_by-perm (x ∷ xs) =
      Perm.trans (insert_by-perm x (order_by xs)) (Perm.cons x (order_by-perm xs))

  All-insert_by : (P : A → Type 0) (a : A) (xs : List A) → P a → All P xs → All P (insert_by a xs)
  All-insert_by P a [] p h = (p, tt)
  All-insert_by P a (x ∷ xs) p (q, h) = elim (Bool-cases (before a x)) [
    | inl e ↦ rw (e, All) (p, (q, h))
    | inr e ↦ rw (e, All) (q, All-insert_by P a xs p h)
  ]

  module _ (total : (a b : A) → before a b ≡ false → before b a ≡ true)
      (trans : (a b c : A) → before a b ≡ true → before b c ≡ true → before a c ≡ true) where
    All-before :
        (a x : A) (xs : List A)
        → before a x ≡ true
        → All (λ y. before x y ≡ true) xs
        → All (λ y. before a y ≡ true) xs
    All-before a x [] e h = tt
    All-before a x (y ∷ ys) e (q, h) = (trans a x y e q, All-before a x ys e h)

    insert_by-IsSorted : (a : A) (xs : List A) → IsSorted xs → IsSorted (insert_by a xs)
    insert_by-IsSorted a [] h = (tt, tt)
    insert_by-IsSorted a (x ∷ xs) (q, h) = elim (Bool-cases (before a x)) [
      | inl e ↦ rw (e, IsSorted) ((e, All-before a x xs e q), (q, h))
      | inr e ↦
          rw (e, IsSorted)
            (All-insert_by (λ y. before x y ≡ true) a xs (total a x e) q, insert_by-IsSorted a xs h)
    ]

    pub order_by-IsSorted : (xs : List A) → IsSorted (order_by xs)
    unfolding order_by
    order_by-IsSorted [] = tt
    order_by-IsSorted (x ∷ xs) = insert_by-IsSorted x (order_by xs) (order_by-IsSorted xs)

module _ {A : Type 0} (rank : A → ℕ) where
  pub ascending-IsSorted : (xs : List A) → IsSorted (ascending rank) (order_by (ascending rank) xs)
  ascending-IsSorted =
      order_by-IsSorted (ascending rank) (λ a b h. ground arith) (λ a b c h k. ground arith)

module _ {A : Type 0} (before : A → A → Bool) where
  length-insert_by : (a : A) (xs : List A) → length (insert_by before a xs) ≡ suc (length xs)
  length-insert_by a [] = refl
  length-insert_by a (x ∷ xs) = ground (arith, length-insert_by a xs)

  pub length-order_by : (xs : List A) → length (order_by before xs) ≡ length xs
  unfolding order_by
  length-order_by [] = refl
  length-order_by (x ∷ xs) =
      omega (arith, length-order_by xs, length-insert_by x (order_by before xs))

module _ {A : Type 0} (before : A → A → Bool) (p : A → Bool) where
  any-insert_by : (a : A) (xs : List A) → any p (insert_by before a xs) ≡ (p a || any p xs)
  any-insert_by a [] = refl
  any-insert_by a (x ∷ xs) = ground (arith, any-insert_by a xs)

  pub any-order_by : (xs : List A) → any p (order_by before xs) ≡ any p xs
  unfolding order_by
  any-order_by [] = refl
  any-order_by (x ∷ xs) = ground (arith, any-order_by xs, any-insert_by x (order_by before xs))
