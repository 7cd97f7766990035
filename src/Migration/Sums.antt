-- ===== src/Migration/Sums.antt =====
-- Sums over the workers of the migration tool's pool.
use cache_proxyfy.Prelude.{ℕ, zero, suc, ◌+◌, ◌<◌, ◌≤◌, ◌≡◌, inl, inr, refl, eqb, arith, Bool-cases}
use cache_proxyfy.Migration.Pool.{Worker, set_worker}

-- A sum over the workers.
unfoldable pub sum_below : ℕ → (ℕ → ℕ) → ℕ
sum_below zero f = 0
sum_below (suc n) f = sum_below n f + f n

pub sum_below-zero : (n : ℕ) (f : ℕ → ℕ) → ((i : ℕ) → i < n → f i ≡ 0) → sum_below n f ≡ 0
unfolding sum_below
sum_below-zero zero f h = refl
sum_below-zero (suc n) f h =
    omega (arith, sum_below-zero n f (λ i l. h i (omega arith)), h n (omega arith))

module _ (weight : Worker → ℕ) (i : ℕ) (w : Worker) (workers : ℕ → Worker) where
  abbrev before_set : ℕ → ℕ
  before_set j = weight (workers j)

  abbrev after_set : ℕ → ℕ
  after_set j = weight (set_worker i w workers j)

  sum_below-above : (n : ℕ) → n ≤ i → sum_below n after_set ≡ sum_below n before_set
  unfolding sum_below
  sum_below-above zero h = refl
  sum_below-above (suc n) h = ground (arith, sum_below-above n)

  pub sum_below-set :
      (n : ℕ)
      → i < n
      → sum_below n after_set + weight (workers i) ≡ sum_below n before_set + weight w
  unfolding sum_below
  sum_below-set zero h = absurd (omega arith)
  sum_below-set (suc n) h = elim (Bool-cases (eqb i n)) [
    | inl e ↦ ground (arith, sum_below-above n)
    | inr e ↦ ground (arith, sum_below-set n)
  ]
