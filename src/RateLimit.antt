-- ===== src/RateLimit.antt =====
-- internal/ratelimit: independent token buckets per ecosystem. The bucket itself, of package
-- golang.org/x/time/rate, is a parameter, and so is the type of its floating-point rates.
pub mod Buckets
use cache_proxyfy.Prelude.{
  ℕ, Bytes, Bool, true, false, Option, none, some, List, [], ◌∷◌, if◌then◌else◌, ◌==◌, Result, ok,
  err,
}

pub record RateLibrary : Type 1 where
  pub Rate : Type 0
  pub Bucket : Type 0
  pub new_limiter : Rate → ℕ → Bucket
  -- Whether a token was taken before the context ended, and the bucket afterwards.
  pub wait : Bucket → Bool × Bucket

module _ {ℓ} {V : Type ℓ} where
  -- A Go map by its entries.
  unfoldable pub find : Bytes → List (Bytes × V) → Option V
  find k [] = none
  find k ((j, v) ∷ m) = if j == k then some v else find k m

  unfoldable pub store : Bytes → V → List (Bytes × V) → List (Bytes × V)
  store k v [] = (k, v) ∷ []
  store k v ((j, w) ∷ m) = if j == k then (k, v) ∷ m else (j, w) ∷ store k v m

module _ (rate : RateLibrary) where
  open rate use {Rate, Bucket, new_limiter}

  pub record EcosystemLimit : Type 0 where
    pub rps : Rate
    pub burst : ℕ

  pub record Limiter : Type 0 where
    pub enabled : Bool
    pub rps : Rate
    pub burst : ℕ
    pub overrides : List (Bytes × EcosystemLimit)
    pub buckets : List (Bytes × Bucket)

module _ (rate : RateLibrary) where
  open rate use {Rate, Bucket, new_limiter}

  unfoldable pub new : Bool → Rate → ℕ → List (Bytes × EcosystemLimit rate) → Limiter rate
  new enabled rps burst overrides = record {
    enabled = enabled;
    rps = rps;
    burst = burst;
    overrides = overrides;
    buckets = [];
  }

  -- A bucket with the ecosystem's override, or with the defaults.
  unfoldable pub fresh_bucket : Limiter rate → Bytes → Bucket
  fresh_bucket l ecosystem = elim (find ecosystem l.overrides) [
    | none ↦ new_limiter l.rps l.burst
    | some ov ↦ new_limiter ov.rps ov.burst
  ]

  unfoldable pub bucket : Limiter rate → Bytes → Bucket × Limiter rate
  bucket l ecosystem = elim (find ecosystem l.buckets) [
    | some b ↦ (b, l)
    | none ↦ (
      fresh_bucket l ecosystem,
      record l { buckets = store ecosystem (fresh_bucket l ecosystem) l.buckets },
    )
  ]

  -- The bucket in the map is shared: what the wait does to it is seen by later calls.
  unfoldable pub wait : Limiter rate → Bytes → Bool × Limiter rate
  wait l ecosystem =
      if l.enabled
      then (let (b, l₁) = bucket l ecosystem in
          let (taken, b') = rate.wait b in
          (taken, record l₁ { buckets = store ecosystem b' l₁.buckets }))
      else (true, l)
