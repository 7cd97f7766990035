-- ===== src/RateLimit/Buckets.antt =====
-- Which bucket a wait uses, and which it leaves alone.
use cache_proxyfy.Prelude.{
  ◌≡◌, refl, Bytes, true, none, some, List, [], ◌∷◌, arith, if◌then◌else◌, ◌==◌, ==_iff,
}
use cache_proxyfy.RateLimit.{RateLibrary, find, store, Limiter, fresh_bucket, bucket, wait}

find-store {ℓ} :
    {V : Type ℓ} (k j : Bytes) (v : V) (m : List (Bytes × V))
    → find j (store k v m) ≡ (if k == j then some v else find j m)
unfolding find store
find-store k j v [] = refl
find-store k j v ((i, w) ∷ m) =
    ground (arith, ==_iff k j, ==_iff i k, ==_iff i j, find-store k j v m)

module _ (rate : RateLibrary) where
  -- The bucket that a wait for an ecosystem takes its token from: the one that is there, else a new
  -- one at the override's rate and burst, else a new one at the global ones.
  abbrev pub current : Limiter rate → Bytes → rate.Bucket
  current l ecosystem = elim (find ecosystem l.buckets) [
    | some b ↦ b
    | none ↦ elim (find ecosystem l.overrides) [
      | some ov ↦ rate.new_limiter ov.rps ov.burst
      | none ↦ rate.new_limiter l.rps l.burst
    ]
  ]

  -- A wait of an enabled limiter takes its token from the bucket of its ecosystem, which is the one
  -- of the last wait, else a fresh one at the ecosystem's override, else a fresh one at the global rate; it leaves the bucket of
  -- every other ecosystem as it was. A disabled limiter lets everything through unchanged.
  pub wait-current :
      (l : Limiter rate) (ecosystem other : Bytes)
      → ((wait rate l ecosystem).0
          ≡ (if l.enabled then (rate.wait (current l ecosystem)).0 else true))
        × (current (wait rate l ecosystem).1 other ≡ (
            if l.enabled
            then (if ecosystem == other
                then (rate.wait (current l ecosystem)).1
                else current l other)
            else current l other))
  unfolding wait bucket fresh_bucket
  wait-current l ecosystem other = ground (
    arith,
    find-store ecosystem other (fresh_bucket rate l ecosystem) l.buckets,
    find-store ecosystem other (rate.wait (current l ecosystem)).1 l.buckets,
    find-store ecosystem other (rate.wait (current l ecosystem)).1
        (store ecosystem (fresh_bucket rate l ecosystem) l.buckets),
    ==_iff ecosystem other,
  )
