-- ===== src/Eviction/Cycle.antt =====
-- The counters of an eviction cycle.
use cache_proxyfy.Prelude.{
  ℕ, ◌+◌, ◌-◌, ◌≡◌, ◌≤◌, inl, inr, List, [], ◌∷◌, arith, length, Result, ok, err, Result-cases,
}
use cache_proxyfy.Db.Schema.{Package}
use cache_proxyfy.Db.Listing.{list_expired_packages}
use cache_proxyfy.Cache.Redis.{Redis}
use cache_proxyfy.Storage.Backend.{StorageBackend}
use cache_proxyfy.Eviction.{
  EvictError, Tally, no_tally, count_result, complete, H, evict_one, evict_all, evict_listed, evict,
}

-- What the listed packages occupy.
unfoldable pub total_size : List Package → ℕ
total_size [] = 0
total_size (r ∷ rs) = r.size_bytes + total_size rs

module _ (redis : Redis) (backend : StorageBackend) where
  counted :
      (r : Package) (done : Result EvictError Unit) (t : Tally)
      → ((count_result r done t).evicted + (count_result r done t).failed
          ≡ t.evicted + t.failed + 1)
        × ((count_result r done t).bytes_freed ≤ t.bytes_freed + r.size_bytes)
  counted r (ok u) t = (omega arith, omega arith)
  counted r (err e) t = (omega arith, omega arith)

  evict_all-tally :
      (rs : List Package) (t : Tally) (s : H redis backend)
      → ((evict_all redis backend rs t s).0.evicted + (evict_all redis backend rs t s).0.failed
          ≡ t.evicted + t.failed + length rs)
        × ((evict_all redis backend rs t s).0.bytes_freed ≤ t.bytes_freed + total_size rs)
  unfolding evict_all total_size
  evict_all-tally [] t s = (omega arith, omega arith)
  evict_all-tally (r ∷ rs) t s = ground (
    arith,
    counted r (evict_one redis backend r s).0 t,
    evict_all-tally rs (count_result r (evict_one redis backend r s).0 t)
        (evict_one redis backend r s).1,
  )

  evict_listed-tally :
      (rs : List Package) (s : H redis backend) (n : ℕ) (t : Tally)
      → (evict_listed redis backend rs s).0 ≡ complete n t
      → (n ≡ length rs) × (t.evicted + t.failed ≡ n) × (t.bytes_freed ≤ total_size rs)
  unfolding evict_listed
  evict_listed-tally [] s n t q = absurd (cc)
  evict_listed-tally (r ∷ rs) s n t q = ground (arith, evict_all-tally (r ∷ rs) no_tally s)

  -- A cycle that ends complete attempted every package that the query listed, counted each of them
  -- once, as evicted or as failed, and freed no more than they occupy.
  pub evict-tally :
      (ttl : ℕ) (s : H redis backend) (n : ℕ) (t : Tally)
      → (evict redis backend ttl s).0 ≡ complete n t
      → (rs : List Package) × ((list_expired_packages (s.db.now - ttl) s.db).0 ≡ ok rs)
        × (n ≡ length rs)
        × (t.evicted + t.failed ≡ n)
        × (t.bytes_freed ≤ total_size rs)
  unfolding evict
  evict-tally ttl s n t q = elim (Result-cases (list_expired_packages (s.db.now - ttl) s.db).0) [
    | inl (rs, e) ↦
        let s₁ : H redis backend = record s {
          db = (list_expired_packages (s.db.now - ttl) s.db).1;
        } in
        let (all, each, freed) = evict_listed-tally rs s₁ n t (ground arith) in
        (rs, e, all, each, freed)
    | inr (x, e) ↦ absurd (ground arith)
  ]
