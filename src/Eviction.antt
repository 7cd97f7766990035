-- ===== src/Eviction.antt =====
-- internal/eviction/eviction.go: the worker that drops packages which were not requested for the
-- time to live.
pub mod Cycle
pub mod Removal
pub mod Survival
pub mod Hits
use cache_proxyfy.Prelude.{
  ℕ, ◌+◌, ◌-◌, Bytes, Option, none, some, List, [], ◌∷◌, length, Result, ok, err, if◌then◌else◌,
}
use cache_proxyfy.Prelude.Integers.{signed_lt}
use cache_proxyfy.Db.Schema.{PackageKey, Package, Database, DbError}
use cache_proxyfy.Db.Packages.{delete_package}
use cache_proxyfy.Db.Listing.{list_expired_packages}
use cache_proxyfy.Cache.Redis.{Redis}
use cache_proxyfy.Cache.Client
use cache_proxyfy.Storage.Backend.{StorageBackend, StorageError}

-- Whose error ends the eviction of a package.
pub data EvictError : Type 0 where
  store_refused : StorageError → EvictError
  db_refused : DbError → EvictError

-- The counters of one cycle.
pub record Tally : Type 0 where
  pub evicted : ℕ
  pub failed : ℕ
  pub bytes_freed : ℕ

abbrev pub no_tally : Tally
no_tally = record { evicted = 0; failed = 0; bytes_freed = 0 }

abbrev pub count_failed : Tally → Tally
count_failed t = record t { failed = t.failed + 1 }

abbrev pub count_evicted : Package → Tally → Tally
count_evicted r t = record t { evicted = t.evicted + 1; bytes_freed = t.bytes_freed + r.size_bytes }

abbrev pub count_result : Package → Result EvictError Unit → Tally → Tally
count_result r (ok u) = count_evicted r
count_result r (err e) = count_failed

-- How a cycle ends.
pub data Report : Type 0 where
  list_failed : DbError → Report
  nothing_to_evict : Report
  complete : (attempted : ℕ) (tally : Tally) → Report

module _ (redis : Redis) (backend : StorageBackend) where
  -- What the worker works on.
  pub record Holdings : Type 0 where
    pub db : Database
    pub cache : Client.Client redis
    pub store : backend.State

module _ (redis : Redis) (backend : StorageBackend) where
  abbrev pub H : Type 0
  H = Holdings redis backend

  -- The row goes last.
  unfoldable pub evict_row : Package → H → Result EvictError Unit × H
  evict_row r s =
      let (done, db') = delete_package r.id s.db in
      (elim done [ ok u ↦ ok tt | err e ↦ err (db_refused e) ], record s { db = db' })

  -- The key in Redis goes before the row; its error is only logged.
  unfoldable pub evict_key : Package → H → H
  evict_key r s = record s { cache = (Client.delete redis s.cache r.key).1 }

  -- `evictOne`: an error of the store leaves Redis and the row as they are.
  unfoldable pub evict_one : Package → H → Result EvictError Unit × H
  evict_one r s =
      let (done, store') = backend.delete s.store r.checksum in
      let s₁ : H = record s { store = store' } in
      elim done [ ok u ↦ evict_row r (evict_key r s₁) | err e ↦ (err (store_refused e), s₁) ]

  -- The loop over the expired packages.
  unfoldable pub evict_all : List Package → Tally → H → Tally × H
  evict_all [] t s = (t, s)
  evict_all (r ∷ rs) t s = let (done, s₁) = evict_one r s in evict_all rs (count_result r done t) s₁

  unfoldable pub evict_listed : List Package → H → Report × H
  evict_listed [] s = (nothing_to_evict, s)
  evict_listed (r ∷ rs) s =
      let (t, s') = evict_all (r ∷ rs) no_tally s in (complete (length (r ∷ rs)) t, s')

  -- One cycle, with the clock of the database host for `time.Now`.
  unfoldable pub evict : ℕ → H → Report × H
  evict ttl s =
      let (listed, db') = list_expired_packages (s.db.now - ttl) s.db in
      let s₁ : H = record s { db = db' } in
      elim listed [ ok rs ↦ evict_listed rs s₁ | err e ↦ (list_failed e, s₁) ]

  -- The cycles of the ticker, with what others do until each tick.
  unfoldable pub tick : ℕ → List (H → H) → H → List Report × H
  tick ttl [] s = ([], s)
  tick ttl (others ∷ ticks) s =
      let (report, s₁) = evict ttl (others s) in
      let (reports, s₂) = tick ttl ticks s₁ in (report ∷ reports, s₂)

  -- `Run` until it is cancelled: a cycle at once, and then one for each tick. Where `ttl` is not
  -- positive it only waits.
  unfoldable pub run : ℕ → List (H → H) → H → List Report × H
  run ttl ticks s =
      if signed_lt 0 ttl
      then (let (report, s₁) = evict ttl s in
          let (reports, s₂) = tick ttl ticks s₁ in (report ∷ reports, s₂))
      else ([], s)

-- time.Hour
abbrev pub hour : ℕ
hour = 3600000000000

-- The period of the ticker.
unfoldable pub ticker_period : ℕ → ℕ
ticker_period interval = if signed_lt 0 interval then interval else hour
