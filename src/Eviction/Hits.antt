-- ===== src/Eviction/Hits.antt =====
-- Packages that are requested stay: the worker of internal/eviction/eviction.go beside the goroutine
-- that `serve` of internal/proxy/proxy.go starts for a hit in Redis.
use cache_proxyfy.Prelude.{
  ℕ, ◌-◌, ◌+◌, ◌≤◌, is_ok, ◌≡◌, ap, ◌∙◌, refl, true, false, some, List, [], ◌∷◌, arith, All,
}
use cache_proxyfy.Db.Schema.{Event, hit, PackageKey, Package, Database}
use cache_proxyfy.Db.Packages.{find_row, touch_package}
use cache_proxyfy.Db.Listing.{is_expired}
use cache_proxyfy.Db.Lookup.{row_at, row_at-touch_package}
use cache_proxyfy.Db.Rows.{touched, key_eq_refl}
use cache_proxyfy.Db.Audit.{record_event}
use cache_proxyfy.Db.Consistency.{IsConsistent, Write-IsConsistent, touches, logs}
use cache_proxyfy.Cache.Redis.{Redis}
use cache_proxyfy.Storage.Backend.{StorageBackend}
use cache_proxyfy.RateLimit.{RateLibrary}
use cache_proxyfy.Proxy.World.{World, touch_and_record}
use cache_proxyfy.Proxy.Tasks.{run_task, log_event}
use cache_proxyfy.Eviction.{H, run}
use cache_proxyfy.Eviction.Survival.{IsFresh, Refreshes, Refreshes-run}

row_at-touched :
    (j : PackageKey) (d : Database) (q : Package)
    → row_at j d ≡ some q
    → is_ok (touch_package j d).0 ≡ true
    → row_at j (touch_package j d).1 ≡ some (touched d.now q)
row_at-touched j d q e done = ground (arith, row_at-touch_package j d j, key_eq_refl j)

touch_package-now : (j : PackageKey) (d : Database) → (touch_package j d).1.now ≡ d.now
unfolding touch_package
touch_package-now j d = ground arith

record_event-kept :
    (k : PackageKey) (e : Event) (n : ℕ) (d : Database)
    → ((record_event k e n d).1.packages ≡ d.packages) × ((record_event k e n d).1.now ≡ d.now)
unfolding record_event
record_event-kept k e n d = ground arith

touched-fresh :
    (ttl time now : ℕ) (q : Package)
    → time ≤ ttl
    → is_expired ((now + time) - ttl) (touched now q) ≡ false
touched-fresh ttl time now q h = ground arith

module _ (redis : Redis) (backend : StorageBackend) (rate : RateLibrary) where
  -- Before the tick comes, the goroutine of a hit in Redis runs for the package, in any world with a
  -- consistent database that has its row; the row is touched, and then no more than the time to live
  -- goes by.
  pub record HasHit (ttl : ℕ) (j : PackageKey) (d : Database) : Type 0 where
    pub before : World redis backend rate
    pub bytes : ℕ
    pub time : ℕ
    pub row : Package
    pub consistent : IsConsistent before.db
    pub has_row : row_at j before.db ≡ some row
    pub was_touched : is_ok (touch_package j before.db).0 ≡ true
    pub in_time : time ≤ ttl
    pub database : d ≡ (
        let d₁ = (run_task redis backend rate (touch_and_record j bytes) before).db in
        record d₁ { now = d₁.now + time })

  -- Where the package has its row, it has such a hit before the tick.
  unfoldable pub IsHitBefore : ℕ → PackageKey → (H redis backend → H redis backend) → Type 0
  IsHitBefore ttl j others =
      (s : H redis backend) (r : Package)
      → IsConsistent s.db
      → row_at j s.db ≡ some r
      → HasHit ttl j (others s).db

  -- What the goroutine leaves in the database.
  run_hit-database :
      (j : PackageKey) (bytes : ℕ) (w : World redis backend rate)
      → (run_task redis backend rate (touch_and_record j bytes) w).db
        ≡ (record_event j hit bytes (touch_package j w.db).1).1
  unfolding run_task log_event
  run_hit-database j bytes w = refl

  HasHit-IsFresh :
      (ttl : ℕ) (j : PackageKey) (s : H redis backend)
      → HasHit ttl j s.db
      → IsFresh redis backend ttl j s
  unfolding IsFresh
  HasHit-IsFresh ttl j s h =
      rw (h.database, run_hit-database j h.bytes h.before)
        (
          Write-IsConsistent (logs j hit h.bytes) (Write-IsConsistent (touches j) h.consistent),
          touched h.before.db.now h.row,
          ap (find_row j) (record_event-kept j hit h.bytes (touch_package j h.before.db).1).0
              ∙ row_at-touched j h.before.db h.row h.has_row h.was_touched,
          ap (λ n. is_expired ((n + h.time) - ttl) (touched h.before.db.now h.row))
                ((record_event-kept j hit h.bytes (touch_package j h.before.db).1).1
                  ∙ touch_package-now j h.before.db)
              ∙ touched-fresh ttl h.time h.before.db.now h.row h.in_time,
        )

  hits-Refresh :
      (ttl : ℕ) (j : PackageKey) (ticks : List (H redis backend → H redis backend))
      → All (IsHitBefore ttl j) ticks
      → All (Refreshes redis backend ttl j) ticks
  unfolding IsHitBefore Refreshes
  hits-Refresh ttl j [] h = tt
  hits-Refresh ttl j (others ∷ ticks) h =
      (λ s r c e. HasHit-IsFresh ttl j (others s) (h.0 s r c e), hits-Refresh ttl j ticks h.1)

  -- The worker never evicts a package whose row, in a consistent database, is not expired when it
  -- starts, and that has a hit in Redis before each tick, no longer ago than the time to live, whose
  -- goroutine touches its row in a consistent database: in whatever way other calls fail, and whatever
  -- else the others do, the package has its row in the end.
  pub run-fresh :
      (ttl : ℕ) (ticks : List (H redis backend → H redis backend)) (j : PackageKey)
      (s : H redis backend)
      → IsFresh redis backend ttl j s
      → All (IsHitBefore ttl j) ticks
      → (q : Package) × (row_at j (run redis backend ttl ticks s).1.db ≡ some q)
  run-fresh ttl ticks j s f h =
      Refreshes-run redis backend ttl ticks j s f (hits-Refresh ttl j ticks h)
