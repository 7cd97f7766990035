-- ===== src/Proxy/Serve.antt =====
-- `serve` of internal/proxy/proxy.go: Redis, then PostgreSQL, then the upstream registry.
pub mod Outcomes
pub mod Hits
pub mod Misses
pub mod Refusing
pub mod Blocking
pub mod Indexing
pub mod Storing
use cache_proxyfy.Prelude.{
  ℕ, ◌+◌, ◌-◌, Bytes, codes, Bool, true, false, Option, none, some, List, [], ◌∷◌, ◌++◌,
  if◌then◌else◌, length, take, min, Result, ok, err,
}
use cache_proxyfy.Db.Schema.{PackageKey, Status, cached, blocked, Database, DbError}
use cache_proxyfy.Db.Schema
use cache_proxyfy.Db.Packages.{NewPackage, get_package}
use cache_proxyfy.Cache.Redis.{Redis}
use cache_proxyfy.Cache.Client
use cache_proxyfy.Storage.Backend.{StorageBackend}
use cache_proxyfy.RateLimit
use cache_proxyfy.RateLimit.{RateLibrary}
use cache_proxyfy.Security.Advisory.{Outcome, allow, warn, block, outcome_string}
use cache_proxyfy.Security.Checker.{Verdict, check}
use cache_proxyfy.Ecosystem.Package.{Package, cache_key}
use cache_proxyfy.Proxy.Retry.{FetchError, Cause, Reply, RetryConfig, Fetched, fetch_from_upstream}
use cache_proxyfy.Proxy.Router.{Handler, rewrite_response}
use cache_proxyfy.Proxy.World.{
  Proxy, World, Metric, upstream_fetches_total, cve_scans_total, upstream_retries_total, Task,
  touch_and_record, restore_and_record, record_alerts, block_package, index_and_record,
}

-- The errors of `serve`: the two that ServeHTTP tells apart, and those of the fetch.
pub data ServeError : Type 0 where
  package_blocked : ServeError
  rate_limited : ServeError
  upstream : FetchError → ServeError

pub data CacheStatus : Type 0 where
  hit miss : CacheStatus

unfoldable pub status_string : CacheStatus → Bytes
status_string hit = codes "hit"
status_string miss = codes "miss"

-- The response that `serve` commits: the headers of `writeArtifactHeaders` with status 200, and
-- the bytes that the client took.
pub record Artifact : Type 0 where
  pub ecosystem : Bytes
  pub status : CacheStatus
  pub body : Bytes

-- What one request meets: how many bytes its client takes before the connection breaks, the replies
-- of the registry to its attempts, when its context ends, the jitter of its delays, and the result
-- of the fetch of another request for the same key that is in flight, if there is one.
pub record Circumstances : Type 0 where
  pub client_takes : ℕ
  pub replies : ℕ → Reply
  pub ended : ℕ → Option Cause
  pub jitter : ℕ → ℕ
  pub joined : Option (Result ServeError Bytes)

-- What the callback of singleflight returns.
abbrev pub lift_fetch : Result FetchError Bytes → Result ServeError Bytes
lift_fetch (ok b) = ok b
lift_fetch (err e) = err (upstream e)

abbrev pub repeat_metric : Metric → List ℕ → List Metric → List Metric
repeat_metric m [] ms = ms
repeat_metric m (_ ∷ ds) ms = m ∷ repeat_metric m ds ms

-- What L2 finds: a blocked row, a cached row with its artifact, or neither.
pub data DbLookup : Type 0 where
  previously_blocked : DbLookup
  located : (checksum content : Bytes) → DbLookup
  absent : DbLookup

abbrev pub found_with : Bytes → Option Bytes → DbLookup
found_with checksum none = absent
found_with checksum (some content) = located checksum content

module _ (redis : Redis) (backend : StorageBackend) (rate : RateLibrary) where
  abbrev pub W : Type 0
  W = World redis backend rate

  -- `go func() { … }()`
  abbrev pub start : Task → W → W
  start t w = record w { tasks = w.tasks ++ t ∷ [] }

  abbrev pub count : Metric → W → W
  count m w = record w { metrics = m ∷ w.metrics }

  -- `writeArtifactHeaders` and `io.Copy` to the client.
  abbrev pub respond : Circumstances → Bytes → CacheStatus → Bytes → Artifact
  respond c ecosystem status content = record {
    ecosystem = ecosystem;
    status = status;
    body = take c.client_takes content;
  }

  abbrev pub Served : Type 0
  Served = Result ServeError Artifact × W

  -- `p.storage.Get`, of which only success matters.
  unfoldable pub open_artifact : Bytes → W → Option Bytes × W
  open_artifact checksum w =
      let (found, store') = backend.get w.store checksum in
      (elim found [ ok b ↦ some b | err e ↦ none ], record w { store = store' })

  -- L1: the checksum in Redis and the artifact in the store.
  unfoldable pub lookup_cache : PackageKey → W → Option Bytes × W
  lookup_cache k w =
      let (found, cache') = Client.get redis w.cache k in
      let w₁ : W = record w { cache = cache' } in
      elim found [ ok checksum ↦ open_artifact checksum w₁ | err e ↦ (none, w₁) ]

  -- L2: the row in PostgreSQL and its artifact.
  unfoldable pub lookup_row : Schema.Package → W → DbLookup × W
  lookup_row row w = elim row.status [
    | blocked ↦ (previously_blocked, w)
    | cached ↦
        let (content, w') = open_artifact row.checksum w in (found_with row.checksum content, w')
  ]

  unfoldable pub lookup_db : PackageKey → W → DbLookup × W
  lookup_db k w =
      let (row, db') = get_package k w.db in
      let w₁ : W = record w { db = db' } in
      elim row [ ok r ↦ lookup_row r w₁ | err e ↦ (absent, w₁) ]

  -- The callback of singleflight: wait for a token, then fetch.
  unfoldable pub fetch_as_leader : Proxy → Circumstances → Package → W → Result ServeError Bytes × W
  fetch_as_leader p c pkg w =
      let (allowed, limiter') = RateLimit.wait rate w.limiter pkg.ecosystem in
      let w₁ : W = record w { limiter = limiter' } in
      if allowed
      then (let f = fetch_from_upstream c.jitter p.retry c.replies c.ended in
          (
            lift_fetch f.result,
            record w₁ {
              metrics = repeat_metric (upstream_retries_total pkg.ecosystem) f.delays w₁.metrics;
            },
          ))
      else (err rate_limited, w₁)

  -- `p.sf.Do` with the counter of the leader's fetches: the result, and whether this request led.
  unfoldable pub fetch : Proxy → Circumstances → Package → W → Result ServeError Bytes × Bool × W
  fetch p c pkg w = elim c.joined [
    | some shared ↦ (shared, false, w)
    | none ↦
        let (result, w₁) = fetch_as_leader p c pkg w in
        elim result [
          | ok b ↦ (ok b, true, count (upstream_fetches_total pkg.ecosystem (codes "ok")) w₁)
          | err e ↦ (err e, true, count (upstream_fetches_total pkg.ecosystem (codes "error")) w₁)
        ]
  ]

  -- The leader stores the artifact under its cache key, whether or not the store takes it, and has
  -- it indexed under that key as its checksum.
  unfoldable pub keep_artifact : Package → Bytes → W → W
  keep_artifact pkg content w =
      start
        (index_and_record
          (record { key = pkg.key; checksum = cache_key pkg; size_bytes = length content }))
        (record w { store = (backend.put w.store (cache_key pkg) content).1 })

  -- After a fetch.
  unfoldable pub deliver :
      Circumstances → Bytes → Handler → Package → Result ServeError Bytes × Bool × W → Served
  deliver c ecosystem h pkg (err e, led, w) = (err e, w)
  deliver c ecosystem h pkg (ok fetched, led, w) =
      let content = rewrite_response h fetched in
      (ok (respond c ecosystem miss content), if led then keep_artifact pkg content w else w)

  -- The counter of the scan, and the goroutine that records its alerts.
  unfoldable pub note_scan : PackageKey → Verdict → W → W
  note_scan k v w = start (record_alerts k v.outcome v.records) (
      count
        (cve_scans_total k.ecosystem
          (elim v.err [ none ↦ outcome_string v.outcome | some e ↦ codes "error" ]))
        w)

  -- Behind the scan: block, or fetch. A warning is only logged.
  unfoldable pub serve_scanned :
      Proxy → Circumstances → Bytes → Handler → Package → Outcome → W → Served
  serve_scanned p c ecosystem h pkg block w = (err package_blocked, start (block_package pkg.key) w)
  serve_scanned p c ecosystem h pkg warn w = deliver c ecosystem h pkg (fetch p c pkg w)
  serve_scanned p c ecosystem h pkg allow w = deliver c ecosystem h pkg (fetch p c pkg w)

  -- L3: scan, then fetch.
  unfoldable pub serve_upstream : Proxy → Circumstances → Bytes → Handler → Package → W → Served
  serve_upstream p c ecosystem h pkg w =
      let v = check p.checker pkg.ecosystem pkg.name pkg.version in
      serve_scanned p c ecosystem h pkg v.outcome (note_scan pkg.key v w)

  -- From L2 on.
  unfoldable pub serve_uncached :
      Proxy → Circumstances → Bytes → Handler → Package → DbLookup × W → Served
  serve_uncached p c ecosystem h pkg (previously_blocked, w) = (err package_blocked, w)
  serve_uncached p c ecosystem h pkg (located checksum content, w) =
      let a = respond c ecosystem hit content in
      (ok a, start (restore_and_record pkg.key checksum (length a.body)) w)
  serve_uncached p c ecosystem h pkg (absent, w) = serve_upstream p c ecosystem h pkg w

  -- After L1.
  unfoldable pub serve_after_cache :
      Proxy → Circumstances → Bytes → Handler → Package → Option Bytes × W → Served
  serve_after_cache p c ecosystem h pkg (some content, w) =
      let a = respond c ecosystem hit content in
      (ok a, start (touch_and_record pkg.key (length a.body)) w)
  serve_after_cache p c ecosystem h pkg (none, w) =
      serve_uncached p c ecosystem h pkg (lookup_db pkg.key w)

  unfoldable pub serve : Proxy → Circumstances → Bytes → Handler → Package → W → Served
  serve p c ecosystem h pkg w = serve_after_cache p c ecosystem h pkg (lookup_cache pkg.key w)
