-- ===== src/Proxy/Http/Accounting.antt =====
-- The gauge of requests in flight and the counter of requests.
use cache_proxyfy.Prelude.{
  ℕ, ◌+◌, ◌-◌, ◌≡◌, inl, inr, refl, Bytes, Bool, Option, none, some, List, [], ◌∷◌, arith, Result,
  ok, err, Result-cases,
}
use cache_proxyfy.Cache.Redis.{Redis}
use cache_proxyfy.Cache.Client
use cache_proxyfy.Storage.Backend.{StorageBackend}
use cache_proxyfy.RateLimit.{RateLibrary}
use cache_proxyfy.Db.Schema
use cache_proxyfy.Db.Packages.{get_package}
use cache_proxyfy.Security.Advisory.{Outcome, allow, warn, block}
use cache_proxyfy.Security.Checker.{check}
use cache_proxyfy.Ecosystem.Package.{Package}
use cache_proxyfy.Proxy.Retry.{fetch_from_upstream}
use cache_proxyfy.Proxy.Router.{Handler}
use cache_proxyfy.Proxy.World.{
  Proxy, Metric, requests_total, bytes_served_total, upstream_fetches_total, cve_scans_total,
  upstream_retries_total,
}
use cache_proxyfy.Proxy.Serve.{
  ServeError, Circumstances, DbLookup, previously_blocked, located, absent, W, Served,
  repeat_metric, open_artifact, lookup_cache, lookup_row, lookup_db, fetch_as_leader, fetch,
  keep_artifact, deliver, note_scan, serve_scanned, serve_upstream, serve_uncached,
  serve_after_cache, serve,
}
use cache_proxyfy.Proxy.Http.{
  Request, MetadataReply, Route, to_health, to_nothing, to_metadata, to_package, handle_health,
  finish, serve_route, serve_http, route,
}

-- How often the counter of requests was incremented.
unfoldable pub requests : List Metric → ℕ
requests [] = 0
requests (requests_total e r ∷ ms) = requests ms + 1
requests (bytes_served_total e r n ∷ ms) = requests ms
requests (upstream_fetches_total e s ∷ ms) = requests ms
requests (cve_scans_total e o ∷ ms) = requests ms
requests (upstream_retries_total e ∷ ms) = requests ms

requests-repeat_metric :
    (e : Bytes) (ds : List ℕ) (ms : List Metric)
    → requests (repeat_metric (upstream_retries_total e) ds ms) ≡ requests ms
unfolding requests
requests-repeat_metric e [] ms = refl
requests-repeat_metric e (d ∷ ds) ms = requests-repeat_metric e ds ms

module _ (redis : Redis) (backend : StorageBackend) (rate : RateLibrary) where
  -- The gauge and the counter are as before.
  abbrev Quiet : W redis backend rate → W redis backend rate → Type 0
  Quiet w w' = (w'.inflight ≡ w.inflight) × (requests w'.metrics ≡ requests w.metrics)

  lookup_cache-Quiet :
      (k : Schema.PackageKey) (w : W redis backend rate)
      → Quiet w (lookup_cache redis backend rate k w).1
  unfolding lookup_cache open_artifact
  lookup_cache-Quiet k w = elim (Result-cases (Client.get redis w.cache k).0) [
    | inl (s, e) ↦ rw (e, lookup_cache) (refl, refl)
    | inr (x, e) ↦ rw (e, lookup_cache) (refl, refl)
  ]

  lookup_row-Quiet :
      (r : Schema.Package) (w : W redis backend rate)
      → Quiet w (lookup_row redis backend rate r w).1
  unfolding lookup_row open_artifact
  lookup_row-Quiet r w = ground arith

  lookup_db-Quiet :
      (k : Schema.PackageKey) (w : W redis backend rate)
      → Quiet w (lookup_db redis backend rate k w).1
  unfolding lookup_db
  lookup_db-Quiet k w = elim (Result-cases (get_package k w.db).0) [
    | inl (r, e) ↦ rw (e, lookup_db) (lookup_row-Quiet r (record w { db = (get_package k w.db).1 }))
    | inr (x, e) ↦ rw (e, lookup_db) (refl, refl)
  ]

  fetch_as_leader-Quiet :
      (p : Proxy) (c : Circumstances) (pkg : Package) (w : W redis backend rate)
      → Quiet w (fetch_as_leader redis backend rate p c pkg w).1
  unfolding fetch_as_leader
  fetch_as_leader-Quiet p c pkg w = ground (
    arith,
    requests-repeat_metric pkg.ecosystem
        (fetch_from_upstream c.jitter p.retry c.replies c.ended).delays w.metrics,
  )

  fetch-Quiet :
      (p : Proxy) (c : Circumstances) (pkg : Package) (w : W redis backend rate)
      → Quiet w (fetch redis backend rate p c pkg w).2
  unfolding fetch requests
  fetch-Quiet p c pkg w = ground (arith, fetch_as_leader-Quiet p c pkg w)

  module _ (p : Proxy) (c : Circumstances) (ecosystem : Bytes) (h : Handler) (pkg : Package) where
    deliver-Quiet :
        (f : Result ServeError Bytes × Bool × W redis backend rate)
        → Quiet f.2 (deliver redis backend rate c ecosystem h pkg f).1
    unfolding deliver keep_artifact
    deliver-Quiet (err e, led, w) = (refl, refl)
    deliver-Quiet (ok b, led, w) = ground arith

    serve_scanned-Quiet :
        (o : Outcome) (w : W redis backend rate)
        → Quiet w (serve_scanned redis backend rate p c ecosystem h pkg o w).1
    unfolding serve_scanned
    serve_scanned-Quiet block w = (refl, refl)
    serve_scanned-Quiet warn w =
        ground (arith, deliver-Quiet (fetch redis backend rate p c pkg w), fetch-Quiet p c pkg w)
    serve_scanned-Quiet allow w =
        ground (arith, deliver-Quiet (fetch redis backend rate p c pkg w), fetch-Quiet p c pkg w)

    serve_uncached-Quiet :
        (l : DbLookup) (w : W redis backend rate)
        → Quiet w (serve_uncached redis backend rate p c ecosystem h pkg (l, w)).1
    unfolding serve_uncached serve_upstream note_scan requests
    serve_uncached-Quiet previously_blocked w = (refl, refl)
    serve_uncached-Quiet (located s b) w = (refl, refl)
    serve_uncached-Quiet absent w =
        let v = check p.checker pkg.ecosystem pkg.name pkg.version in
        serve_scanned-Quiet v.outcome (note_scan redis backend rate pkg.key v w)

    serve_after_cache-Quiet :
        (found : Option Bytes) (w : W redis backend rate)
        → Quiet w (serve_after_cache redis backend rate p c ecosystem h pkg (found, w)).1
    unfolding serve_after_cache
    serve_after_cache-Quiet (some b) w = (refl, refl)
    serve_after_cache-Quiet none w = ground (
      arith,
      lookup_db-Quiet pkg.key w,
      serve_uncached-Quiet (lookup_db redis backend rate pkg.key w).0
          (lookup_db redis backend rate pkg.key w).1,
    )

    serve-Quiet :
        (w : W redis backend rate) → Quiet w (serve redis backend rate p c ecosystem h pkg w).1
    unfolding serve
    serve-Quiet w = ground (
      arith,
      lookup_cache-Quiet pkg.key w,
      serve_after_cache-Quiet (lookup_cache redis backend rate pkg.key w).0
          (lookup_cache redis backend rate pkg.key w).1,
    )

  -- How much a request adds to the counter of requests: 1 for a package, else 0.
  unfoldable pub requested : Route → ℕ
  requested to_health = 0
  requested to_nothing = 0
  requested (to_metadata h) = 0
  requested (to_package ecosystem h pkg) = 1

  finish-counts :
      (ecosystem : Bytes) (s : Served redis backend rate)
      → ((finish redis backend rate ecosystem s).1.inflight ≡ s.1.inflight - 1)
        × (requests (finish redis backend rate ecosystem s).1.metrics ≡ requests s.1.metrics + 1)
  unfolding finish requests
  finish-counts ecosystem (ok a, w) = (refl, refl)
  finish-counts ecosystem (err e, w) = (refl, refl)

  serve_route-accounted :
      (p : Proxy) (c : Circumstances) (registry : Bytes → MetadataReply) (r : Request) (q : Route)
      (w : W redis backend rate)
      → ((serve_route redis backend rate p c registry r q w).1.inflight ≡ w.inflight)
        × (requests (serve_route redis backend rate p c registry r q w).1.metrics
            ≡ requests w.metrics + requested q)
  unfolding serve_route handle_health requested
  serve_route-accounted p c registry r to_health w = (refl, omega arith)
  serve_route-accounted p c registry r to_nothing w = (refl, omega arith)
  serve_route-accounted p c registry r (to_metadata h) w = (refl, omega arith)
  serve_route-accounted p c registry r (to_package ecosystem h pkg) w =
      let w₁ : W redis backend rate = record w { inflight = w.inflight + 1 } in
      ground (
        arith,
        serve-Quiet p c ecosystem h pkg w₁,
        finish-counts ecosystem (serve redis backend rate p c ecosystem h pkg w₁),
      )

  -- A request leaves the gauge of requests in flight as it found it, whichever way it is answered,
  -- and is counted once if it names a package; one for the health, for metadata or for no route is
  -- not counted, although the proxy completes it.
  pub serve_http-accounted :
      (p : Proxy) (c : Circumstances) (registry : Bytes → MetadataReply) (r : Request)
      (w : W redis backend rate)
      → ((serve_http redis backend rate p c registry r w).1.inflight ≡ w.inflight)
        × (requests (serve_http redis backend rate p c registry r w).1.metrics
            ≡ requests w.metrics + requested (route p.router r.path))
  unfolding serve_http
  serve_http-accounted p c registry r w =
      serve_route-accounted p c registry r (route p.router r.path) w
