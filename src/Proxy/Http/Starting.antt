-- ===== src/Proxy/Http/Starting.antt =====
-- Requests count only in series that internal/metrics/metrics.go starts.
use cache_proxyfy.Prelude.{
  ◌+◌, ◌≡◌, sym, ap, subst, inl, inr, Bytes, Bool, Option, none, some, List, arith, Result, ok, err,
  Result-cases, length, ◌∙◌,
}
use cache_proxyfy.Ecosystem.Package.{Package}
use cache_proxyfy.Cache.Redis.{Redis}
use cache_proxyfy.Cache.Client
use cache_proxyfy.Storage.Backend.{StorageBackend}
use cache_proxyfy.RateLimit.{RateLibrary}
use cache_proxyfy.Db.Schema
use cache_proxyfy.Db.Packages.{get_package}
use cache_proxyfy.Security.Advisory.{Outcome, allow, warn, block}
use cache_proxyfy.Security.Checker.{check}
use cache_proxyfy.Proxy.Retry.{fetch_from_upstream}
use cache_proxyfy.Proxy.Router.{Handler, lower_all, new_router}
use cache_proxyfy.Proxy.World.{Proxy}
use cache_proxyfy.Proxy.Serve.{
  ServeError, Circumstances, DbLookup, previously_blocked, located, absent, W, Served,
  open_artifact, lookup_cache, lookup_row, lookup_db, fetch_as_leader, fetch, keep_artifact,
  deliver, note_scan, serve_scanned, serve_upstream, serve_uncached, serve_after_cache, serve,
}
use cache_proxyfy.Proxy.Http.{
  Request, MetadataReply, Route, to_health, to_nothing, to_metadata, to_package, handle_health,
  finish, serve_route, serve_http, route,
}
use cache_proxyfy.Proxy.Http.Series.{
  AreStarted, requests-IsStarted, errors-IsStarted, bytes-IsStarted, fetches-IsStarted,
  scans-IsStarted, repeat_metric-AreStarted,
}
use cache_proxyfy.Proxy.Http.Routing.{Among, RouteOn, route-RouteOn}

module _ (redis : Redis) (backend : StorageBackend) (rate : RateLibrary) (names : List Bytes) where
  abbrev Good : W redis backend rate → Type 0
  Good w = AreStarted names w.metrics

  lookup_cache-Good :
      (k : Schema.PackageKey) (w : W redis backend rate)
      → Good w
      → Good (lookup_cache redis backend rate k w).1
  unfolding lookup_cache open_artifact
  lookup_cache-Good k w h = elim (Result-cases (Client.get redis w.cache k).0) [
    | inl (s, e) ↦ rw (e, lookup_cache) h
    | inr (x, e) ↦ rw (e, lookup_cache) h
  ]

  lookup_row-Good :
      (r : Schema.Package) (w : W redis backend rate)
      → Good w
      → Good (lookup_row redis backend rate r w).1
  unfolding lookup_row open_artifact
  lookup_row-Good r w h = ground arith

  lookup_db-Good :
      (k : Schema.PackageKey) (w : W redis backend rate)
      → Good w
      → Good (lookup_db redis backend rate k w).1
  unfolding lookup_db
  lookup_db-Good k w h = elim (Result-cases (get_package k w.db).0) [
    | inl (r, e) ↦
        rw (e, lookup_db) (lookup_row-Good r (record w { db = (get_package k w.db).1 }) h)
    | inr (x, e) ↦ rw (e, lookup_db) h
  ]

  module _ (p : Proxy) (c : Circumstances) (pkg : Package) (on : Among pkg.ecosystem names) where
    fetch_as_leader-Good :
        (w : W redis backend rate) → Good w → Good (fetch_as_leader redis backend rate p c pkg w).1
    unfolding fetch_as_leader
    fetch_as_leader-Good w h = ground (
      arith,
      repeat_metric-AreStarted names pkg.ecosystem on
          (fetch_from_upstream c.jitter p.retry c.replies c.ended).delays w.metrics h,
    )

    fetch-Good : (w : W redis backend rate) → Good w → Good (fetch redis backend rate p c pkg w).2
    unfolding fetch AreStarted
    fetch-Good w h =
        ground (arith, fetch_as_leader-Good w h, fetches-IsStarted names pkg.ecosystem on)

    module _ (ecosystem : Bytes) (q : Handler) where
      deliver-Good :
          (f : Result ServeError Bytes × Bool × W redis backend rate)
          → Good f.2
          → Good (deliver redis backend rate c ecosystem q pkg f).1
      unfolding deliver keep_artifact
      deliver-Good (err e, led, w) h = h
      deliver-Good (ok b, led, w) h = ground arith

      serve_scanned-Good :
          (o : Outcome) (w : W redis backend rate)
          → Good w
          → Good (serve_scanned redis backend rate p c ecosystem q pkg o w).1
      unfolding serve_scanned
      serve_scanned-Good block w h = h
      serve_scanned-Good warn w h =
          deliver-Good (fetch redis backend rate p c pkg w) (fetch-Good w h)
      serve_scanned-Good allow w h =
          deliver-Good (fetch redis backend rate p c pkg w) (fetch-Good w h)

      serve_uncached-Good :
          (l : DbLookup) (w : W redis backend rate)
          → Good w
          → Good (serve_uncached redis backend rate p c ecosystem q pkg (l, w)).1
      unfolding serve_uncached serve_upstream note_scan AreStarted
      serve_uncached-Good previously_blocked w h = h
      serve_uncached-Good (located s b) w h = h
      serve_uncached-Good absent w h =
          let v = check p.checker pkg.ecosystem pkg.name pkg.version in
          serve_scanned-Good v.outcome (note_scan redis backend rate pkg.key v w)
            (scans-IsStarted names pkg.ecosystem on v, h)

      serve_after_cache-Good :
          (found : Option Bytes) (w : W redis backend rate)
          → Good w
          → Good (serve_after_cache redis backend rate p c ecosystem q pkg (found, w)).1
      unfolding serve_after_cache
      serve_after_cache-Good (some b) w h = h
      serve_after_cache-Good none w h =
          serve_uncached-Good (lookup_db redis backend rate pkg.key w).0
            (lookup_db redis backend rate pkg.key w).1 (lookup_db-Good pkg.key w h)

      serve-Good :
          (w : W redis backend rate)
          → Good w
          → Good (serve redis backend rate p c ecosystem q pkg w).1
      unfolding serve
      serve-Good w h =
          serve_after_cache-Good (lookup_cache redis backend rate pkg.key w).0
            (lookup_cache redis backend rate pkg.key w).1 (lookup_cache-Good pkg.key w h)

  finish-Good :
      (e : Bytes) (s : Served redis backend rate)
      → Among e names
      → Good s.1
      → Good (finish redis backend rate e s).1
  unfolding finish AreStarted
  finish-Good e (ok a, w) on h = (
    bytes-IsStarted names e on a.status (length a.body),
    (requests-IsStarted names e on a.status, h),
  )
  finish-Good e (err x, w) on h = (errors-IsStarted names e on, h)

  serve_route-Good :
      (p : Proxy) (c : Circumstances) (registry : Bytes → MetadataReply) (r : Request) (q : Route)
      (w : W redis backend rate)
      → RouteOn names q
      → Good w
      → Good (serve_route redis backend rate p c registry r q w).1
  unfolding serve_route handle_health
  serve_route-Good p c registry r to_health w on h = h
  serve_route-Good p c registry r to_nothing w on h = h
  serve_route-Good p c registry r (to_metadata q) w on h = h
  serve_route-Good p c registry r (to_package e q pkg) w (on, same) h =
      finish-Good e (serve redis backend rate p c e q pkg (record w { inflight = w.inflight + 1 }))
        on
        (serve-Good p c pkg (subst (λ x. Among x names) (sym same) on) e q
          (record w { inflight = w.inflight + 1 }) h)

  -- Where the configured ecosystems are in lower case, a request counts only in series that New
  -- starts at zero for them, whatever its path and whichever way it is answered.
  pub serve_http-AreStarted :
      (p : Proxy) (c : Circumstances) (registry : Bytes → MetadataReply) (r : Request)
      (w : W redis backend rate)
      → p.router ≡ new_router names
      → lower_all names ≡ names
      → AreStarted names w.metrics
      → AreStarted names (serve_http redis backend rate p c registry r w).1.metrics
  unfolding serve_http new_router
  serve_http-AreStarted p c registry r w routed low h =
      serve_route-Good p c registry r (route p.router r.path) w
        (subst (λ ns. RouteOn ns (route p.router r.path)) (ap (λ x. x.enabled) routed ∙ low)
          (route-RouteOn p.router r.path))
        h
