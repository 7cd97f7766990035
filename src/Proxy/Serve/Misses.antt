-- ===== src/Proxy/Serve/Misses.antt =====
-- What the requests do that find nothing in the caches.
use cache_proxyfy.Prelude.{
  ◌≡◌, ◌≢◌, inl, inr, refl, sym, ap, ◌∙◌, Bytes, Bool, false, Option, none, some, arith, take,
  Result, ok, err, Option-cases,
}
use cache_proxyfy.Cache.Redis.{Redis}
use cache_proxyfy.Storage.Backend.{StorageBackend}
use cache_proxyfy.RateLimit.{RateLibrary}
use cache_proxyfy.Security.Advisory.{Outcome, allow, warn, block}
use cache_proxyfy.Security.Checker.{Verdict, check}
use cache_proxyfy.Ecosystem.Package.{Package}
use cache_proxyfy.Proxy.Router.{Handler, rewrite_response}
use cache_proxyfy.Proxy.World.{Proxy}
use cache_proxyfy.Proxy.Tasks.{settled}
use cache_proxyfy.Proxy.Serve.{
  ServeError, miss, Artifact, Circumstances, DbLookup, previously_blocked, located, absent, W,
  Served, respond, lookup_cache, lookup_db, fetch, fetch_as_leader, deliver, note_scan,
  serve_scanned, serve_upstream, serve_uncached, serve_after_cache, serve,
}
use cache_proxyfy.Proxy.Serve.Outcomes.{SameStore, lookup_cache-SameStore, lookup_db-SameStore}
use cache_proxyfy.Proxy.Serve.Hits.{serve-cached, serve-uncached, after_cache}

module _ (redis : Redis) (backend : StorageBackend) (rate : RateLibrary) where
  pub fetch_as_leader-store :
      (p : Proxy) (c : Circumstances) (pkg : Package) (w : W redis backend rate)
      → (fetch_as_leader redis backend rate p c pkg w).1.store ≡ w.store
  unfolding fetch_as_leader
  fetch_as_leader-store p c pkg w = ground (arith)

  fetch-joined :
      (p : Proxy) (c : Circumstances) (pkg : Package) (w : W redis backend rate)
      (shared : Result ServeError Bytes)
      → c.joined ≡ some shared
      → fetch redis backend rate p c pkg w ≡ (shared, false, w)
  unfolding fetch
  fetch-joined p c pkg w shared e = rw (e, fetch) refl

  module _ (p : Proxy) (c : Circumstances) (ecosystem : Bytes) (h : Handler) (pkg : Package) where
    deliver-SameStore :
        (f : Result ServeError Bytes × Bool × W redis backend rate)
        → f.1 ≡ false
        → (deliver redis backend rate c ecosystem h pkg f).1 ≡ f.2
    unfolding deliver
    deliver-SameStore (err e, led, w) q = refl
    deliver-SameStore (ok b, led, w) q = ground arith

    serve_scanned-follower :
        (o : Outcome) (w : W redis backend rate) (shared : Result ServeError Bytes)
        → c.joined ≡ some shared
        → (serve_scanned redis backend rate p c ecosystem h pkg o w).1.store ≡ w.store
    unfolding serve_scanned
    serve_scanned-follower block w shared e = refl
    serve_scanned-follower warn w shared e =
        rw (fetch-joined p c pkg w shared e)
          (ap (λ (v : W redis backend rate). v.store) (deliver-SameStore (shared, false, w) refl))
    serve_scanned-follower allow w shared e =
        rw (fetch-joined p c pkg w shared e)
          (ap (λ (v : W redis backend rate). v.store) (deliver-SameStore (shared, false, w) refl))

    deliver-miss :
        (f : Result ServeError Bytes × Bool × W redis backend rate) (a : Artifact)
        → (deliver redis backend rate c ecosystem h pkg f).0 ≡ ok a
        → (b : Bytes) × (f.0 ≡ ok b)
          × (a ≡ respond redis backend rate c ecosystem miss (rewrite_response h b))
    unfolding deliver
    deliver-miss (err e, led, w) a q = absurd (cc)
    deliver-miss (ok b, led, w) a q = (b, refl, cc)

    serve_scanned-miss :
        (o : Outcome) (w : W redis backend rate) (a : Artifact)
        → (serve_scanned redis backend rate p c ecosystem h pkg o w).0 ≡ ok a
        → (o ≢ block)
          × (b : Bytes) × ((fetch redis backend rate p c pkg w).0 ≡ ok b)
          × (a ≡ respond redis backend rate c ecosystem miss (rewrite_response h b))
    unfolding serve_scanned
    serve_scanned-miss block w a q = absurd (cc)
    serve_scanned-miss warn w a q =
        let (b, f, r) = deliver-miss (fetch redis backend rate p c pkg w) a q in
        ((λ e. cc), b, f, r)
    serve_scanned-miss allow w a q =
        let (b, f, r) = deliver-miss (fetch redis backend rate p c pkg w) a q in
        ((λ e. cc), b, f, r)

    -- The verdict of the scan of the package.
    abbrev pub verdict : Verdict
    verdict = check p.checker pkg.ecosystem pkg.name pkg.version

    serve_uncached-miss :
        (l : DbLookup) (w : W redis backend rate) (a : Artifact)
        → (serve_uncached redis backend rate p c ecosystem h pkg (l, w)).0 ≡ ok a
        → a.status ≡ miss
        → (l ≡ absent)
          × (verdict.outcome ≢ block)
          × (b : Bytes) × ((fetch redis backend rate p c pkg
                (note_scan redis backend rate pkg.key verdict w)).0
              ≡ ok b)
          × (a ≡ respond redis backend rate c ecosystem miss (rewrite_response h b))
    unfolding serve_uncached serve_upstream
    serve_uncached-miss previously_blocked w a q s = absurd (cc)
    serve_uncached-miss (located k b) w a q s = absurd (ground arith)
    serve_uncached-miss absent w a q s =
        let (o, b, f, r) =
          serve_scanned-miss verdict.outcome (note_scan redis backend rate pkg.key verdict w) a q in
        (refl, o, b, f, r)

    serve_uncached-follower :
        (l : DbLookup) (w : W redis backend rate) (shared : Result ServeError Bytes)
        → c.joined ≡ some shared
        → (serve_uncached redis backend rate p c ecosystem h pkg (l, w)).1.store ≡ w.store
    unfolding serve_uncached serve_upstream note_scan
    serve_uncached-follower previously_blocked w shared e = refl
    serve_uncached-follower (located k b) w shared e = refl
    serve_uncached-follower absent w shared e =
        serve_scanned-follower verdict.outcome (note_scan redis backend rate pkg.key verdict w)
          shared e

    serve_after_cache-follower :
        (found : Option Bytes) (w : W redis backend rate) (shared : Result ServeError Bytes)
        → c.joined ≡ some shared
        → SameStore redis backend rate w
            (serve_after_cache redis backend rate p c ecosystem h pkg (found, w)).1
    unfolding serve_after_cache
    serve_after_cache-follower (some b) w shared e j = refl
    serve_after_cache-follower none w shared e j =
        ap (λ (s : backend.State). backend.holds s j)
          (serve_uncached-follower (lookup_db redis backend rate pkg.key w).0
            (lookup_db redis backend rate pkg.key w).1 shared e)
        ∙ lookup_db-SameStore redis backend rate pkg.key w j

    module _ (w : W redis backend rate) where
      -- The world after both lookups.
      abbrev pub after_lookups : W redis backend rate
      after_lookups =
          (lookup_db redis backend rate pkg.key
            (after_cache redis backend rate p c ecosystem h pkg w)).1

      -- The world after the request and the goroutines that it and those before it have started.
      abbrev pub after_request : W redis backend rate
      after_request = settled redis backend rate (serve redis backend rate p c ecosystem h pkg w).1

      pub serve-miss :
          (a : Artifact)
          → (serve redis backend rate p c ecosystem h pkg w).0 ≡ ok a
          → a.status ≡ miss
          → ((lookup_cache redis backend rate pkg.key w).0 ≡ none)
            × ((lookup_db redis backend rate pkg.key
                  (after_cache redis backend rate p c ecosystem h pkg w)).0
                ≡ absent)
            × (verdict.outcome ≢ block)
            × (b : Bytes) × ((fetch redis backend rate p c pkg
                  (note_scan redis backend rate pkg.key verdict after_lookups)).0
                ≡ ok b)
            × (a.body ≡ take c.client_takes b)
      unfolding rewrite_response
      serve-miss a q s = elim (Option-cases (lookup_cache redis backend rate pkg.key w).0) [
        | inl e ↦
            let (l, v, b, f, r) =
              serve_uncached-miss
                (lookup_db redis backend rate pkg.key
                  (after_cache redis backend rate p c ecosystem h pkg w)).0
                after_lookups a
                (ap (λ (r : Served redis backend rate). r.0)
                    (sym (serve-uncached redis backend rate p c ecosystem h pkg w e))
                  ∙ q)
                s in
            (e, l, v, b, f, ap (λ (r : Artifact). r.body) r)
        | inr (b, e) ↦
            absurd (ground (arith, serve-cached redis backend rate p c ecosystem h pkg w b e))
      ]

      -- A request that joined the fetch of another one leaves the store as it is.
      pub serve-follower :
          (shared : Result ServeError Bytes)
          → c.joined ≡ some shared
          → SameStore redis backend rate w (serve redis backend rate p c ecosystem h pkg w).1
      unfolding serve
      serve-follower shared e j =
          serve_after_cache-follower (lookup_cache redis backend rate pkg.key w).0
            (lookup_cache redis backend rate pkg.key w).1 shared e j
          ∙ lookup_cache-SameStore redis backend rate pkg.key w j
