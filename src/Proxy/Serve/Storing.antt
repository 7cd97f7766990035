-- ===== src/Proxy/Serve/Storing.antt =====
-- From a miss to the hits that follow it.
use cache_proxyfy.Prelude.{
  ◌≡◌, ◌≢◌, [], ◌∷◌, Result, Bool, Bool-cases, take, ◌++◌, inl, inr, refl, sym, ap, ◌∙◌, Bytes,
  true, none, some, ok, is_ok,
}
use cache_proxyfy.Cache.Redis.{Redis}
use cache_proxyfy.Cache.Client
use cache_proxyfy.Cache.Contents.{cached-set}
use cache_proxyfy.Storage.Backend.{StorageBackend}
use cache_proxyfy.RateLimit.{RateLibrary}
use cache_proxyfy.Ecosystem.Package.{Package, cache_key}
use cache_proxyfy.Proxy.Router.{Handler}
use cache_proxyfy.Proxy.World.{Proxy, record_alerts}
use cache_proxyfy.Proxy.Serve.{
  hit, Circumstances, W, Served, respond, lookup_cache, lookup_db, keep_artifact, serve, ServeError,
  miss, Artifact, absent, fetch, deliver, note_scan, serve_uncached, serve_upstream, serve_scanned,
}
use cache_proxyfy.Security.Checker.{Verdict}
use cache_proxyfy.Proxy.Serve.Outcomes.{
  lookup_cache-tasks, lookup_db-tasks, lookup_cache-SameStore, lookup_db-SameStore,
}
use cache_proxyfy.Proxy.Serve.Hits.{serve-uncached, after_cache}
use cache_proxyfy.Proxy.Tasks.{settled}
use cache_proxyfy.Security.Advisory.{Outcome, allow, warn, block}
use cache_proxyfy.Proxy.Serve.Misses.{verdict, after_lookups, after_request, serve-miss}
use cache_proxyfy.Proxy.Serve.Indexing.{
  settled-kept, fetch-tasks, fetch-store, fetch-led, deliver-led, serve-indexed,
}

module _ (redis : Redis) (backend : StorageBackend) (rate : RateLibrary) where
  module _ (p : Proxy) (c : Circumstances) (ecosystem : Bytes) (h : Handler) (pkg : Package)
      (w : W redis backend rate) where
    -- The scan, and the world behind it.
    abbrev v : Verdict
    v = verdict redis backend rate p c ecosystem h pkg

    abbrev scanned : W redis backend rate
    scanned =
        note_scan redis backend rate pkg.key v
          (after_lookups redis backend rate p c ecosystem h pkg w)

    abbrev fetched : Result ServeError Bytes × Bool × W redis backend rate
    fetched = fetch redis backend rate p c pkg scanned

    serve_scanned-unblocked :
        (o : Outcome)
        → o ≢ block
        → serve_scanned redis backend rate p c ecosystem h pkg o scanned
          ≡ deliver redis backend rate c ecosystem h pkg fetched
    unfolding serve_scanned
    serve_scanned-unblocked allow n = refl
    serve_scanned-unblocked warn n = refl
    serve_scanned-unblocked block n = absurd (n refl)

    -- Where a miss leaves the world.
    serve-kept :
        (b : Bytes)
        → (lookup_cache redis backend rate pkg.key w).0 ≡ none
        → (lookup_db redis backend rate pkg.key
            (after_cache redis backend rate p c ecosystem h pkg w)).0
          ≡ absent
        → v.outcome ≢ block
        → fetched.0 ≡ ok b
        → c.joined ≡ none
        → (serve redis backend rate p c ecosystem h pkg w).1
          ≡ keep_artifact redis backend rate pkg b fetched.2
    unfolding serve_uncached serve_upstream
    serve-kept b q l o f j =
        ap (λ (r : Served redis backend rate). r.1)
          (serve-uncached redis backend rate p c ecosystem h pkg w q
            ∙ ap
                (λ x.
                  serve_uncached redis backend rate p c ecosystem h pkg
                    (x, after_lookups redis backend rate p c ecosystem h pkg w))
                l
            ∙ serve_scanned-unblocked v.outcome o)
        ∙ deliver-led redis backend rate c ecosystem h pkg b fetched f
            (fetch-led redis backend rate p c pkg scanned j)

    fetched-tasks : w.tasks ≡ [] → fetched.2.tasks ≡ record_alerts pkg.key v.outcome v.records ∷ []
    unfolding note_scan
    fetched-tasks e =
        fetch-tasks redis backend rate p c pkg scanned
        ∙ ap (λ ts. ts ++ record_alerts pkg.key v.outcome v.records ∷ [])
            (lookup_db-tasks redis backend rate pkg.key
                (after_cache redis backend rate p c ecosystem h pkg w)
              ∙ lookup_cache-tasks redis backend rate pkg.key w
              ∙ e)

    fetched-holds : (k : Bytes) → backend.holds fetched.2.store k ≡ backend.holds w.store k
    unfolding note_scan
    fetched-holds k =
        ap (λ (s : backend.State). backend.holds s k)
          (fetch-store redis backend rate p c pkg scanned)
        ∙ lookup_db-SameStore redis backend rate pkg.key
            (after_cache redis backend rate p c ecosystem h pkg w) k
        ∙ lookup_cache-SameStore redis backend rate pkg.key w k

    -- The world after the request.
    abbrev pub answered : W redis backend rate
    answered = (serve redis backend rate p c ecosystem h pkg w).1

    keep_artifact-held :
        (b : Bytes) (u : W redis backend rate)
        → backend.valid (cache_key pkg) ≡ true
        → backend.holds u.store (cache_key pkg) ≡ none
        → backend.holds (keep_artifact redis backend rate pkg b u).store (cache_key pkg) ≢ none
        → backend.holds (keep_artifact redis backend rate pkg b u).store (cache_key pkg) ≡ some b
    unfolding keep_artifact
    keep_artifact-held b u valid fresh held =
        elim (Bool-cases (is_ok (backend.put u.store (cache_key pkg) b).0)) [
          | inl e ↦ backend.put_new u.store (cache_key pkg) b valid e fresh
          | inr e ↦ absurd (held (backend.put_failed u.store (cache_key pkg) b valid e ∙ fresh))
        ]

    -- When a request that leads its fetch, and before which no goroutine was left to run, was answered
    -- as a miss, the store has taken its artifact
    -- under a valid name that held nothing before, and its goroutines have run and set the Redis
    -- key: a request with the same ecosystem, name and version, under whatever circumstances and for
    -- whatever file, is a hit with the artifact of which the first client took a part or all, where
    -- Redis answers and the store opens it.
    pub serve-after_miss :
        (a : Artifact)
        → (serve redis backend rate p c ecosystem h pkg w).0 ≡ ok a
        → a.status ≡ miss
        → c.joined ≡ none
        → w.tasks ≡ []
        → backend.valid (cache_key pkg) ≡ true
        → backend.holds w.store (cache_key pkg) ≡ none
        → backend.holds answered.store (cache_key pkg) ≢ none
        → is_ok (Client.set redis answered.cache pkg.key (cache_key pkg)).0 ≡ true
        → (c' : Circumstances) (ecosystem' : Bytes) (h' : Handler) (pkg' : Package)
        → pkg'.key ≡ pkg.key
        → is_ok
            (Client.get redis
              (after_request redis backend rate p c ecosystem h pkg w).cache
              pkg'.key).0
          ≡ true
        → is_ok
            (backend.get
              (after_request redis backend rate p c ecosystem h pkg w).store
              (cache_key pkg)).0
          ≡ true
        → (b : Bytes) × (a.body ≡ take c.client_takes b)
          × ((serve redis backend rate p c' ecosystem' h' pkg'
                (after_request redis backend rate p c ecosystem h pkg w)).0
              ≡ ok (respond redis backend rate c' ecosystem' hit b))
    serve-after_miss a e m j none_before valid fresh held set c' ecosystem' h' pkg' same got
          opened =
        let (q, l, o, b, f, body) = serve-miss redis backend rate p c ecosystem h pkg w a e m in
        let kept = serve-kept b q l o f j in
        let (cache, store) =
          settled-kept redis backend rate pkg.key v.outcome v.records pkg b fetched.2
            (fetched-tasks none_before) in
        let indexes : Client.cached redis
              (after_request redis backend rate p c ecosystem h pkg w).cache pkg'.key
            ≡ some (cache_key pkg) =
          ap (Client.cached redis (after_request redis backend rate p c ecosystem h pkg w).cache)
            same
          ∙ ap
              (λ (u : W redis backend rate).
                Client.cached redis (settled redis backend rate u).cache pkg.key)
              kept
          ∙ ap (λ (x : Client.Client redis). Client.cached redis x pkg.key) cache
          ∙ cached-set redis (keep_artifact redis backend rate pkg b fetched.2).cache pkg.key
              (cache_key pkg)
              (ap
                  (λ (u : W redis backend rate).
                    is_ok (Client.set redis u.cache pkg.key (cache_key pkg)).0)
                  (sym kept)
                ∙ set) in
        let contents : backend.holds (after_request redis backend rate p c ecosystem h pkg w).store
              (cache_key pkg)
            ≡ some b =
          ap
            (λ (u : W redis backend rate).
              backend.holds (settled redis backend rate u).store (cache_key pkg))
            kept
          ∙ ap (λ (x : backend.State). backend.holds x (cache_key pkg)) store
          ∙ keep_artifact-held b fetched.2 valid (fetched-holds (cache_key pkg) ∙ fresh) (λ n.
            held (
              ap (λ (u : W redis backend rate). backend.holds u.store (cache_key pkg)) kept ∙ n)) in
        (
          b,
          body,
          serve-indexed redis backend rate p c' ecosystem' h' pkg'
              (after_request redis backend rate p c ecosystem h pkg w) (cache_key pkg) b got indexes
              opened contents,
        )
