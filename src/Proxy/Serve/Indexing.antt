-- ===== src/Proxy/Serve/Indexing.antt =====
-- What the goroutines of a miss leave for the requests after it.
use cache_proxyfy.Prelude.{
  ◌≡◌, List, [], ◌∷◌, Result, err, Bool, inl, inr, refl, sym, ap, ◌∙◌, Bytes, true, none, some,
  arith, ok, is_ok, Result-cases,
}
use cache_proxyfy.Db.Schema.{PackageKey}
use cache_proxyfy.Cache.Redis.{Redis}
use cache_proxyfy.Cache.Client
use cache_proxyfy.Cache.Contents.{get-ok}
use cache_proxyfy.Storage.Backend.{StorageBackend}
use cache_proxyfy.RateLimit.{RateLibrary}
use cache_proxyfy.Ecosystem.Package.{Package, cache_key}
use cache_proxyfy.Proxy.Router.{Handler, rewrite_response}
use cache_proxyfy.Proxy.World.{Proxy, record_alerts}
use cache_proxyfy.Proxy.Serve.{
  hit, Circumstances, W, respond, open_artifact, lookup_cache, keep_artifact, serve, ServeError,
  fetch, fetch_as_leader, deliver,
}
use cache_proxyfy.Proxy.Serve.Hits.{serve-cached}
use cache_proxyfy.Proxy.Tasks.{set_cache, log_event, log_alerts, run_task, run_tasks, settled}
use cache_proxyfy.Security.Advisory.{Outcome, CveRecord}

module _ (redis : Redis) (backend : StorageBackend) (rate : RateLibrary) where
  open_artifact-held :
      (s : Bytes) (w : W redis backend rate) (b : Bytes)
      → is_ok (backend.get w.store s).0 ≡ true
      → backend.holds w.store s ≡ some b
      → (open_artifact redis backend rate s w).0 ≡ some b
  unfolding open_artifact
  open_artifact-held s w b o h = elim (Result-cases (backend.get w.store s).0) [
    | inl (b', e) ↦
        let held : backend.holds w.store s ≡ some b' = backend.get_ok w.store s b' e in
        rw (e, open_artifact) (sym held ∙ h)
    | inr (x, e) ↦ absurd (ground arith)
  ]

  lookup_cache-held :
      (k : PackageKey) (w : W redis backend rate) (s b : Bytes)
      → is_ok (Client.get redis w.cache k).0 ≡ true
      → Client.cached redis w.cache k ≡ some s
      → is_ok (backend.get w.store s).0 ≡ true
      → backend.holds w.store s ≡ some b
      → (lookup_cache redis backend rate k w).0 ≡ some b
  unfolding lookup_cache
  lookup_cache-held k w s b g i o h = elim (Result-cases (Client.get redis w.cache k).0) [
    | inl (s', e) ↦
        let same : s' ≡ s = ground (arith, get-ok redis w.cache k s' e) in
        rw (e, lookup_cache, same)
          (open_artifact-held s (record w { cache = (Client.get redis w.cache k).1 }) b o h)
    | inr (x, e) ↦ absurd (ground arith)
  ]

  log_alerts-cache :
      (k : PackageKey) (o : Outcome) (rs : List CveRecord) (w : W redis backend rate)
      → ((log_alerts redis backend rate k o rs w).cache ≡ w.cache)
        × ((log_alerts redis backend rate k o rs w).store ≡ w.store)
  unfolding log_alerts
  log_alerts-cache k o [] w = (refl, refl)
  log_alerts-cache k o (r ∷ rs) w = log_alerts-cache k o rs _

  -- What the goroutines of a miss leave: those of the scan, and the one that indexes.
  pub settled-kept :
      (k : PackageKey) (o : Outcome) (rs : List CveRecord) (pkg : Package) (content : Bytes)
      (u : W redis backend rate)
      → u.tasks ≡ record_alerts k o rs ∷ []
      → let w' = keep_artifact redis backend rate pkg content u in
        ((settled redis backend rate w').cache
          ≡ (Client.set redis w'.cache pkg.key (cache_key pkg)).1)
        × ((settled redis backend rate w').store ≡ w'.store)
  unfolding run_tasks run_task set_cache log_event keep_artifact
  settled-kept k o rs pkg content u e = rw e (
    ap (λ (c : Client.Client redis). (Client.set redis c pkg.key (cache_key pkg)).1)
        (log_alerts-cache k o rs _).0,
    (log_alerts-cache k o rs _).1,
  )

  module _ (p : Proxy) (c : Circumstances) (pkg : Package) (u : W redis backend rate) where
    pub fetch-tasks : (fetch redis backend rate p c pkg u).2.tasks ≡ u.tasks
    unfolding fetch fetch_as_leader
    fetch-tasks = ground arith

    pub fetch-store : (fetch redis backend rate p c pkg u).2.store ≡ u.store
    unfolding fetch fetch_as_leader
    fetch-store = ground arith

    pub fetch-led : c.joined ≡ none → (fetch redis backend rate p c pkg u).1 ≡ true
    unfolding fetch
    fetch-led e = ground (arith, e)

  pub deliver-led :
      (c : Circumstances) (ecosystem : Bytes) (h : Handler) (pkg : Package) (b : Bytes)
      (f : Result ServeError Bytes × Bool × W redis backend rate)
      → f.0 ≡ ok b
      → f.1 ≡ true
      → (deliver redis backend rate c ecosystem h pkg f).1
        ≡ keep_artifact redis backend rate pkg b f.2
  unfolding deliver rewrite_response
  deliver-led c ecosystem h pkg b (ok b', led, w) e l = ground arith
  deliver-led c ecosystem h pkg b (err x, led, w) e l = absurd (cc)

  module _ (p : Proxy) (c : Circumstances) (ecosystem : Bytes) (h : Handler) (pkg : Package)
      (w : W redis backend rate) where
    -- Where Redis answers and holds a checksum for the package, and the store opens and holds the
    -- artifact, the request is a hit with that artifact, whatever the database says and the scan
    -- would say of the package, and whatever file of the package the request names.
    pub serve-indexed :
        (s b : Bytes)
        → is_ok (Client.get redis w.cache pkg.key).0 ≡ true
        → Client.cached redis w.cache pkg.key ≡ some s
        → is_ok (backend.get w.store s).0 ≡ true
        → backend.holds w.store s ≡ some b
        → (serve redis backend rate p c ecosystem h pkg w).0
          ≡ ok (respond redis backend rate c ecosystem hit b)
    serve-indexed s b g i o held =
        serve-cached redis backend rate p c ecosystem h pkg w b
          (lookup_cache-held pkg.key w s b g i o held)
