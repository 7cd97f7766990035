-- ===== src/Proxy/Serve/Blocking.antt =====
-- Refusals of `serve`, and the requests after them.
use cache_proxyfy.Prelude.{Bytes, []}
use cache_proxyfy.Cache.Redis.{Redis}
use cache_proxyfy.Storage.Backend.{StorageBackend}
use cache_proxyfy.RateLimit.{RateLibrary}
use cache_proxyfy.Ecosystem.Package.{Package}
use cache_proxyfy.Proxy.Router.{Handler}
use cache_proxyfy.Proxy.World.{Proxy}
use cache_proxyfy.Proxy.Serve.{Circumstances, W, note_scan}
use cache_proxyfy.Proxy.Tasks.{log_alerts}
use cache_proxyfy.Proxy.Serve.Misses.{verdict, after_lookups}

module _ (redis : Redis) (backend : StorageBackend) (rate : RateLibrary) where
  module _ (p : Proxy) (c : Circumstances) (ecosystem : Bytes) (h : Handler) (pkg : Package)
      (w : W redis backend rate) where
    abbrev u₀ : W redis backend rate
    u₀ =
        log_alerts redis backend rate pkg.key
          (verdict redis backend rate p c ecosystem h pkg).outcome
          (verdict redis backend rate p c ecosystem h pkg).records
          (record (note_scan redis backend rate pkg.key
            (verdict redis backend rate p c ecosystem h pkg)
            (after_lookups redis backend rate p c ecosystem h pkg w)) { tasks = [] })
