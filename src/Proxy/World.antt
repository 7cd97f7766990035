-- ===== src/Proxy/World.antt =====
-- The state that requests share: caches, tables, store, limiter, metrics, and the goroutines that
-- were started and have not run. Redis, the artifact store and the bucket library are parameters.
use cache_proxyfy.Prelude.{ℕ, Bytes, List}
use cache_proxyfy.Db.Schema.{PackageKey, Database}
use cache_proxyfy.Db.Packages.{NewPackage}
use cache_proxyfy.Cache.Redis.{Redis}
use cache_proxyfy.Cache.Client.{Client}
use cache_proxyfy.Storage.Backend.{StorageBackend}
use cache_proxyfy.RateLimit.{RateLibrary, Limiter}
use cache_proxyfy.Security.Advisory.{CveRecord, Outcome}
use cache_proxyfy.Security.Checker.{Checker}
use cache_proxyfy.Proxy.Retry.{RetryConfig}
use cache_proxyfy.Proxy.Router.{Router}

-- A counter of internal/metrics/metrics.go with its labels; histograms and their timings are left
-- out.
pub data Metric : Type 0 where
  requests_total : (ecosystem result : Bytes) → Metric
  bytes_served_total : (ecosystem result : Bytes) (bytes : ℕ) → Metric
  upstream_fetches_total : (ecosystem status : Bytes) → Metric
  cve_scans_total : (ecosystem outcome : Bytes) → Metric
  upstream_retries_total : (ecosystem : Bytes) → Metric

-- A goroutine of `serve`: what it does, in this order, when it runs.
pub data Task : Type 0 where
  touch_and_record : (key : PackageKey) (bytes : ℕ) → Task
  restore_and_record : (key : PackageKey) (checksum : Bytes) (bytes : ℕ) → Task
  record_alerts : (key : PackageKey) (outcome : Outcome) (records : List CveRecord) → Task
  block_package : (key : PackageKey) → Task
  index_and_record : (pkg : NewPackage) → Task

-- `Proxy`, without what it only logs to.
pub record Proxy : Type 0 where
  pub router : Router
  pub checker : Checker
  pub retry : RetryConfig

module _ (redis : Redis) (backend : StorageBackend) (rate : RateLibrary) where
  pub record World : Type 0 where
    pub cache : Client redis
    pub store : backend.State
    pub db : Database
    pub limiter : Limiter rate
    pub metrics : List Metric
    pub inflight : ℕ
    pub tasks : List Task
