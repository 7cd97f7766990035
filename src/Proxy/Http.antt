-- ===== src/Proxy/Http.antt =====
-- `ServeHTTP`, `handleHealth` and `handleMetadata` of internal/proxy/proxy.go.
pub mod Accounting
pub mod Routing
pub mod Series
pub mod Starting
use cache_proxyfy.Prelude.{
  ℕ, ◌+◌, ◌-◌, Bytes, codes, Bool, Option, none, some, List, [], ◌∷◌, ◌++◌, if◌then◌else◌, ◌==◌,
  length, Result, ok, err, is_ok,
}
use cache_proxyfy.Cache.Redis.{Redis}
use cache_proxyfy.Cache.Client
use cache_proxyfy.Storage.Backend.{StorageBackend}
use cache_proxyfy.RateLimit.{RateLibrary}
use cache_proxyfy.Ecosystem.Package.{Package}
use cache_proxyfy.Ecosystem.Metadata.{rewrite_npm, rewrite_pypi}
use cache_proxyfy.Ecosystem.Npm
use cache_proxyfy.Ecosystem.Pypi
use cache_proxyfy.Ecosystem.Maven
use cache_proxyfy.Ecosystem.GoMod
use cache_proxyfy.Proxy.Router.{
  Router, Handler, npm, pypi, maven, go, match, ecosystems, parse, is_metadata_request,
}
use cache_proxyfy.Proxy.World.{Proxy, World, requests_total, bytes_served_total}
use cache_proxyfy.Proxy.Serve.{
  ServeError, package_blocked, rate_limited, upstream, status_string, Artifact, Circumstances, W,
  Served, count, serve,
}

-- What the handlers read of a request; `tls` tells whether it came over TLS.
pub record Request : Type 0 where
  pub path : Bytes
  pub host : Bytes
  pub tls : Bool

-- What the transport does with the proxy's request for a metadata URL.
pub data MetadataReply : Type 0 where
  bad_url no_response broken_body : MetadataReply
  answer : (status : ℕ) (content_type body : Bytes) → MetadataReply

pub data Response : Type 0 where
  health : (storage : Bytes) (ecosystems : List Bytes) (redis_ok : Bool) → Response
  metadata : (status : ℕ) (content_type body : Bytes) → Response
  artifact : Artifact → Response
  error : (status : ℕ) (message : Bytes) → Response

abbrev pub page_not_found : Response
page_not_found = error 404 (codes "404 page not found")

-- Which handler a request goes to.
pub data Route : Type 0 where
  to_health to_nothing : Route
  to_metadata : Handler → Route
  to_package : (ecosystem : Bytes) (handler : Handler) (pkg : Package) → Route

-- The error of `Parse` is always `ErrNotPackageRequest`.
unfoldable pub route_handled : Bytes → Option (Bytes × Handler) → Route
route_handled path none = to_nothing
route_handled path (some (ecosystem, h)) =
    if is_metadata_request h path
    then to_metadata h
    else elim (parse h path) [ none ↦ to_nothing | some pkg ↦ to_package ecosystem h pkg ]

unfoldable pub route : Router → Bytes → Route
route r path = if path == codes "/healthz" then to_health else route_handled path (match r path)

unfoldable pub metadata_upstream_url : Handler → Bytes → Bytes
metadata_upstream_url npm path = Npm.metadata_upstream_url path
metadata_upstream_url pypi path = Pypi.metadata_upstream_url path
metadata_upstream_url maven path = Maven.metadata_upstream_url path
metadata_upstream_url go path = GoMod.metadata_upstream_url path

unfoldable pub rewrite_metadata : Handler → Bytes → Bytes → Bytes
rewrite_metadata npm body base = rewrite_npm body base
rewrite_metadata pypi body base = rewrite_pypi body base
rewrite_metadata maven body base = body
rewrite_metadata go body base = body

abbrev pub proxy_base : Request → Bytes
proxy_base r = (if r.tls then codes "https" else codes "http") ++ (codes "://" ++ r.host)

abbrev pub relay : Handler → Bytes → MetadataReply → Response
relay h base bad_url = error 502 (codes "upstream request failed")
relay h base no_response = error 502 (codes "upstream fetch failed")
relay h base broken_body = error 502 (codes "reading upstream response failed")
relay h base (answer status content_type body) =
    metadata status content_type (rewrite_metadata h body base)

-- `registry` is what the metadata URLs answer. No handler's rewriting fails.
unfoldable pub handle_metadata : (Bytes → MetadataReply) → Handler → Request → Response
handle_metadata registry h r = relay h (proxy_base r) (registry (metadata_upstream_url h r.path))

-- The errors of `serve`.
unfoldable pub error_response : ServeError → Response
error_response package_blocked = error 403 (codes "package blocked by security policy")
error_response rate_limited = error 429 (codes "rate limit exceeded — retry later")
error_response (upstream e) = error 502 (codes "upstream fetch failed")

module _ (redis : Redis) (backend : StorageBackend) (rate : RateLibrary) where
  unfoldable pub handle_health : Proxy → W redis backend rate → Response × W redis backend rate
  handle_health p w =
      let (up, cache') = Client.ping redis w.cache in
      (health backend.name (ecosystems p.router) (is_ok up), record w { cache = cache' })

  -- After `serve`: the counters, and the deferred decrement.
  unfoldable pub finish : Bytes → Served redis backend rate → Response × W redis backend rate
  finish ecosystem (ok a, w) = (
    artifact a,
    record w {
      inflight = w.inflight - 1;
      metrics =
          bytes_served_total ecosystem (status_string a.status) (length a.body)
          ∷ requests_total ecosystem (status_string a.status)
          ∷ w.metrics;
    },
  )
  finish ecosystem (err e, w) = (
    error_response e,
    record w {
      inflight = w.inflight - 1;
      metrics = requests_total ecosystem (codes "error") ∷ w.metrics;
    },
  )

  unfoldable pub serve_route :
      Proxy
      → Circumstances
      → (Bytes → MetadataReply)
      → Request
      → Route
      → W redis backend rate
      → Response × W redis backend rate
  serve_route p c registry r to_health w = handle_health p w
  serve_route p c registry r to_nothing w = (page_not_found, w)
  serve_route p c registry r (to_metadata h) w = (handle_metadata registry h r, w)
  serve_route p c registry r (to_package ecosystem h pkg) w =
      finish ecosystem
        (serve redis backend rate p c ecosystem h pkg (record w { inflight = w.inflight + 1 }))

  unfoldable pub serve_http :
      Proxy
      → Circumstances
      → (Bytes → MetadataReply)
      → Request
      → W redis backend rate
      → Response × W redis backend rate
  serve_http p c registry r w = serve_route p c registry r (route p.router r.path) w
