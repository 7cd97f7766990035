-- ===== src/Program/Internal.antt =====
-- main.go, the handler of the internal port: /metrics and the API behind the authentication.
use cache_proxyfy.Prelude.{
  ℕ, ◌≡◌, refl, Bytes, codes, true, false, Option, none, some, List, ◌==◌, if◌then◌else◌,
  Option-cases, Bool-cases, inl, inr,
}
use cache_proxyfy.Cache.Redis.{Redis}
use cache_proxyfy.Storage.Backend.{StorageBackend}
use cache_proxyfy.RateLimit.{RateLibrary}
use cache_proxyfy.Config.{Config}
use cache_proxyfy.Db.Schema.{Database}
use cache_proxyfy.Auth.{Bcrypt, Middleware, wrap, admits}
use cache_proxyfy.Api
use cache_proxyfy.Api.Routes.{
  ApiAnswer, endpoint_of, serve_endpoint, tables, serve_endpoint-read_only,
}
use cache_proxyfy.Proxy.World.{Metric}
use cache_proxyfy.Proxy.Serve.{W}
use cache_proxyfy.Program.Access.{Incoming, IsLoggedIn, not_admitted}

-- The answers: the counters and the gauge for Prometheus, an endpoint's answer, 404, and 401.
pub data InternalAnswer : Type 0 where
  exposition : (counters : List Metric) (inflight : ℕ) → InternalAnswer
  api : ApiAnswer → InternalAnswer
  no_page unauthorized : InternalAnswer

module _ (redis : Redis) (backend : StorageBackend) (rate : RateLibrary) (b : Bcrypt)
    (ago : Bytes → Option (ℕ → ℕ)) where
  open rate use {Rate}

  abbrev Reply : Type 0
  Reply = InternalAnswer × W redis backend rate

  abbrev with_db : W redis backend rate → ApiAnswer × Database → Reply
  with_db w (a, db) = (api a, record w { db = db })

  -- `metricsMux`. That net/http cleans the path, and redirects a request whose path is not clean, is
  -- left out.
  unfoldable pub internal_mux :
      Option (Config Rate) → Bytes → Api.Request → W redis backend rate → Reply
  internal_mux cfg path r w =
      if path == codes "/metrics"
      then (exposition w.metrics w.inflight, w)
      else elim (endpoint_of path) [
        | none ↦ (no_page, w)
        | some e ↦ with_db w (serve_endpoint Rate ago cfg e r w.db)
      ]

  abbrev reply_or : Option Reply → W redis backend rate → Reply
  reply_or none w = (unauthorized, w)
  reply_or (some r) w = r

  -- `authMw.Wrap(metricsMux)`
  unfoldable pub serve_internal :
      Middleware → Option (Config Rate) → Incoming → Api.Request → W redis backend rate → Reply
  serve_internal m cfg q r w =
      reply_or
        (wrap b m (λ x. internal_mux cfg x.path r w)
          (record { path = q.request.path; basic_auth = q.basic_auth }))
        w

  -- The world but for what the coming statements of the database meet.
  abbrev pub SameWorld : W redis backend rate → W redis backend rate → Type 0
  SameWorld w w' =
      (tables w'.db ≡ tables w.db)
      × (w'.store ≡ w.store)
      × (w'.cache ≡ w.cache)
      × (w'.limiter ≡ w.limiter)
      × (w'.metrics ≡ w.metrics)
      × (w'.inflight ≡ w.inflight)
      × (w'.tasks ≡ w.tasks)

  abbrev same : (w : W redis backend rate) → SameWorld w w
  same w = (refl, refl, refl, refl, refl, refl, refl)

  internal_mux-SameWorld :
      (cfg : Option (Config Rate)) (path : Bytes) (r : Api.Request) (w : W redis backend rate)
      → SameWorld w (internal_mux cfg path r w).1
  unfolding internal_mux
  internal_mux-SameWorld cfg path r w = elim (Bool-cases (path == codes "/metrics")) [
    | inl h ↦ rw h (same w)
    | inr h ↦ elim (Option-cases (endpoint_of path)) [
      | inl k ↦ rw (h, k) (same w)
      | inr (e, k) ↦
          rw (h, k)
            (serve_endpoint-read_only Rate ago cfg e r w.db, refl, refl, refl, refl, refl, refl)
    ]
  ]

  -- Whatever is asked of the internal port, with or without credentials, no table, artifact, cached
  -- checksum, bucket, counter or goroutine is touched by it.
  pub serve_internal-read_only :
      (m : Middleware) (cfg : Option (Config Rate)) (q : Incoming) (r : Api.Request)
      (w : W redis backend rate)
      → SameWorld w (serve_internal m cfg q r w).1
  unfolding serve_internal wrap
  serve_internal-read_only m cfg q r w = elim (Bool-cases m.enabled) [
    | inl on ↦ elim (Bool-cases (q.request.path == codes "/healthz")) [
      | inl h ↦ simp (on, h) (internal_mux-SameWorld cfg q.request.path r w)
      | inr h ↦ elim (Bool-cases (admits b m q.basic_auth)) [
        | inl k ↦ simp (on, h, k) (internal_mux-SameWorld cfg q.request.path r w)
        | inr k ↦ simp (on, h, k) (same w)
      ]
    ]
    | inr off ↦ simp off (internal_mux-SameWorld cfg q.request.path r w)
  ]

  -- With authentication on, a request to the internal port without the credentials of a user for
  -- another path than /healthz is answered with 401: neither the counters nor any answer of the API
  -- are shown.
  pub serve_internal-unauthorized :
      (m : Middleware) (cfg : Option (Config Rate)) (q : Incoming) (r : Api.Request)
      (w : W redis backend rate)
      → m.enabled ≡ true
      → (q.request.path == codes "/healthz") ≡ false
      → (IsLoggedIn redis backend rate b m q → ⊥)
      → serve_internal m cfg q r w ≡ (unauthorized, w)
  unfolding serve_internal wrap
  serve_internal-unauthorized m cfg q r w on path nobody =
      simp (path, not_admitted redis backend rate b m q nobody, on) refl
