-- ===== src/Program/Health.antt =====
-- cmd/healthcheck/main.go, and what the proxy answers to it.
use cache_proxyfy.Prelude.{
  ℕ, ◌≡◌, refl, Bytes, codes, false, Option, none, some, eqb, if◌then◌else◌, Bool-cases, inl, inr,
  ◌==◌,
}
use cache_proxyfy.Cache.Redis.{Redis}
use cache_proxyfy.Storage.Backend.{StorageBackend}
use cache_proxyfy.RateLimit.{RateLibrary}
use cache_proxyfy.Auth.{Bcrypt, Middleware, wrap}
use cache_proxyfy.Proxy.World.{Proxy}
use cache_proxyfy.Proxy.Serve.{Circumstances, W}
use cache_proxyfy.Proxy.Http.{
  MetadataReply, Response, health, metadata, artifact, error, route, handle_health, serve_route,
  serve_http,
}
use cache_proxyfy.Program.Access.{Incoming, serve_incoming}

abbrev status_of : Response → ℕ
status_of (health storage ecosystems redis_ok) = 200
status_of (metadata status content_type body) = status
status_of (artifact a) = 200
status_of (error status message) = status

-- The exit code for the status of the response, if there is one.
unfoldable pub exit_code : Option ℕ → ℕ
exit_code none = 1
exit_code (some status) = if eqb status 200 then 0 else 1

-- http.Get("http://localhost:8080/healthz")
abbrev pub health_request : Incoming
health_request = record {
  request = record { path = codes "/healthz"; host = codes "localhost:8080"; tls = false };
  basic_auth = none;
}

module _ (redis : Redis) (backend : StorageBackend) (rate : RateLibrary) (b : Bcrypt) where
  -- The check beside a proxy on a port. `other` is what there is on port 8080 if that is another one.
  unfoldable pub healthcheck :
      Middleware
      → Proxy
      → Circumstances
      → (Bytes → MetadataReply)
      → (port : ℕ) → (other : Option ℕ) → W redis backend rate
      → ℕ × W redis backend rate
  healthcheck m p c registry port other w =
      if eqb port 8080
      then (let (a, w') = serve_incoming redis backend rate b m p c registry health_request w in
          (exit_code (some (status_of a)), w'))
      else (exit_code other, w)

  -- The check succeeds where the proxy listens on port 8080, with authentication on or off, and
  -- whether or not Redis, the database and the store work; beside a proxy on another port the exit
  -- code says nothing of the proxy, but only whether something answers 200 on port 8080.
  pub healthcheck-exit_code :
      (m : Middleware) (p : Proxy) (c : Circumstances) (registry : Bytes → MetadataReply) (port : ℕ)
      (other : Option ℕ) (w : W redis backend rate)
      → (healthcheck m p c registry port other w).0 ≡ (if eqb port 8080 then 0 else exit_code other)
  unfolding healthcheck serve_incoming wrap serve_http route serve_route handle_health exit_code
      ◌==◌
  healthcheck-exit_code m p c registry port other w = elim (Bool-cases (eqb port 8080)) [
    | inl h ↦ rw h (elim (Bool-cases m.enabled) [ inl on ↦ simp on refl | inr off ↦ simp off refl ])
    | inr h ↦ rw h refl
  ]
