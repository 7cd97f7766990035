-- ===== src/Program/Access.antt =====
-- main.go, the handler of the proxy's port: the authentication in front of the proxy.
use cache_proxyfy.Prelude.{
  ◌≡◌, refl, Bytes, codes, true, false, Option, none, some, ◌==◌, Option-cases, Bool-cases, inl,
  inr,
}
use cache_proxyfy.Cache.Redis.{Redis}
use cache_proxyfy.Storage.Backend.{StorageBackend}
use cache_proxyfy.RateLimit.{RateLibrary}
use cache_proxyfy.Auth.{Bcrypt, Middleware, wrap, admits, validate}
use cache_proxyfy.Auth.Access.{IsValidLogin, validate-exact}
use cache_proxyfy.Proxy.World.{Proxy}
use cache_proxyfy.Proxy.Serve.{Circumstances, W}
use cache_proxyfy.Proxy.Http.{Request, MetadataReply, Response, error, serve_http}

-- A request with the credentials of its header.
pub record Incoming : Type 0 where
  pub request : Request
  pub basic_auth : Option (Bytes × Bytes)

abbrev pub unauthorized : Response
unauthorized = error 401 (codes "authentication required")

module _ (redis : Redis) (backend : StorageBackend) (rate : RateLibrary) (b : Bcrypt) where
  abbrev answer_or :
      Option (Response × W redis backend rate)
      → W redis backend rate
      → Response × W redis backend rate
  answer_or none w = (unauthorized, w)
  answer_or (some r) w = r

  -- `authMw.Wrap(p)`
  unfoldable pub serve_incoming :
      Middleware
      → Proxy
      → Circumstances
      → (Bytes → MetadataReply)
      → Incoming
      → W redis backend rate
      → Response × W redis backend rate
  serve_incoming m p c registry q w =
      answer_or
        (wrap b m (λ r. serve_http redis backend rate p c registry q.request w)
          (record { path = q.request.path; basic_auth = q.basic_auth }))
        w

  -- Whether the header's credentials are those of a user.
  unfoldable pub IsLoggedIn : Middleware → Incoming → Type 0
  IsLoggedIn m q =
      (username : Bytes) × (password : Bytes) × (q.basic_auth ≡ some (username, password))
      × IsValidLogin b m username password

  pub not_admitted :
      (m : Middleware) (q : Incoming) → (IsLoggedIn m q → ⊥) → admits b m q.basic_auth ≡ false
  unfolding admits IsLoggedIn
  not_admitted m q h = elim (Option-cases q.basic_auth) [
    | inl e ↦ rw e refl
    | inr ((username, password), e) ↦ elim (Bool-cases (validate b m username password).0) [
      | inl v ↦ absurd (h (username, password, e, (validate-exact b m username password).0.0 v))
      | inr v ↦ rw (e, admits) v
    ]
  ]

  -- With authentication on, a request without the credentials of a user for another path than
  -- /healthz is answered with 401, and nothing behind the middleware is touched by it: no cache, no
  -- table, no store, no counter.
  pub serve_incoming-unauthorized :
      (m : Middleware) (p : Proxy) (c : Circumstances) (registry : Bytes → MetadataReply)
      (q : Incoming) (w : W redis backend rate)
      → m.enabled ≡ true
      → (q.request.path == codes "/healthz") ≡ false
      → (IsLoggedIn m q → ⊥)
      → serve_incoming m p c registry q w ≡ (unauthorized, w)
  unfolding serve_incoming wrap
  serve_incoming-unauthorized m p c registry q w on path nobody =
      simp (path, not_admitted m q nobody, on) refl
