-- ===== src/Proxy/Concurrent/Places.antt =====
-- Which answers go with which phases of `Do`.
use cache_proxyfy.Prelude.{
  ℕ, ◌≡◌, ◌≢◌, refl, subst, Bytes, Bool, Option, none, some, Result, ok, err,
}
use cache_proxyfy.Cache.Redis.{Redis}
use cache_proxyfy.Storage.Backend.{StorageBackend}
use cache_proxyfy.RateLimit.{RateLibrary}
use cache_proxyfy.Security.Advisory.{Outcome, allow, warn, block}
use cache_proxyfy.Singleflight.{Phase, entering, waiting, running, closing, returned}
use cache_proxyfy.Proxy.Router.{rewrite_response}
use cache_proxyfy.Proxy.World.{Proxy}
use cache_proxyfy.Proxy.Serve.{
  ServeError, package_blocked, hit, miss, Artifact, DbLookup, previously_blocked, located, absent,
  W, respond, deliver, serve_scanned, serve_uncached, serve_after_cache,
}
use cache_proxyfy.Proxy.Concurrent.{
  Visit, Stage, arrived, missed_cache, missed_db, scanned, answered, System, verdict, leave_cache,
  leave_db, leave_scan, leave_group,
}

-- A hit, or the refusal of a blocked package: an answer that needs no fetch.
abbrev pub NeedsNoFetch : Result ServeError Artifact → Type 0
NeedsNoFetch (ok a) = a.status ≡ hit
NeedsNoFetch (err e) = e ≡ package_blocked

module _ (redis : Redis) (backend : StorageBackend) (rate : RateLibrary) (p : Proxy)
    (visits : ℕ → Visit) where
  -- What a request answers to what `Do` returns.
  abbrev pub reply : ℕ → Result ServeError Bytes → Result ServeError Artifact
  reply i (ok b) =
      ok (respond redis backend rate (visits i).circumstances (visits i).ecosystem miss b)
  reply i (err e) = err e

  abbrev pub IsClear : ℕ → Type 0
  IsClear i = (verdict redis backend rate p (visits i)).outcome ≢ block

  abbrev pub Ph : Type 0
  Ph = Phase (Result ServeError Bytes)

  -- What an answer says of where its request is with `Do`.
  abbrev pub IsAnswered : ℕ → Result ServeError Artifact → Ph → Type 0
  IsAnswered i r entering = NeedsNoFetch r
  IsAnswered i r (waiting k c) = ⊥
  IsAnswered i r (running k c) = ⊥
  IsAnswered i r (closing k c a) = ⊥
  IsAnswered i r (returned c a led) = IsClear i × (r ≡ reply i a)

  abbrev pub IsPlaced : ℕ → Stage → Ph → Type 0
  IsPlaced i arrived ph = ph ≡ entering
  IsPlaced i missed_cache ph = ph ≡ entering
  IsPlaced i missed_db ph = ph ≡ entering
  IsPlaced i scanned ph = IsClear i
  IsPlaced i (answered r) ph = IsAnswered i r ph

  abbrev pub ArePlaced : System redis backend rate → Type 0
  ArePlaced s = (j : ℕ) → IsPlaced j (s.stages j) (s.group.phases j)

  pub leave_cache-IsPlaced :
      (i : ℕ) (found : Option Bytes × W redis backend rate)
      → IsPlaced i (leave_cache redis backend rate p (visits i) found).0 entering
  unfolding leave_cache serve_after_cache
  leave_cache-IsPlaced i (none, v) = refl
  leave_cache-IsPlaced i (some b, v) = refl

  pub leave_db-IsPlaced :
      (i : ℕ) (found : DbLookup × W redis backend rate)
      → IsPlaced i (leave_db redis backend rate p (visits i) found).0 entering
  unfolding leave_db serve_uncached
  leave_db-IsPlaced i (previously_blocked, v) = refl
  leave_db-IsPlaced i (located checksum b, v) = refl
  leave_db-IsPlaced i (absent, v) = refl

  pub leave_scan-IsPlaced :
      (i : ℕ) (o : Outcome) (v : W redis backend rate)
      → (verdict redis backend rate p (visits i)).outcome ≡ o
      → IsPlaced i (leave_scan redis backend rate p (visits i) o v).0 entering
  unfolding leave_scan serve_scanned
  leave_scan-IsPlaced i allow v e = λ q. cc
  leave_scan-IsPlaced i warn v e = λ q. cc
  leave_scan-IsPlaced i block v e = refl

  pub leave_group-IsPlaced :
      (i c : ℕ) (a : Result ServeError Bytes) (led : Bool) (v : W redis backend rate)
      → IsClear i
      → IsPlaced i (leave_group redis backend rate p (visits i) a led v).0 (returned c a led)
  unfolding leave_group deliver rewrite_response
  leave_group-IsPlaced i c (ok b) led v h = (h, refl)
  leave_group-IsPlaced i c (err e) led v h = (h, refl)

  abbrev pub IsInDo : Ph → Type 0
  IsInDo entering = ⊥
  IsInDo (waiting k c) = Unit
  IsInDo (running k c) = Unit
  IsInDo (closing k c a) = Unit
  IsInDo (returned c a led) = ⊥

  -- A request in `Do` was scanned, whatever its next phase is.
  pub next-IsPlaced :
      (i : ℕ) (q : Stage) (ph ph' : Ph) → IsInDo ph → IsPlaced i q ph → IsPlaced i q ph'
  next-IsPlaced i arrived ph ph' b h = absurd (subst IsInDo h b)
  next-IsPlaced i missed_cache ph ph' b h = absurd (subst IsInDo h b)
  next-IsPlaced i missed_db ph ph' b h = absurd (subst IsInDo h b)
  next-IsPlaced i scanned ph ph' b h = h
  next-IsPlaced i (answered r) entering ph' b h = absurd b
  next-IsPlaced i (answered r) (waiting k c) ph' b h = absurd h
  next-IsPlaced i (answered r) (running k c) ph' b h = absurd h
  next-IsPlaced i (answered r) (closing k c a) ph' b h = absurd h
  next-IsPlaced i (answered r) (returned c a led) ph' b h = absurd b
