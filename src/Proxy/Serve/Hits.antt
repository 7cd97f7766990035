-- ===== src/Proxy/Serve/Hits.antt =====
-- Which requests are hits, and what they are served.
use cache_proxyfy.Prelude.{
  ◌≡◌, refl, sym, ap, ◌∙◌, inl, inr, Bytes, Bool, none, some, arith, take, Result, ok, err,
  Option-cases, subst,
}
use cache_proxyfy.Cache.Redis.{Redis}
use cache_proxyfy.Storage.Backend.{StorageBackend}
use cache_proxyfy.RateLimit.{RateLibrary}
use cache_proxyfy.Security.Advisory.{Outcome, block}
use cache_proxyfy.Ecosystem.Package.{Package}
use cache_proxyfy.Proxy.Router.{Handler}
use cache_proxyfy.Proxy.World.{Proxy}
use cache_proxyfy.Proxy.Serve.{
  ServeError, hit, Artifact, Circumstances, DbLookup, previously_blocked, located, absent, W,
  Served, respond, lookup_cache, lookup_db, fetch, deliver, serve_scanned, serve_upstream,
  serve_uncached, serve_after_cache, serve,
}
use cache_proxyfy.Proxy.Serve.Outcomes.{
  HasRow, IsHit, lookup_cache-found, lookup_cache-SameStore, lookup_cache-db, lookup_db-located,
}

module _ (redis : Redis) (backend : StorageBackend) (rate : RateLibrary) where
  deliver-not_hit :
      (c : Circumstances) (ecosystem : Bytes) (h : Handler) (pkg : Package)
      (f : Result ServeError Bytes × Bool × W redis backend rate) (a : Artifact)
      → (deliver redis backend rate c ecosystem h pkg f).0 ≡ ok a
      → a.status ≡ hit
      → ⊥
  unfolding deliver
  deliver-not_hit c ecosystem h pkg (err e, led, w) a q s = cc
  deliver-not_hit c ecosystem h pkg (ok b, led, w) a q s = ground arith

  serve_scanned-not_hit :
      (p : Proxy) (c : Circumstances) (ecosystem : Bytes) (h : Handler) (pkg : Package)
      (o : Outcome) (w : W redis backend rate) (a : Artifact)
      → (serve_scanned redis backend rate p c ecosystem h pkg o w).0 ≡ ok a
      → a.status ≡ hit
      → ⊥
  unfolding serve_scanned
  serve_scanned-not_hit p c ecosystem h pkg block w a q s = cc
  serve_scanned-not_hit p c ecosystem h pkg _ w a q s =
      deliver-not_hit c ecosystem h pkg (fetch redis backend rate p c pkg w) a q s

  serve_uncached-hit :
      (p : Proxy) (c : Circumstances) (ecosystem : Bytes) (h : Handler) (pkg : Package)
      (l : DbLookup) (w : W redis backend rate) (a : Artifact)
      → (serve_uncached redis backend rate p c ecosystem h pkg (l, w)).0 ≡ ok a
      → a.status ≡ hit
      → (s : Bytes) × (b : Bytes) × (l ≡ located s b) × (a.body ≡ take c.client_takes b)
  unfolding serve_uncached serve_upstream
  serve_uncached-hit p c ecosystem h pkg previously_blocked w a q s = absurd (cc)
  serve_uncached-hit p c ecosystem h pkg (located k b) w a q s = (k, b, refl, ground arith)
  serve_uncached-hit p c ecosystem h pkg absent w a q s =
      absurd (serve_scanned-not_hit p c ecosystem h pkg _ _ a q s)

  module _ (p : Proxy) (c : Circumstances) (ecosystem : Bytes) (h : Handler) (pkg : Package)
      (w : W redis backend rate) where
    -- The world after the lookup in Redis.
    abbrev pub after_cache : W redis backend rate
    after_cache = (lookup_cache redis backend rate pkg.key w).1

    pub serve-cached :
        (b : Bytes)
        → (lookup_cache redis backend rate pkg.key w).0 ≡ some b
        → (serve redis backend rate p c ecosystem h pkg w).0
          ≡ ok (respond redis backend rate c ecosystem hit b)
    unfolding serve serve_after_cache
    serve-cached b e = rw (e, serve_after_cache) refl

    pub serve-uncached :
        (lookup_cache redis backend rate pkg.key w).0 ≡ none
        → serve redis backend rate p c ecosystem h pkg w
          ≡ serve_uncached redis backend rate p c ecosystem h pkg
              (lookup_db redis backend rate pkg.key after_cache)
    unfolding serve serve_after_cache
    serve-uncached e = rw (e, serve_after_cache) refl

    -- Every hit is an artifact that the store held when the request came, under a checksum that
    -- Redis gave for the package, or a row with status `cached`; it is sent as far as the client
    -- takes it.
    pub serve-hit :
        (a : Artifact)
        → (serve redis backend rate p c ecosystem h pkg w).0 ≡ ok a
        → a.status ≡ hit
        → IsHit redis backend rate pkg.key w c.client_takes a
    serve-hit a q s = elim (Option-cases (lookup_cache redis backend rate pkg.key w).0) [
      | inl e ↦
          let (k, b, found, sent) =
            serve_uncached-hit p c ecosystem h pkg
              (lookup_db redis backend rate pkg.key after_cache).0
              (lookup_db redis backend rate pkg.key after_cache).1 a
              (ap (λ (r : Served redis backend rate). r.0) (sym (serve-uncached e)) ∙ q) s in
          let (row, held) = lookup_db-located redis backend rate pkg.key after_cache k b found in
          record {
            checksum = k;
            content = b;
            held = sym (lookup_cache-SameStore redis backend rate pkg.key w k) ∙ held;
            indexed = inr (
                subst (HasRow redis backend rate pkg.key k)
                  (lookup_cache-db redis backend rate pkg.key w) row);
            sent = sent;
          }
      | inr (b, e) ↦
          let (k, indexed, held) = lookup_cache-found redis backend rate pkg.key w b e in
          record {
            checksum = k;
            content = b;
            held = held;
            indexed = inl indexed;
            sent = ground (arith, serve-cached b e);
          }
    ]
