-- ===== src/Proxy/Concurrent/Origins.antt =====
-- Where the artifacts in the store come from while requests are in `serve` at once.
use cache_proxyfy.Prelude.{
  ℕ, ◌≡◌, ◌⊎◌, inl, inr, refl, sym, ap, subst, ◌∙◌, Bytes, true, some, Result, ok, err,
}
use cache_proxyfy.Cache.Redis.{Redis}
use cache_proxyfy.Storage.Backend.{StorageBackend}
use cache_proxyfy.RateLimit.{RateLibrary}
use cache_proxyfy.Ecosystem.Package.{cache_key}
use cache_proxyfy.Singleflight.{returned}
use cache_proxyfy.Singleflight.Sharing.{Opened, Has, Reach-IsSound}
use cache_proxyfy.Proxy.Retry.{FetchError, fetch_from_upstream}
use cache_proxyfy.Proxy.World.{Proxy}
use cache_proxyfy.Proxy.Serve.{ServeError, W, lookup_cache, lookup_db, lift_fetch, note_scan}
use cache_proxyfy.Proxy.Serve.Outcomes.{SameStore, lookup_cache-SameStore, lookup_db-SameStore}
use cache_proxyfy.Proxy.Serve.Misses.{fetch_as_leader-store}
use cache_proxyfy.Proxy.Concurrent.{
  Visit, System, looks_in_cache, looks_in_db, scans, joins, opens, calls_back, closes, leaves,
  concludes, runs_task, Reach, starts, goes_on, verdict, look_in_cache, look_in_db, scan,
  run_callback, conclude,
}
use cache_proxyfy.Proxy.Concurrent.Shared.{Reach-group, Fetches}
use cache_proxyfy.Proxy.Concurrent.Flights.{Reach-IsHonest}
use cache_proxyfy.Proxy.Concurrent.Stores.{
  leave_cache-store, leave_db-store, leave_scan-store, leave_group-held, run_task-store,
}

lift_fetch-ok : (r : Result FetchError Bytes) (x : Bytes) → ok x ≡ lift_fetch r → r ≡ ok x
lift_fetch-ok (ok b) x e = cc
lift_fetch-ok (err q) x e = absurd (cc)

module _ (redis : Redis) (backend : StorageBackend) (rate : RateLibrary) (p : Proxy)
    (visits : ℕ → Visit) (w : W redis backend rate) where
  -- The registry gives the request these bytes.
  abbrev pub Gets : ℕ → Bytes → Type 0
  Gets i x =
      (fetch_from_upstream (visits i).circumstances.jitter p.retry (visits i).circumstances.replies
        (visits i).circumstances.ended).result
      ≡ ok x

  Fetches-Gets : (i : ℕ) (x : Bytes) → Fetches redis backend rate p visits w i (ok x) → Gets i x
  Fetches-Gets i x (inl e) = absurd (cc)
  Fetches-Gets i x (inr e) = lift_fetch-ok _ x e

  -- What `Do` returns to the request that led is what its own callback returned.
  leader-Fetches :
      {s : System redis backend rate}
      → Reach redis backend rate p visits w s
      → (i c : ℕ) (a : Result ServeError Bytes) → s.group.phases i ≡ returned c a true
      → Fetches redis backend rate p visits w i a
  unfolding Opened Has
  leader-Fetches {s = s} r i c a e =
      let sound = Reach-IsSound (Reach-group redis backend rate p visits w r) in
      let (j, o, f) =
        (Reach-IsHonest redis backend rate p visits w r).made c a
          (sound.kept i c a (subst (λ x. Has x c a) (sym e) (refl, refl))) in
      subst (λ x. Fetches redis backend rate p visits w x a)
        (sound.one_opener j i c o (subst (λ x. Opened x c) (sym e) (refl, refl))) f

  -- An artifact was there at the start, or a request with that storage key got it from its registry.
  abbrev pub HasOrigin : Bytes → Bytes → Type 0
  HasOrigin n x =
      (backend.holds w.store n ≡ some x) ⊎ ((i : ℕ) × (cache_key (visits i).pkg ≡ n) × Gets i x)

  abbrev pub HaveOrigins : backend.State → Type 0
  HaveOrigins u =
      (n x : Bytes) → backend.valid n ≡ true → backend.holds u n ≡ some x → HasOrigin n x

  SameStore-HaveOrigins :
      (u u' : W redis backend rate)
      → SameStore redis backend rate u u'
      → HaveOrigins u.store
      → HaveOrigins u'.store
  SameStore-HaveOrigins u u' e h n x v q = h n x v (sym (e n) ∙ q)

  module _ (named : (i : ℕ) → backend.valid (cache_key (visits i).pkg) ≡ true) where
    -- Where the store does each Put at once, so that no two of them overlap, and where all storage keys
    -- are valid names: however the other steps of requests and their goroutines interleave, an
    -- artifact in the store under a valid name was there at the start, or is what the registry gave a
    -- request whose storage key is that name.
    pub Reach-HaveOrigins :
        {s : System redis backend rate}
        → Reach redis backend rate p visits w s
        → HaveOrigins s.world.store
    unfolding look_in_cache look_in_db scan run_callback conclude note_scan
    Reach-HaveOrigins starts = λ n x v q. inl q
    Reach-HaveOrigins (goes_on r (looks_in_cache s i e)) =
        let found = lookup_cache redis backend rate (visits i).pkg.key s.world in
        subst HaveOrigins (sym (leave_cache-store redis backend rate p (visits i) found)) (
          SameStore-HaveOrigins s.world found.1
            (lookup_cache-SameStore redis backend rate (visits i).pkg.key s.world)
            (Reach-HaveOrigins r))
    Reach-HaveOrigins (goes_on r (looks_in_db s i e)) =
        let found = lookup_db redis backend rate (visits i).pkg.key s.world in
        subst HaveOrigins (sym (leave_db-store redis backend rate p (visits i) found)) (
          SameStore-HaveOrigins s.world found.1
            (lookup_db-SameStore redis backend rate (visits i).pkg.key s.world)
            (Reach-HaveOrigins r))
    Reach-HaveOrigins (goes_on r (scans s i e)) =
        subst HaveOrigins
          (sym (
            leave_scan-store redis backend rate p (visits i)
              (verdict redis backend rate p (visits i)).outcome _))
          (Reach-HaveOrigins r)
    Reach-HaveOrigins (goes_on r (joins s i c e h q)) = Reach-HaveOrigins r
    Reach-HaveOrigins (goes_on r (opens s i e h q)) = Reach-HaveOrigins r
    Reach-HaveOrigins (goes_on r (calls_back s i k c e)) =
        subst HaveOrigins
          (sym (
            fetch_as_leader-store redis backend rate p (visits i).circumstances (visits i).pkg
              s.world))
          (Reach-HaveOrigins r)
    Reach-HaveOrigins (goes_on r (closes s i k c a e)) = Reach-HaveOrigins r
    Reach-HaveOrigins (goes_on r (leaves s i k c a e q)) = Reach-HaveOrigins r
    Reach-HaveOrigins (goes_on r (concludes s i c a led e q)) = λ n x v h.
        elim (leave_group-held redis backend rate p (visits i) a led s.world n x (named i) v h) [
          | inl old ↦ Reach-HaveOrigins r n x v old
          | inr (l, b, k) ↦ inr (
            i,
            k,
            Fetches-Gets i x (
                subst (Fetches redis backend rate p visits w i) b
                  (leader-Fetches r i c a (q ∙ ap (returned c a) l))),
          )
        ]
    Reach-HaveOrigins (goes_on r (runs_task s before after t e)) =
        subst HaveOrigins (sym (run_task-store redis backend rate t _)) (Reach-HaveOrigins r)
