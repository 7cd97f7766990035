-- ===== src/Proxy/Concurrent/Hits.antt =====
-- What the hits of requests that are in `serve` at once are served.
use cache_proxyfy.Prelude.{
  ℕ, ◌≡◌, inl, inr, refl, sym, subst, Bytes, Bool, true, Option, none, some, [], arith, eqb,
  eqb_iff, Bool-cases, Result, ok, err, take,
}
use cache_proxyfy.Db.Schema.{PackageKey}
use cache_proxyfy.Db.Checksums.{AreKnown}
use cache_proxyfy.Cache.Redis.{Redis}
use cache_proxyfy.Cache.Client
use cache_proxyfy.Storage.Backend.{StorageBackend}
use cache_proxyfy.RateLimit.{RateLibrary}
use cache_proxyfy.Security.Advisory.{Outcome, allow, warn, block}
use cache_proxyfy.Ecosystem.Package.{cache_key}
use cache_proxyfy.Proxy.World.{Proxy}
use cache_proxyfy.Proxy.Serve.{
  ServeError, hit, Artifact, DbLookup, previously_blocked, located, absent, W, lookup_cache,
  lookup_db, deliver, serve_scanned, serve_uncached, serve_after_cache,
}
use cache_proxyfy.Proxy.Serve.Outcomes.{lookup_cache-found, lookup_db-located}
use cache_proxyfy.Proxy.Concurrent.{
  Visit, Stage, answered, set_stage, System, looks_in_cache, looks_in_db, scans, joins, opens,
  calls_back, closes, leaves, concludes, runs_task, Reach, starts, goes_on, verdict, leave_cache,
  leave_db, leave_scan, leave_group, look_in_cache, look_in_db, scan, run_callback, conclude,
}
use cache_proxyfy.Proxy.Concurrent.Checksums
use cache_proxyfy.Proxy.Concurrent.Origins.{HasOrigin, HaveOrigins, Reach-HaveOrigins}
use cache_proxyfy.Proxy.Concurrent.Indexes.{
  TasksKnow, TasksKnow-taken, lookup_cache-Knows, lookup_db-Knows, run_task-Knows,
}

module _ (redis : Redis) (backend : StorageBackend) (rate : RateLibrary) (p : Proxy)
    (visits : ℕ → Visit) (w : W redis backend rate) where
  abbrev Know : W redis backend rate → Type 0
  Know = Checksums.Know redis backend rate p visits w

  abbrev Belongs : PackageKey → Bytes → Type 0
  Belongs = Checksums.Belongs redis backend rate p visits w

  -- Nothing is indexed.
  pub record IsFresh : Type 0 where
    pub redis_is_empty : (k : PackageKey) → Client.cached redis w.cache k ≡ none
    pub no_rows : w.db.packages ≡ []
    pub no_tasks : w.tasks ≡ []

  start-Know : IsFresh → Know w
  start-Know f = record {
    in_redis = λ k s e. absurd (ground (arith, f.redis_is_empty k));
    in_rows = subst (AreKnown Belongs) (sym f.no_rows) tt;
    in_tasks = subst (TasksKnow redis backend rate Belongs) (sym f.no_tasks) tt;
  }

  Reach-Know :
      {s : System redis backend rate}
      → IsFresh
      → Reach redis backend rate p visits w s
      → Know s.world
  unfolding look_in_cache look_in_db scan run_callback conclude
  Reach-Know f starts = start-Know f
  Reach-Know f (goes_on r (looks_in_cache s i e)) =
      Checksums.leave_cache-Know redis backend rate p visits w i
        (lookup_cache redis backend rate (visits i).pkg.key s.world)
        (lookup_cache-Knows redis backend rate Belongs (visits i).pkg.key s.world (Reach-Know f r))
  Reach-Know f (goes_on r (looks_in_db s i e)) =
      let h = Reach-Know f r in
      Checksums.leave_db-Know redis backend rate p visits w i
        (lookup_db redis backend rate (visits i).pkg.key s.world)
        (λ c b q. Checksums.located-Belongs redis backend rate p visits w i s.world c b h q)
        (lookup_db-Knows redis backend rate Belongs (visits i).pkg.key s.world h)
  Reach-Know f (goes_on r (scans s i e)) =
      Checksums.leave_scan-Know redis backend rate p visits w i
        (verdict redis backend rate p (visits i)).outcome _
        (Checksums.note_scan-Know redis backend rate p visits w i s.world (Reach-Know f r))
  Reach-Know f (goes_on r (joins s i c e h q)) = Reach-Know f r
  Reach-Know f (goes_on r (opens s i e h q)) = Reach-Know f r
  Reach-Know f (goes_on r (calls_back s i k c e)) =
      Checksums.fetch_as_leader-Know redis backend rate p visits w i s.world (Reach-Know f r)
  Reach-Know f (goes_on r (closes s i k c a e)) = Reach-Know f r
  Reach-Know f (goes_on r (leaves s i k c a e q)) = Reach-Know f r
  Reach-Know f (goes_on r (concludes s i c a led e q)) =
      Checksums.leave_group-Know redis backend rate p visits w i a led s.world (Reach-Know f r)
  Reach-Know f (goes_on r (runs_task s before after t e)) =
      let h = Reach-Know f r in
      let (k, rest) =
        TasksKnow-taken redis backend rate Belongs before after t
          (subst (TasksKnow redis backend rate Belongs) e h.in_tasks) in
      run_task-Knows redis backend rate Belongs
        (Checksums.Belongs-respects redis backend rate p visits w) t _ k
        (record { in_redis = h.in_redis; in_rows = h.in_rows; in_tasks = rest })

  -- The artifact of a hit: what the store had at the start, or a registry gave, under the storage key
  -- of a request with the same key in Redis, as far as the client takes it.
  abbrev pub IsServed : ℕ → Artifact → Type 0
  IsServed i a =
      (j : ℕ) × (Client.key (visits j).pkg.key ≡ Client.key (visits i).pkg.key)
      × (x : Bytes) × HasOrigin redis backend rate p visits w (cache_key (visits j).pkg) x
      × (a.body ≡ take (visits i).circumstances.client_takes x)

  leave_cache-hit :
      (i : ℕ) (found : Option Bytes × W redis backend rate) (a : Artifact)
      → (leave_cache redis backend rate p (visits i) found).0 ≡ answered (ok a)
      → (b : Bytes) × (found.0 ≡ some b) × (a.body ≡ take (visits i).circumstances.client_takes b)
  unfolding leave_cache serve_after_cache
  leave_cache-hit i (none, u) a e = absurd (cc)
  leave_cache-hit i (some b, u) a e = (b, refl, ground arith)

  leave_db-hit :
      (i : ℕ) (found : DbLookup × W redis backend rate) (a : Artifact)
      → (leave_db redis backend rate p (visits i) found).0 ≡ answered (ok a)
      → (s : Bytes) × (b : Bytes) × (found.0 ≡ located s b)
        × (a.body ≡ take (visits i).circumstances.client_takes b)
  unfolding leave_db serve_uncached
  leave_db-hit i (absent, u) a e = absurd (cc)
  leave_db-hit i (previously_blocked, u) a e = absurd (cc)
  leave_db-hit i (located s b, u) a e = (s, b, refl, ground arith)

  leave_scan-no_hit :
      (i : ℕ) (o : Outcome) (u : W redis backend rate) (a : Artifact)
      → (leave_scan redis backend rate p (visits i) o u).0 ≡ answered (ok a)
      → ⊥
  unfolding leave_scan serve_scanned
  leave_scan-no_hit i allow u a e = cc
  leave_scan-no_hit i warn u a e = cc
  leave_scan-no_hit i block u a e = cc

  leave_group-no_hit :
      (i : ℕ) (r : Result ServeError Bytes) (led : Bool) (u : W redis backend rate) (a : Artifact)
      → (leave_group redis backend rate p (visits i) r led u).0 ≡ answered (ok a)
      → a.status ≡ hit
      → ⊥
  unfolding leave_group deliver
  leave_group-no_hit i (err x) led u a e h = cc
  leave_group-no_hit i (ok b) led u a e h = ground arith

  abbrev HitsAreServed : System redis backend rate → Type 0
  HitsAreServed s =
      (j : ℕ) (a : Artifact) → s.stages j ≡ answered (ok a) → a.status ≡ hit → IsServed j a

  set_stage-HitsAreServed :
      (s : System redis backend rate) (i : ℕ) (q : Stage)
      → HitsAreServed s
      → ((a : Artifact) → q ≡ answered (ok a) → a.status ≡ hit → IsServed i a)
      → (j : ℕ) (a : Artifact) → set_stage i q s.stages j ≡ answered (ok a)
      → a.status ≡ hit
      → IsServed j a
  set_stage-HitsAreServed s i q h new j a e k = elim (Bool-cases (eqb i j)) [
    | inl same ↦ subst (λ x. IsServed x a) ((eqb_iff i j).0 same) (new a (ground arith) k)
    | inr other ↦ h j a (ground arith) k
  ]

  module _ (fresh : IsFresh)
      (named : (i : ℕ) → backend.valid (cache_key (visits i).pkg) ≡ true) where
    indexed-IsServed :
        (s : System redis backend rate) (i : ℕ) (c b : Bytes) (a : Artifact)
        → HaveOrigins redis backend rate p visits w s.world.store
        → Belongs (visits i).pkg.key c
        → backend.holds s.world.store c ≡ some b
        → a.body ≡ take (visits i).circumstances.client_takes b
        → IsServed i a
    indexed-IsServed s i c b a origins (j, same, key) held body = (
      j,
      same,
      b,
      origins (cache_key (visits j).pkg) b (named j)
          (subst (λ y. backend.holds s.world.store y ≡ some b) (sym key) held),
      body,
    )

    Reach-HitsAreServed :
        {s : System redis backend rate} → Reach redis backend rate p visits w s → HitsAreServed s
    unfolding look_in_cache look_in_db scan run_callback conclude
    Reach-HitsAreServed starts = λ j a e k. absurd (cc)
    Reach-HitsAreServed (goes_on r (looks_in_cache s i e)) =
        set_stage-HitsAreServed s i
          (leave_cache redis backend rate p (visits i)
            (lookup_cache redis backend rate (visits i).pkg.key s.world)).0
          (Reach-HitsAreServed r)
          (λ a q k.
            let (b, found, body) = leave_cache-hit i _ a q in
            let (c, cached, held) =
              lookup_cache-found redis backend rate (visits i).pkg.key s.world b found in
            indexed-IsServed s i c b a (Reach-HaveOrigins redis backend rate p visits w named r)
              ((Reach-Know fresh r).in_redis (visits i).pkg.key c cached) held body)
    Reach-HitsAreServed (goes_on r (looks_in_db s i e)) =
        set_stage-HitsAreServed s i
          (leave_db redis backend rate p (visits i)
            (lookup_db redis backend rate (visits i).pkg.key s.world)).0
          (Reach-HitsAreServed r)
          (λ a q k.
            let (c, b, found, body) = leave_db-hit i _ a q in
            let (row, held) =
              lookup_db-located redis backend rate (visits i).pkg.key s.world c b found in
            indexed-IsServed s i c b a (Reach-HaveOrigins redis backend rate p visits w named r)
              (Checksums.located-Belongs redis backend rate p visits w i s.world c b
                (Reach-Know fresh r) found)
              held body)
    Reach-HitsAreServed (goes_on r (scans s i e)) =
        set_stage-HitsAreServed s i _ (Reach-HitsAreServed r)
          (λ a q k. absurd (leave_scan-no_hit i _ _ a q))
    Reach-HitsAreServed (goes_on r (joins s i c e h q)) = Reach-HitsAreServed r
    Reach-HitsAreServed (goes_on r (opens s i e h q)) = Reach-HitsAreServed r
    Reach-HitsAreServed (goes_on r (calls_back s i k c e)) = Reach-HitsAreServed r
    Reach-HitsAreServed (goes_on r (closes s i k c a e)) = Reach-HitsAreServed r
    Reach-HitsAreServed (goes_on r (leaves s i k c a e q)) = Reach-HitsAreServed r
    Reach-HitsAreServed (goes_on r (concludes s i c x led e q)) =
        set_stage-HitsAreServed s i _ (Reach-HitsAreServed r)
          (λ a n k. absurd (leave_group-no_hit i x led s.world a n k))
    Reach-HitsAreServed (goes_on r (runs_task s before after t e)) = Reach-HitsAreServed r

    -- Where the store does each Put at once, so that no two of them overlap, from a world without
    -- rows, cached checksums and goroutines, and where all storage keys are valid names: however
    -- the other steps of requests and their goroutines interleave, the artifact of a hit is what a
    -- registry gave, or the store had at the start, under the storage key of a request with the
    -- same key in Redis, as far as the client takes it.
    pub Reach-hit :
        {s : System redis backend rate}
        → Reach redis backend rate p visits w s
        → (i : ℕ) (a : Artifact) → s.stages i ≡ answered (ok a)
        → a.status ≡ hit
        → IsServed i a
    Reach-hit r = Reach-HitsAreServed r
