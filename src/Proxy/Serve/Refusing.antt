-- ===== src/Proxy/Serve/Refusing.antt =====
-- Requests for packages with a blocked row, and what the goroutines of a refusal leave.
use cache_proxyfy.Prelude.{
  ◌≡◌, refl, ap, ◌∙◌, Bytes, true, false, Option, none, some, List, [], ◌∷◌, arith, ok, err, is_ok,
  fails,
}
use cache_proxyfy.Db.Schema.{PackageKey, key_eq, Status, cached, blocked, Database, DbError}
use cache_proxyfy.Db.Schema
use cache_proxyfy.Db.Packages.{get_package, upsert_blocked_package, inserted, updated}
use cache_proxyfy.Db.Rows.{key_eq_refl, merged}
use cache_proxyfy.Db.Lookup.{row_at, row_at-upsert_blocked_package}
use cache_proxyfy.Cache.Redis.{Redis}
use cache_proxyfy.Storage.Backend.{StorageBackend}
use cache_proxyfy.RateLimit.{RateLibrary}
use cache_proxyfy.Ecosystem.Package.{Package}
use cache_proxyfy.Proxy.Router.{Handler}
use cache_proxyfy.Proxy.World.{Proxy, block_package}
use cache_proxyfy.Proxy.Serve.{
  package_blocked, Circumstances, DbLookup, previously_blocked, located, absent, W, Served, start,
  note_scan, lookup_cache, lookup_row, lookup_db, serve_uncached, serve,
}
use cache_proxyfy.Proxy.Serve.Outcomes.{lookup_cache-db}
use cache_proxyfy.Proxy.Serve.Hits.{serve-uncached, after_cache}
use cache_proxyfy.Proxy.Tasks.{run_task, run_tasks, log_alerts, settled}
use cache_proxyfy.Security.Checker.{Verdict}
use cache_proxyfy.Security.Advisory.{Outcome, CveRecord}
use cache_proxyfy.Db.Audit.{record_cve_alert}

get_package-found :
    (k : PackageKey) (d : Database) (r : Schema.Package)
    → row_at k d ≡ some r
    → fails d.faults ≡ false
    → (get_package k d).0 ≡ ok r
unfolding get_package
get_package-found k d r e f = ground arith

module _ (redis : Redis) (backend : StorageBackend) (rate : RateLibrary) where
  lookup_row-blocked :
      (r : Schema.Package) (w : W redis backend rate)
      → r.status ≡ blocked
      → lookup_row redis backend rate r w ≡ (previously_blocked, w)
  unfolding lookup_row
  lookup_row-blocked r w e = rw (e, lookup_row) refl

  lookup_db-blocked :
      (k : PackageKey) (w : W redis backend rate) (r : Schema.Package)
      → row_at k w.db ≡ some r
      → r.status ≡ blocked
      → fails w.db.faults ≡ false
      → (lookup_db redis backend rate k w).0 ≡ previously_blocked
  unfolding lookup_db
  lookup_db-blocked k w r e s f =
      rw (get_package-found k w.db r e f, lookup_db)
        (ap (λ (q : DbLookup × W redis backend rate). q.0)
          (lookup_row-blocked r (record w { db = (get_package k w.db).1 }) s))

  module _ (p : Proxy) (c : Circumstances) (ecosystem : Bytes) (h : Handler) (pkg : Package) where
    serve_uncached-blocked :
        (l : DbLookup) (w : W redis backend rate)
        → l ≡ previously_blocked
        → serve_uncached redis backend rate p c ecosystem h pkg (l, w) ≡ (err package_blocked, w)
    unfolding serve_uncached
    serve_uncached-blocked previously_blocked w e = refl
    serve_uncached-blocked (located s b) w e = absurd (cc)
    serve_uncached-blocked absent w e = absurd (cc)

    serve-blocked_row :
        (w : W redis backend rate) (r : Schema.Package)
        → (lookup_cache redis backend rate pkg.key w).0 ≡ none
        → row_at pkg.key w.db ≡ some r
        → r.status ≡ blocked
        → fails w.db.faults ≡ false
        → serve redis backend rate p c ecosystem h pkg w ≡ (
          err package_blocked,
          (lookup_db redis backend rate pkg.key
              (after_cache redis backend rate p c ecosystem h pkg w)).1,
        )
    serve-blocked_row w r q e s f =
        let w₁ : W redis backend rate = after_cache redis backend rate p c ecosystem h pkg w in
        let same : w₁.db ≡ w.db = lookup_cache-db redis backend rate pkg.key w in
        serve-uncached redis backend rate p c ecosystem h pkg w q
        ∙ serve_uncached-blocked (lookup_db redis backend rate pkg.key w₁).0
            (lookup_db redis backend rate pkg.key w₁).1
            (lookup_db-blocked pkg.key w₁ r (rw (same) e) s (rw (same) f))

    row_at-run_block :
        (w : W redis backend rate)
        → is_ok (upsert_blocked_package pkg.key w.db).0 ≡ true
        → row_at pkg.key (run_task redis backend rate (block_package pkg.key) w).db
          ≡ some (
              merged
                (inserted w.db pkg.key blocked [] 0)
                (updated blocked [] 0)
                (row_at pkg.key w.db))
    unfolding run_task
    row_at-run_block w e =
        row_at-upsert_blocked_package pkg.key w.db pkg.key ∙ rw (e, key_eq_refl pkg.key) refl

    merged-blocked :
        (d : Database) (o : Option Schema.Package)
        → (merged (inserted d pkg.key blocked [] 0) (updated blocked [] 0) o).status ≡ blocked
    merged-blocked d none = refl
    merged-blocked d (some r) = refl

    pub serve-after_block :
        (w : W redis backend rate)
        → is_ok (upsert_blocked_package pkg.key w.db).0 ≡ true
        → (lookup_cache redis backend rate pkg.key
            (run_task redis backend rate (block_package pkg.key) w)).0
          ≡ none
        → fails (run_task redis backend rate (block_package pkg.key) w).db.faults ≡ false
        → (serve redis backend rate p c ecosystem h pkg
            (run_task redis backend rate (block_package pkg.key) w)).0
          ≡ err package_blocked
    serve-after_block w e q f =
        ap (λ (r : Served redis backend rate). r.0)
          (serve-blocked_row (run_task redis backend rate (block_package pkg.key) w)
            (merged (inserted w.db pkg.key blocked [] 0) (updated blocked [] 0)
              (row_at pkg.key w.db))
            q (row_at-run_block w e) (merged-blocked w.db (row_at pkg.key w.db)) f)

  pub log_alerts-faults :
      (k : PackageKey) (o : Outcome) (rs : List CveRecord) (w : W redis backend rate)
      → w.db.faults ≡ []
      → (log_alerts redis backend rate k o rs w).db.faults ≡ []
  unfolding log_alerts record_cve_alert
  log_alerts-faults k o [] w h = h
  log_alerts-faults k o (r ∷ rs) w h = log_alerts-faults k o rs _ (ground arith)

  block_package-faults :
      (k : PackageKey) (d : Database) → d.faults ≡ [] → (upsert_blocked_package k d).1.faults ≡ []
  unfolding upsert_blocked_package
  block_package-faults k d h = ground arith

  pub note_scan-faults :
      (k : PackageKey) (v : Verdict) (w : W redis backend rate)
      → w.db.faults ≡ []
      → (note_scan redis backend rate k v w).db.faults ≡ []
  unfolding note_scan
  note_scan-faults k v w h = h

  pub block_faults :
      (k : PackageKey) (w : W redis backend rate)
      → w.db.faults ≡ []
      → (run_task redis backend rate (block_package k) w).db.faults ≡ []
  unfolding run_task
  block_faults k w h = block_package-faults k w.db h

  pub block_package-ok :
      (k : PackageKey) (d : Database) → d.faults ≡ [] → is_ok (upsert_blocked_package k d).0 ≡ true
  unfolding upsert_blocked_package
  block_package-ok k d h = ground arith

  pub settled-refused :
      (k : PackageKey) (v : Verdict) (u : W redis backend rate)
      → u.tasks ≡ []
      → settled redis backend rate
          (start redis backend rate (block_package k) (note_scan redis backend rate k v u))
        ≡ run_task redis backend rate (block_package k) (
            log_alerts redis backend rate k v.outcome v.records
              (record (note_scan redis backend rate k v u) { tasks = [] }))
  unfolding run_tasks run_task note_scan
  settled-refused k v u e = rw e refl
