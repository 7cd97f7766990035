-- ===== src/Proxy/Concurrent/Checksums.antt =====
-- The checksums that requests in `serve` at once put into Redis, rows and goroutines.
use cache_proxyfy.Prelude.{
  ℕ, ◌≡◌, refl, subst, ◌∙◌, Bytes, Bool, true, false, Option, none, some, List, arith, Result, ok,
  err,
}
use cache_proxyfy.Db.Schema.{PackageKey}
use cache_proxyfy.Db.Checksums.{find_row-known}
use cache_proxyfy.Cache.Redis.{Redis}
use cache_proxyfy.Cache.Client
use cache_proxyfy.Storage.Backend.{StorageBackend}
use cache_proxyfy.RateLimit.{RateLibrary}
use cache_proxyfy.Security.Advisory.{Outcome, allow, warn, block}
use cache_proxyfy.Ecosystem.Package.{cache_key}
use cache_proxyfy.Proxy.Router.{rewrite_response}
use cache_proxyfy.Proxy.World.{Proxy, Task}
use cache_proxyfy.Proxy.Serve.{
  ServeError, DbLookup, previously_blocked, located, absent, W, lookup_db, fetch_as_leader,
  keep_artifact, deliver, note_scan, serve_scanned, serve_uncached, serve_after_cache,
}
use cache_proxyfy.Proxy.Serve.Outcomes.{lookup_db-located}
use cache_proxyfy.Proxy.Concurrent.{
  Visit, verdict, leave_cache, leave_db, leave_scan, leave_group, count_fetch,
}
use cache_proxyfy.Proxy.Concurrent.Indexes.{Knows, TasksKnow, TasksKnow-append, same-Knows}

module _ (redis : Redis) (backend : StorageBackend) (rate : RateLibrary) (p : Proxy)
    (visits : ℕ → Visit) (w : W redis backend rate) where
  -- The checksum is the storage key of a request with the same key in Redis.
  abbrev pub Belongs : PackageKey → Bytes → Type 0
  Belongs k s =
      (j : ℕ) × (Client.key (visits j).pkg.key ≡ Client.key k) × (cache_key (visits j).pkg ≡ s)

  pub Belongs-respects :
      (k j : PackageKey) (s : Bytes) → Client.key k ≡ Client.key j → Belongs k s → Belongs j s
  Belongs-respects k j s q (i, e, c) = (i, e ∙ q, c)

  abbrev pub Know : W redis backend rate → Type 0
  Know = Knows redis backend rate Belongs

  more-Know :
      (u : W redis backend rate) (ts : List Task)
      → TasksKnow redis backend rate Belongs ts
      → Know u
      → Know (record u { tasks = ts })
  more-Know u ts t h = record { in_redis = h.in_redis; in_rows = h.in_rows; in_tasks = t }

  pub leave_cache-Know :
      (i : ℕ) (found : Option Bytes × W redis backend rate)
      → Know found.1
      → Know (leave_cache redis backend rate p (visits i) found).1
  unfolding leave_cache serve_after_cache
  leave_cache-Know i (none, u) h = h
  leave_cache-Know i (some b, u) h =
      more-Know u _ (TasksKnow-append redis backend rate Belongs u.tasks _ h.in_tasks tt) h

  -- The row that led to an artifact knows its checksum.
  pub located-Belongs :
      (i : ℕ) (u : W redis backend rate) (s b : Bytes)
      → Know u
      → (lookup_db redis backend rate (visits i).pkg.key u).0 ≡ located s b
      → Belongs (visits i).pkg.key s
  located-Belongs i u s b h e =
      let (r, held) = lookup_db-located redis backend rate (visits i).pkg.key u s b e in
      subst (Belongs (visits i).pkg.key) r.has_checksum (
        find_row-known Belongs (visits i).pkg.key u.db.packages r.row h.in_rows r.at_key
          r.is_cached)

  pub leave_db-Know :
      (i : ℕ) (found : DbLookup × W redis backend rate)
      → ((s b : Bytes) → found.0 ≡ located s b → Belongs (visits i).pkg.key s)
      → Know found.1
      → Know (leave_db redis backend rate p (visits i) found).1
  unfolding leave_db serve_uncached
  leave_db-Know i (absent, u) b h = h
  leave_db-Know i (previously_blocked, u) b h = h
  leave_db-Know i (located s x, u) b h =
      more-Know u _ (TasksKnow-append redis backend rate Belongs u.tasks _ h.in_tasks (b s x refl))
        h

  pub note_scan-Know :
      (i : ℕ) (u : W redis backend rate)
      → Know u
      → Know (
          note_scan redis backend rate
            (visits i).pkg.key
            (verdict redis backend rate p (visits i))
            u)
  unfolding note_scan
  note_scan-Know i u h = record {
    in_redis = h.in_redis;
    in_rows = h.in_rows;
    in_tasks = TasksKnow-append redis backend rate Belongs u.tasks _ h.in_tasks tt;
  }

  pub leave_scan-Know :
      (i : ℕ) (o : Outcome) (u : W redis backend rate)
      → Know u
      → Know (leave_scan redis backend rate p (visits i) o u).1
  unfolding leave_scan serve_scanned
  leave_scan-Know i allow u h = h
  leave_scan-Know i warn u h = h
  leave_scan-Know i block u h =
      more-Know u _ (TasksKnow-append redis backend rate Belongs u.tasks _ h.in_tasks tt) h

  pub leave_group-Know :
      (i : ℕ) (a : Result ServeError Bytes) (led : Bool) (u : W redis backend rate)
      → Know u
      → Know (leave_group redis backend rate p (visits i) a led u).1
  unfolding leave_group deliver count_fetch keep_artifact rewrite_response
  leave_group-Know i (err e) false u h = h
  leave_group-Know i (ok b) false u h = h
  leave_group-Know i (err e) true u h = same-Knows redis backend rate Belongs u _ refl refl refl h
  leave_group-Know i (ok b) true u h = record {
    in_redis = h.in_redis;
    in_rows = h.in_rows;
    in_tasks = TasksKnow-append redis backend rate Belongs u.tasks _ h.in_tasks (i, refl, refl);
  }

  pub fetch_as_leader-Know :
      (i : ℕ) (u : W redis backend rate)
      → Know u
      → Know (fetch_as_leader redis backend rate p (visits i).circumstances (visits i).pkg u).1
  unfolding fetch_as_leader
  fetch_as_leader-Know i u h =
      let u' = (fetch_as_leader redis backend rate p (visits i).circumstances (visits i).pkg u).1 in
      let (c, d, t) : (u'.cache ≡ u.cache) × (u'.db ≡ u.db) × (u'.tasks ≡ u.tasks) = ground arith in
      same-Knows redis backend rate Belongs u u' c d t h
