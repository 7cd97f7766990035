-- ===== src/Proxy/Concurrent/Indexes.antt =====
-- The checksums that Redis, the rows and the goroutines to come name: what holds of those that requests
-- put there holds of all.
use cache_proxyfy.Prelude.{
  ℕ, ◌≡◌, inl, inr, sym, subst, ◌∙◌, Bytes, some, List, [], ◌∷◌, ◌++◌, arith, Result-cases,
}
use cache_proxyfy.Db.Schema.{PackageKey, cached, blocked}
use cache_proxyfy.Db.Schema
use cache_proxyfy.Db.Packages.{get_package}
use cache_proxyfy.Db.Checksums.{
  IsKnowing, upsert_package-IsKnowing, upsert_blocked_package-IsKnowing, touch_package-IsKnowing,
  record_event-IsKnowing, record_cve_alert-IsKnowing, get_package-IsKnowing,
}
use cache_proxyfy.Cache.Redis.{Redis}
use cache_proxyfy.Cache.Client
use cache_proxyfy.Cache.Contents.{cached-get, cached-set_either}
use cache_proxyfy.Storage.Backend.{StorageBackend}
use cache_proxyfy.RateLimit.{RateLibrary}
use cache_proxyfy.Security.Advisory.{CveRecord, Outcome, severity_string, outcome_string}
use cache_proxyfy.Proxy.World.{
  Task, touch_and_record, restore_and_record, record_alerts, block_package, index_and_record,
}
use cache_proxyfy.Proxy.Tasks.{set_cache, log_event, log_alerts, run_task}
use cache_proxyfy.Proxy.Serve.{W, lookup_cache, lookup_db, lookup_row, open_artifact}

module _ (redis : Redis) (backend : StorageBackend) (rate : RateLibrary)
    (P : PackageKey → Bytes → Type 0) where
  abbrev pub TaskKnows : Task → Type 0
  TaskKnows (touch_and_record k n) = Unit
  TaskKnows (restore_and_record k s n) = P k s
  TaskKnows (record_alerts k o rs) = Unit
  TaskKnows (block_package k) = Unit
  TaskKnows (index_and_record pkg) = P pkg.key pkg.checksum

  abbrev pub TasksKnow : List Task → Type 0
  TasksKnow [] = Unit
  TasksKnow (t ∷ ts) = TaskKnows t × TasksKnow ts

  pub TasksKnow-append :
      (ts : List Task) (t : Task) → TasksKnow ts → TaskKnows t → TasksKnow (ts ++ t ∷ [])
  TasksKnow-append [] t h k = (k, tt)
  TasksKnow-append (u ∷ ts) t h k = (h.0, TasksKnow-append ts t h.1 k)

  -- A goroutine taken out of the others.
  pub TasksKnow-taken :
      (before after : List Task) (t : Task)
      → TasksKnow (before ++ t ∷ after)
      → TaskKnows t × TasksKnow (before ++ after)
  TasksKnow-taken [] after t h = h
  TasksKnow-taken (u ∷ before) after t h =
      let (k, rest) = TasksKnow-taken before after t h.1 in (k, (h.0, rest))

  pub record Knows (u : W redis backend rate) : Type 0 where
    pub in_redis : (k : PackageKey) (s : Bytes) → Client.cached redis u.cache k ≡ some s → P k s
    pub in_rows : IsKnowing P u.db
    pub in_tasks : TasksKnow u.tasks

  pub lookup_cache-Knows :
      (k : PackageKey) (u : W redis backend rate)
      → Knows u
      → Knows (lookup_cache redis backend rate k u).1
  unfolding lookup_cache open_artifact
  lookup_cache-Knows k u h =
      let after : Knows (record u { cache = (Client.get redis u.cache k).1 }) = record {
        in_redis = λ j s e. h.in_redis j s (sym (cached-get redis u.cache k j) ∙ e);
        in_rows = h.in_rows;
        in_tasks = h.in_tasks;
      } in
      elim (Result-cases (Client.get redis u.cache k).0) [
        | inl (s, e) ↦
            rw (e, lookup_cache)
              (record { in_redis = after.in_redis; in_rows = h.in_rows; in_tasks = h.in_tasks })
        | inr (x, e) ↦ rw (e, lookup_cache) after
      ]

  -- A change of the store, the limiter or the counters.
  pub same-Knows :
      (u u' : W redis backend rate)
      → u'.cache ≡ u.cache
      → u'.db ≡ u.db
      → u'.tasks ≡ u.tasks
      → Knows u
      → Knows u'
  same-Knows u u' c d t h = record {
    in_redis = λ k s e. h.in_redis k s (subst (λ x. Client.cached redis x k ≡ some s) c e);
    in_rows = subst (IsKnowing P) (sym d) h.in_rows;
    in_tasks = subst TasksKnow (sym t) h.in_tasks;
  }

  lookup_row-same :
      (r : Schema.Package) (u : W redis backend rate)
      → ((lookup_row redis backend rate r u).1.cache ≡ u.cache)
        × ((lookup_row redis backend rate r u).1.db ≡ u.db)
        × ((lookup_row redis backend rate r u).1.tasks ≡ u.tasks)
  unfolding lookup_row open_artifact
  lookup_row-same r u = ground arith

  pub lookup_db-Knows :
      (k : PackageKey) (u : W redis backend rate)
      → Knows u
      → Knows (lookup_db redis backend rate k u).1
  unfolding lookup_db
  lookup_db-Knows k u h =
      let u₁ : W redis backend rate = record u { db = (get_package k u.db).1 } in
      let after : Knows u₁ = record {
        in_redis = h.in_redis;
        in_rows = get_package-IsKnowing P k u.db h.in_rows;
        in_tasks = h.in_tasks;
      } in
      elim (Result-cases (get_package k u.db).0) [
        | inl (r, e) ↦
            let (c, d, t) = lookup_row-same r u₁ in
            rw (e, lookup_db) (same-Knows u₁ (lookup_row redis backend rate r u₁).1 c d t after)
        | inr (x, e) ↦ rw (e, lookup_db) after
      ]

  module _
      (respects : (k j : PackageKey) (s : Bytes)
        → Client.key k ≡ Client.key j
        → P k s
        → P j s) where
    set_cache-Knows :
        (k : PackageKey) (s : Bytes) (u : W redis backend rate)
        → P k s
        → Knows u
        → Knows (set_cache redis backend rate k s u)
    unfolding set_cache
    set_cache-Knows k s u p h = record {
      in_redis = λ j x e. elim (cached-set_either redis u.cache k j s x e) [
        | inl (q, v) ↦ subst (P j) (sym v) (respects k j s q p)
        | inr old ↦ h.in_redis j x old
      ];
      in_rows = h.in_rows;
      in_tasks = h.in_tasks;
    }

    -- A statement that keeps what is known of the rows.
    db-Knows :
        (u : W redis backend rate) (d : Schema.Database)
        → IsKnowing P d
        → Knows u
        → Knows (record u { db = d })
    db-Knows u d k h = record { in_redis = h.in_redis; in_rows = k; in_tasks = h.in_tasks }

    log_alerts-Knows :
        (k : PackageKey) (o : Outcome) (rs : List CveRecord) (u : W redis backend rate)
        → Knows u
        → Knows (log_alerts redis backend rate k o rs u)
    unfolding log_alerts
    log_alerts-Knows k o [] u h = h
    log_alerts-Knows k o (r ∷ rs) u h = log_alerts-Knows k o rs _ (
        db-Knows u _
          (record_cve_alert-IsKnowing P k r.id (severity_string r.severity) (outcome_string o) u.db
            h.in_rows)
          h)

    log_event-Knows :
        (k : PackageKey) (e : Schema.Event) (n : ℕ) (u : W redis backend rate)
        → Knows u
        → Knows (log_event redis backend rate k e n u)
    unfolding log_event
    log_event-Knows k e n u h = db-Knows u _ (record_event-IsKnowing P k e n u.db h.in_rows) h

    -- A goroutine that knows its checksum adds no other.
    pub run_task-Knows :
        (t : Task) (u : W redis backend rate)
        → TaskKnows t
        → Knows u
        → Knows (run_task redis backend rate t u)
    unfolding run_task
    run_task-Knows (touch_and_record k n) u p h =
        log_event-Knows k Schema.hit n _
          (db-Knows u _ (touch_package-IsKnowing P k u.db h.in_rows) h)
    run_task-Knows (restore_and_record k s n) u p h =
        log_event-Knows k Schema.hit n _ (set_cache-Knows k s u p h)
    run_task-Knows (record_alerts k o rs) u p h = log_alerts-Knows k o rs u h
    run_task-Knows (block_package k) u p h =
        db-Knows u _ (upsert_blocked_package-IsKnowing P k u.db h.in_rows) h
    run_task-Knows (index_and_record pkg) u p h =
        let u₁ = set_cache redis backend rate pkg.key pkg.checksum u in
        let h₁ = set_cache-Knows pkg.key pkg.checksum u p h in
        log_event-Knows pkg.key Schema.miss pkg.size_bytes _
          (db-Knows u₁ _ (upsert_package-IsKnowing P pkg u₁.db p h₁.in_rows) h₁)
