-- ===== src/Proxy/Concurrent/Stores.antt =====
-- What requests that are in `serve` at once leave in the artifact store.
use cache_proxyfy.Prelude.{
  ◌≡◌, ◌⊎◌, inl, inr, refl, sym, ap, subst, ◌∙◌, Bytes, Bool, true, false, Option, none, some,
  arith, Result, ok, err, is_ok, List, [], ◌∷◌, ◌==◌, ==_iff, Bool-cases, Option-cases,
}
use cache_proxyfy.Cache.Redis.{Redis}
use cache_proxyfy.Storage.Backend.{StorageBackend}
use cache_proxyfy.RateLimit.{RateLibrary}
use cache_proxyfy.Db.Schema.{PackageKey}
use cache_proxyfy.Security.Advisory.{CveRecord, Outcome, allow, warn, block}
use cache_proxyfy.Ecosystem.Package.{cache_key}
use cache_proxyfy.Proxy.Router.{rewrite_response}
use cache_proxyfy.Proxy.World.{
  Proxy, Task, touch_and_record, restore_and_record, record_alerts, block_package, index_and_record,
}
use cache_proxyfy.Proxy.Tasks.{set_cache, log_event, log_alerts, run_task}
use cache_proxyfy.Proxy.Serve.{
  ServeError, DbLookup, previously_blocked, located, absent, W, keep_artifact, deliver,
  serve_scanned, serve_uncached, serve_after_cache,
}
use cache_proxyfy.Proxy.Concurrent.{
  Visit, leave_cache, leave_db, leave_scan, leave_group, count_fetch,
}

module _ (backend : StorageBackend) where
  -- A put adds nothing but its content under its name.
  put-held :
      (s : backend.State) (k b j x : Bytes)
      → backend.valid k ≡ true
      → backend.valid j ≡ true
      → backend.holds (backend.put s k b).1 j ≡ some x
      → (backend.holds s j ≡ some x) ⊎ ((k ≡ j) × (b ≡ x))
  put-held s k b j x vk vj h = elim (Bool-cases (k == j)) [
    | inr other ↦ inl (sym (backend.put_other s k b j vk vj other) ∙ h)
    | inl same ↦
        let q : k ≡ j = (==_iff k j).0 same in
        let h' : backend.holds (backend.put s k b).1 k ≡ some x =
          subst (λ y. backend.holds (backend.put s k b).1 y ≡ some x) (sym q) h in
        elim (Bool-cases (is_ok (backend.put s k b).0)) [
          | inr failed ↦ inl (
              subst (λ y. backend.holds s y ≡ some x) q
                (sym (backend.put_failed s k b vk failed) ∙ h'))
          | inl done ↦ elim (Option-cases (backend.holds s k)) [
            | inl new ↦ inr (q, ground (arith, backend.put_new s k b vk done new))
            | inr (y, old) ↦ elim (backend.put_old s k b y vk done old) [
              | inl kept ↦ inl (subst (λ z. backend.holds s z ≡ some x) q (old ∙ (sym kept ∙ h')))
              | inr written ↦ inr (q, ground arith)
            ]
          ]
        ]
  ]

module _ (redis : Redis) (backend : StorageBackend) (rate : RateLibrary) where
  log_alerts-store :
      (k : PackageKey) (o : Outcome) (rs : List CveRecord) (w : W redis backend rate)
      → (log_alerts redis backend rate k o rs w).store ≡ w.store
  unfolding log_alerts
  log_alerts-store k o [] w = refl
  log_alerts-store k o (r ∷ rs) w = log_alerts-store k o rs _

  pub run_task-store :
      (t : Task) (w : W redis backend rate) → (run_task redis backend rate t w).store ≡ w.store
  unfolding run_task set_cache log_event
  run_task-store (touch_and_record k n) w = refl
  run_task-store (restore_and_record k s n) w = refl
  run_task-store (record_alerts k o rs) w = log_alerts-store k o rs w
  run_task-store (block_package k) w = refl
  run_task-store (index_and_record pkg) w = refl

module _ (redis : Redis) (backend : StorageBackend) (rate : RateLibrary) (p : Proxy)
    (v : Visit) where
  pub leave_cache-store :
      (found : Option Bytes × W redis backend rate)
      → (leave_cache redis backend rate p v found).1.store ≡ found.1.store
  unfolding leave_cache serve_after_cache
  leave_cache-store (none, w) = refl
  leave_cache-store (some b, w) = refl

  pub leave_db-store :
      (found : DbLookup × W redis backend rate)
      → (leave_db redis backend rate p v found).1.store ≡ found.1.store
  unfolding leave_db serve_uncached
  leave_db-store (previously_blocked, w) = refl
  leave_db-store (located s b, w) = refl
  leave_db-store (absent, w) = refl

  pub leave_scan-store :
      (o : Outcome) (w : W redis backend rate)
      → (leave_scan redis backend rate p v o w).1.store ≡ w.store
  unfolding leave_scan serve_scanned
  leave_scan-store allow w = refl
  leave_scan-store warn w = refl
  leave_scan-store block w = refl

  -- Only the leader of a fetch that succeeded puts into the store.
  pub leave_group-held :
      (a : Result ServeError Bytes) (led : Bool) (w : W redis backend rate) (j x : Bytes)
      → backend.valid (cache_key v.pkg) ≡ true
      → backend.valid j ≡ true
      → backend.holds (leave_group redis backend rate p v a led w).1.store j ≡ some x
      → (backend.holds w.store j ≡ some x) ⊎ ((led ≡ true) × (a ≡ ok x) × (cache_key v.pkg ≡ j))
  unfolding leave_group deliver count_fetch keep_artifact rewrite_response
  leave_group-held (err e) true w j x vk vj h = inl h
  leave_group-held (err e) false w j x vk vj h = inl h
  leave_group-held (ok b) false w j x vk vj h = inl h
  leave_group-held (ok b) true w j x vk vj h =
      elim (put-held backend w.store (cache_key v.pkg) b j x vk vj h) [
        | inl old ↦ inl old
        | inr (q, e) ↦ inr (refl, ap ok e, q)
      ]
