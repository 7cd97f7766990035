-- ===== src/Proxy/Tasks.antt =====
-- The goroutines that `serve` starts, with `recordEvent` and `recordCVEAlerts` of
-- internal/proxy/proxy.go. Their errors are only logged.
use cache_proxyfy.Prelude.{ℕ, Bytes, List, [], ◌∷◌}
use cache_proxyfy.Db.Schema.{PackageKey, Event, hit, miss}
use cache_proxyfy.Db.Packages.{upsert_package, upsert_blocked_package, touch_package}
use cache_proxyfy.Db.Audit.{record_event, record_cve_alert}
use cache_proxyfy.Cache.Redis.{Redis}
use cache_proxyfy.Cache.Client
use cache_proxyfy.Storage.Backend.{StorageBackend}
use cache_proxyfy.RateLimit.{RateLibrary}
use cache_proxyfy.Security.Advisory.{CveRecord, Outcome, severity_string, outcome_string}
use cache_proxyfy.Proxy.World.{
  World, Task, touch_and_record, restore_and_record, record_alerts, block_package, index_and_record,
}

module _ (redis : Redis) (backend : StorageBackend) (rate : RateLibrary) where
  abbrev W : Type 0
  W = World redis backend rate

  -- `p.cache.Set`
  unfoldable pub set_cache : PackageKey → Bytes → W → W
  set_cache k checksum w = record w { cache = (Client.set redis w.cache k checksum).1 }

  unfoldable pub log_event : PackageKey → Event → ℕ → W → W
  log_event k event bytes w = record w { db = (record_event k event bytes w.db).1 }

  -- `recordCVEAlerts`: every record is tried, whatever became of those before it.
  unfoldable pub log_alerts : PackageKey → Outcome → List CveRecord → W → W
  log_alerts k outcome [] w = w
  log_alerts k outcome (r ∷ rs) w = log_alerts k outcome rs (record w {
    db = (record_cve_alert k r.id (severity_string r.severity) (outcome_string outcome) w.db).1;
  })

  unfoldable pub run_task : Task → W → W
  run_task (touch_and_record k bytes) w =
      log_event k hit bytes (record w { db = (touch_package k w.db).1 })
  run_task (restore_and_record k checksum bytes) w = log_event k hit bytes (set_cache k checksum w)
  run_task (record_alerts k outcome records) w = log_alerts k outcome records w
  run_task (block_package k) w = record w { db = (upsert_blocked_package k w.db).1 }
  run_task (index_and_record pkg) w =
      let w₁ = set_cache pkg.key pkg.checksum w in
      log_event pkg.key miss pkg.size_bytes (record w₁ { db = (upsert_package pkg w₁.db).1 })

  -- The goroutines in the order in which they happen to run, each as a whole.
  unfoldable pub run_tasks : List Task → W → W
  run_tasks [] w = w
  run_tasks (t ∷ ts) w = run_tasks ts (run_task t w)

  -- What has been started runs, in the order of the starts.
  abbrev pub settled : W → W
  settled w = run_tasks w.tasks (record w { tasks = [] })
