-- ===== src/Tests/Serving.antt =====
-- Requests to the proxy.
use cache_proxyfy.Prelude.{
  ◌≡◌, refl, Bytes, codes, some, true, [], ◌∷◌, take, ok, ◌==◌, split, free_of, has_suffix,
}
use cache_proxyfy.Cache.Redis.{memory_redis, memory_get, memory_write}
use cache_proxyfy.Cache.Client
use cache_proxyfy.Security.Advisory.{critical, high}
use cache_proxyfy.Security.Scanner.{text, response}
use cache_proxyfy.Proxy.World.{Proxy}
use cache_proxyfy.Security.Checker.{check}
use cache_proxyfy.Ecosystem.Package.{cache_key}
use cache_proxyfy.Storage.Paths.{is_valid_name, path, enter, enter_all, parent, tmp_path}
use cache_proxyfy.Storage.Disk.{stat, rename, remove, same_path}
use cache_proxyfy.Storage.Local
use cache_proxyfy.RateLimit
use cache_proxyfy.Db.Packages.{get_package, find_row}
use cache_proxyfy.Proxy.Router.{npm, rewrite_response}
use cache_proxyfy.Proxy.Retry.{fetch_from_upstream, fetch_loop, do_fetch}
use cache_proxyfy.Proxy.Tasks.{run_task, run_tasks, set_cache, log_event, log_alerts}
use cache_proxyfy.Proxy.Serve.{
  CacheStatus, hit, miss, Artifact, respond, open_artifact, lookup_cache, lookup_db, fetch,
  fetch_as_leader, deliver, note_scan, serve_scanned, serve_upstream, serve_uncached,
  serve_after_cache, serve, keep_artifact,
}
use cache_proxyfy.Proxy.Serve.Outcomes.{IsHit}
use cache_proxyfy.Proxy.Serve.Hits.{serve-hit}
use cache_proxyfy.Proxy.Serve.Misses.{after_request}
use cache_proxyfy.Proxy.Serve.Storing.{serve-after_miss}
use cache_proxyfy.Tests.Data.{
  lodash, lodash_sources, lodash_key, local, content, tokens, proxy, alone, cold, warm_blocked,
}

abbrev answered : CacheStatus → Artifact
answered s = respond memory_redis local tokens alone (codes "npm") s content

serve-hit_example : IsHit memory_redis local tokens lodash_key warm_blocked 10 (answered hit)
unfolding serve serve_after_cache lookup_cache open_artifact Client.get memory_get Local.get stat
serve-hit_example =
    serve-hit memory_redis local tokens proxy alone (codes "npm") npm lodash warm_blocked
      (answered hit) refl refl

-- The policy blocks what OSV calls critical.
abbrev strict_proxy : Proxy
strict_proxy = record proxy {
  checker = record {
    osv = λ q. response 200 (
        some (
          record {
            id = codes "GHSA-1";
            summary = [];
            db_specific = (codes "severity", text (codes "CRITICAL")) ∷ [];
            severity = [];
          }
          ∷ []));
    policy = record { block_at = critical; warn_at = high };
    enabled = true;
  };
}

serve-after_miss_example :
    (b : Bytes) × (content ≡ take 10 b)
    × ((serve memory_redis local tokens proxy alone
          (codes "npm")
          npm
          lodash_sources
          (after_request memory_redis local tokens proxy alone (codes "npm") npm lodash cold)).0
        ≡ ok (respond memory_redis local tokens alone (codes "npm") hit b))
unfolding lookup_cache lookup_db Client.get Client.set Client.key memory_get memory_write
    get_package find_row check fetch_from_upstream fetch_loop do_fetch RateLimit.wait
    RateLimit.bucket RateLimit.fresh_bucket RateLimit.find note_scan rewrite_response fetch
    fetch_as_leader deliver serve serve_after_cache serve_uncached serve_upstream serve_scanned
    keep_artifact run_task run_tasks set_cache log_event log_alerts Local.get Local.put Local.write
    Local.fill Local.finalise stat rename remove is_valid_name path enter enter_all parent cache_key
    split free_of has_suffix ◌==◌ same_path tmp_path open_artifact
serve-after_miss_example =
    serve-after_miss memory_redis local tokens proxy alone (codes "npm") npm lodash cold
      (answered miss) refl refl refl refl refl refl (λ e. cc) refl alone (codes "npm") npm
      lodash_sources refl refl refl
