-- ===== src/Tests/Concurrent.antt =====
-- Two requests that are in `serve` at once.
use cache_proxyfy.Prelude.{
  ℕ, [], ◌≡◌, ◌⊎◌, ◌==◌, split, free_of, has_suffix, refl, codes, true, false, ok,
}
use cache_proxyfy.Cache.Redis.{memory_redis, memory_get, memory_write}
use cache_proxyfy.Cache.Client
use cache_proxyfy.Security.Checker.{check}
use cache_proxyfy.Storage.Paths.{is_valid_name, path, enter, enter_all, parent, tmp_path}
use cache_proxyfy.Storage.Disk.{stat, rename, remove, same_path}
use cache_proxyfy.Storage.Local
use cache_proxyfy.RateLimit
use cache_proxyfy.Ecosystem.Package.{cache_key}
use cache_proxyfy.Db.Packages.{get_package, find_row, upsert_package}
use cache_proxyfy.Proxy.Retry.{fetch_from_upstream, fetch_loop, do_fetch}
use cache_proxyfy.Singleflight
use cache_proxyfy.Proxy.Router.{npm, rewrite_response}
use cache_proxyfy.Proxy.Tasks.{run_task, set_cache, log_event, log_alerts}
use cache_proxyfy.Proxy.Serve.{
  serve_after_cache, keep_artifact, open_artifact, hit, miss, Artifact, lookup_cache, lookup_db,
  fetch_as_leader, deliver, note_scan,
}
use cache_proxyfy.Proxy.Concurrent.{
  Visit, System, Reach, starts, goes_on, looks_in_cache, looks_in_db, scans, joins, opens,
  runs_task, calls_back, closes, leaves, concludes, answered, look_in_cache, look_in_db, scan,
  run_callback, conclude, leave_cache, leave_db, leave_scan, leave_group, count_fetch,
}
use cache_proxyfy.Proxy.Concurrent.Hits.{IsServed, Reach-hit}
use cache_proxyfy.Proxy.Concurrent.Answers.{IsFromFlight, Reach-answer}
use cache_proxyfy.Proxy.Concurrent.Places.{NeedsNoFetch}
use cache_proxyfy.Proxy.Concurrent.Progress.{CanAnswer, Reach-CanAnswer}
use cache_proxyfy.Proxy.Concurrent.Origins.{HaveOrigins, Reach-HaveOrigins}
use cache_proxyfy.Tests.Data.{lodash, local, content, tokens, proxy, alone, cold}

-- All ask for the same file.
abbrev visits : ℕ → Visit
visits i = record { ecosystem = codes "npm"; handler = npm; pkg = lodash; circumstances = alone }

abbrev Sys : Type 0
Sys = System memory_redis local tokens

abbrev Run : Sys → Type 0
Run s = Reach memory_redis local tokens proxy visits cold s

abbrev body : Artifact
body = record { ecosystem = codes "npm"; status = miss; body = content }

-- Request 1 joins while request 0 is in its callback.
joined_run : (s : Sys) × Run s × (s.stages 1 ≡ answered (ok body))
unfolding look_in_cache look_in_db scan run_callback conclude leave_cache leave_db leave_scan
    leave_group deliver fetch_as_leader lookup_cache lookup_db Client.get memory_get get_package
    find_row check fetch_from_upstream fetch_loop do_fetch RateLimit.wait RateLimit.bucket
    RateLimit.fresh_bucket RateLimit.find note_scan rewrite_response count_fetch Singleflight.key
    ◌==◌
joined_run = (
  _,
  goes_on
      (goes_on
        (goes_on
          (goes_on
            (goes_on
              (goes_on
                (goes_on
                  (goes_on
                    (goes_on
                      (goes_on
                        (goes_on (goes_on starts (looks_in_cache _ 0 refl))
                          (looks_in_cache _ 1 refl))
                        (looks_in_db _ 1 refl))
                      (looks_in_db _ 0 refl))
                    (scans _ 0 refl))
                  (opens _ 0 refl refl refl))
                (scans _ 1 refl))
              (joins _ 1 0 refl refl refl))
            (calls_back _ 0 _ 0 refl))
          (closes _ 0 _ 0 (ok content) refl))
        (leaves _ 1 _ 0 (ok content) refl refl))
      (concludes _ 1 0 (ok content) false refl refl),
  refl,
)

Reach-answer_example :
    NeedsNoFetch (ok body) ⊎ IsFromFlight memory_redis local tokens proxy visits cold 1 (ok body)
Reach-answer_example =
    Reach-answer memory_redis local tokens proxy visits cold joined_run.1 1 (ok body) joined_run.2

-- The storage key of every visit is a valid name.
visits-valid : (i : ℕ) → local.valid (cache_key (visits i).pkg) ≡ true
unfolding is_valid_name path enter enter_all parent cache_key tmp_path free_of has_suffix ◌==◌ split
visits-valid i = refl

Reach-HaveOrigins_example :
    HaveOrigins memory_redis local tokens proxy visits cold joined_run.0.world.store
Reach-HaveOrigins_example =
    Reach-HaveOrigins memory_redis local tokens proxy visits cold visits-valid joined_run.1

Reach-CanAnswer_example : CanAnswer memory_redis local tokens proxy visits cold 0 joined_run.0
Reach-CanAnswer_example = Reach-CanAnswer memory_redis local tokens proxy visits cold 0 joined_run.1

abbrev kept : Artifact
kept = record { ecosystem = codes "npm"; status = hit; body = content }

-- Request 1 comes when request 0 has its answer and the goroutines are done.
hit_run : (s : Sys) × Run s × (s.stages 1 ≡ answered (ok kept))
unfolding look_in_cache look_in_db scan run_callback conclude leave_cache leave_db leave_scan
    leave_group deliver fetch_as_leader lookup_cache lookup_db Client.get memory_get get_package
    find_row check fetch_from_upstream fetch_loop do_fetch RateLimit.wait RateLimit.bucket
    RateLimit.fresh_bucket RateLimit.find note_scan rewrite_response count_fetch Singleflight.key
    keep_artifact run_task set_cache log_event log_alerts upsert_package Client.set Client.key
    memory_write Local.get Local.put Local.write Local.fill Local.finalise stat rename remove
    is_valid_name path enter enter_all parent cache_key split free_of has_suffix ◌==◌ same_path
    tmp_path serve_after_cache open_artifact
hit_run = (
  _,
  goes_on
      (goes_on
        (goes_on
          (goes_on
            (goes_on
              (goes_on
                (goes_on
                  (goes_on
                    (goes_on (goes_on starts (looks_in_cache _ 0 refl)) (looks_in_db _ 0 refl))
                    (scans _ 0 refl))
                  (opens _ 0 refl refl refl))
                (calls_back _ 0 _ 0 refl))
              (closes _ 0 _ 0 (ok content) refl))
            (concludes _ 0 0 (ok content) true refl refl))
          (runs_task _ [] _ _ refl))
        (runs_task _ [] [] _ refl))
      (looks_in_cache _ 1 refl),
  refl,
)

Reach-hit_example : IsServed memory_redis local tokens proxy visits cold 1 kept
Reach-hit_example =
    Reach-hit memory_redis local tokens proxy visits cold
      (record { redis_is_empty = λ k. refl; no_rows = refl; no_tasks = refl }) visits-valid
      hit_run.1 1 kept hit_run.2 refl
