-- ===== src/Proxy/Concurrent.antt =====
-- internal/proxy/proxy.go: several requests in `serve` at once, with the goroutines that they start,
-- over one world and one singleflight group. A step is what a request does between two points where
-- another one can run: a lookup, the scan, the entry into `Do`, the callback, the end of the call, the
-- wait for it, or what follows `Do`. A Put is one step. That is so for S3; the Put of
-- internal/storage/local.go creates, fills and renames a file `.tmp` that all Puts under one name
-- share, and a run in which two of them overlap is not one of these.
pub mod Shared
pub mod Flights
pub mod Places
pub mod Answers
pub mod Stores
pub mod Origins
pub mod Indexes
pub mod Checksums
pub mod Hits
pub mod Progress
use cache_proxyfy.Prelude.{
  ℕ, ◌≡◌, Bytes, codes, Bool, true, false, Option, none, some, List, ◌∷◌, ◌++◌, eqb, if◌then◌else◌,
  Result, ok, err,
}
use cache_proxyfy.Cache.Redis.{Redis}
use cache_proxyfy.Storage.Backend.{StorageBackend}
use cache_proxyfy.RateLimit.{RateLibrary}
use cache_proxyfy.Security.Advisory.{Outcome, allow, warn, block}
use cache_proxyfy.Security.Checker.{Verdict, check}
use cache_proxyfy.Ecosystem.Package.{Package}
use cache_proxyfy.Singleflight
use cache_proxyfy.Singleflight.{
  Group, entering, waiting, running, closing, returned, new_group, join_call, open_call,
  finish_call, close_call, leave_call,
}
use cache_proxyfy.Proxy.Router.{Handler}
use cache_proxyfy.Proxy.World.{Proxy, Task, upstream_fetches_total}
use cache_proxyfy.Proxy.Tasks.{run_task}
use cache_proxyfy.Proxy.Serve.{
  ServeError, Artifact, Circumstances, DbLookup, previously_blocked, located, absent, W, Served,
  count, lookup_cache, lookup_db, fetch_as_leader, deliver, note_scan, serve_scanned,
  serve_uncached, serve_after_cache,
}

-- A request in `serve`. What it joins is up to the group.
pub record Visit : Type 0 where
  pub ecosystem : Bytes
  pub handler : Handler
  pub pkg : Package
  pub circumstances : Circumstances

abbrev pub flight_key : Visit → Bytes
flight_key v = Singleflight.key v.pkg.key

-- How far a request is. From `scanned` on it is in `Do`, until it is answered.
pub data Stage : Type 0 where
  arrived missed_cache missed_db scanned : Stage
  answered : Result ServeError Artifact → Stage

abbrev pub set_stage : ℕ → Stage → (ℕ → Stage) → ℕ → Stage
set_stage i s stages j = if eqb i j then s else stages j

module _ (redis : Redis) (backend : StorageBackend) (rate : RateLibrary) where
  pub record System : Type 0 where
    pub world : W redis backend rate
    pub group : Group (Result ServeError Bytes)
    pub stages : ℕ → Stage

module _ (redis : Redis) (backend : StorageBackend) (rate : RateLibrary) (p : Proxy) where
  abbrev Moved : Type 0
  Moved = Stage × W redis backend rate

  abbrev answer : Served redis backend rate → Moved
  answer (a, w) = (answered a, w)

  abbrev pub verdict : Visit → Verdict
  verdict v = check p.checker v.pkg.ecosystem v.pkg.name v.pkg.version

  module _ (v : Visit) where
    unfoldable pub leave_cache : Option Bytes × W redis backend rate → Moved
    leave_cache (none, w) = (missed_cache, w)
    leave_cache (some b, w) = answer (
        serve_after_cache redis backend rate p v.circumstances v.ecosystem v.handler v.pkg
          (some b, w))

    unfoldable pub leave_db : DbLookup × W redis backend rate → Moved
    leave_db (absent, w) = (missed_db, w)
    leave_db (previously_blocked, w) = answer (
        serve_uncached redis backend rate p v.circumstances v.ecosystem v.handler v.pkg
          (previously_blocked, w))
    leave_db (located checksum b, w) = answer (
        serve_uncached redis backend rate p v.circumstances v.ecosystem v.handler v.pkg
          (located checksum b, w))

    unfoldable pub leave_scan : Outcome → W redis backend rate → Moved
    leave_scan allow w = (scanned, w)
    leave_scan warn w = (scanned, w)
    leave_scan block w =
        answer
          (serve_scanned redis backend rate p v.circumstances v.ecosystem v.handler v.pkg block w)

    -- Only the leader counts its fetch.
    unfoldable pub count_fetch :
        Result ServeError Bytes → Bool → W redis backend rate → W redis backend rate
    count_fetch a false w = w
    count_fetch (ok b) true w =
        count redis backend rate (upstream_fetches_total v.pkg.ecosystem (codes "ok")) w
    count_fetch (err e) true w =
        count redis backend rate (upstream_fetches_total v.pkg.ecosystem (codes "error")) w

    unfoldable pub leave_group : Result ServeError Bytes → Bool → W redis backend rate → Moved
    leave_group a led w = answer (
        deliver redis backend rate v.circumstances v.ecosystem v.handler v.pkg
          (a, led, count_fetch a led w))

module _ (redis : Redis) (backend : StorageBackend) (rate : RateLibrary) (p : Proxy)
    (visits : ℕ → Visit) where
  abbrev Sys : Type 0
  Sys = System redis backend rate

  abbrev move : ℕ → Stage × W redis backend rate → Sys → Sys
  move i m s = record s { world = m.1; stages = set_stage i m.0 s.stages }

  unfoldable pub look_in_cache : ℕ → Sys → Sys
  look_in_cache i s =
      move i
        (leave_cache redis backend rate p (visits i)
          (lookup_cache redis backend rate (visits i).pkg.key s.world))
        s

  unfoldable pub look_in_db : ℕ → Sys → Sys
  look_in_db i s =
      move i
        (leave_db redis backend rate p (visits i)
          (lookup_db redis backend rate (visits i).pkg.key s.world))
        s

  unfoldable pub scan : ℕ → Sys → Sys
  scan i s =
      let v = verdict redis backend rate p (visits i) in
      move i
        (leave_scan redis backend rate p (visits i) v.outcome
          (note_scan redis backend rate (visits i).pkg.key v s.world))
        s

  -- The callback of `Do`, under the context of the request that runs it.
  unfoldable pub run_callback : ℕ → Bytes → ℕ → Sys → Sys
  run_callback i k c s =
      let f =
        fetch_as_leader redis backend rate p (visits i).circumstances (visits i).pkg s.world in
      record s { world = f.1; group = finish_call i k c f.0 s.group }

  -- What follows `Do`, with the whole Put of a leader.
  unfoldable pub conclude : ℕ → Result ServeError Bytes → Bool → Sys → Sys
  conclude i a led s = move i (leave_group redis backend rate p (visits i) a led s.world) s

  pub data Step : Sys → Sys → Type 0 where
    looks_in_cache : (s : Sys) (i : ℕ) → s.stages i ≡ arrived → Step s (look_in_cache i s)
    looks_in_db : (s : Sys) (i : ℕ) → s.stages i ≡ missed_cache → Step s (look_in_db i s)
    scans : (s : Sys) (i : ℕ) → s.stages i ≡ missed_db → Step s (scan i s)
    joins :
        (s : Sys) (i c : ℕ)
        → s.stages i ≡ scanned
        → s.group.phases i ≡ entering
        → s.group.calls (flight_key (visits i)) ≡ some c
        → Step s (record s { group = join_call i (flight_key (visits i)) c s.group })
    opens :
        (s : Sys) (i : ℕ)
        → s.stages i ≡ scanned
        → s.group.phases i ≡ entering
        → s.group.calls (flight_key (visits i)) ≡ none
        → Step s (record s { group = open_call i (flight_key (visits i)) s.group })
    calls_back :
        (s : Sys) (i : ℕ) (k : Bytes) (c : ℕ)
        → s.group.phases i ≡ running k c
        → Step s (run_callback i k c s)
    closes :
        (s : Sys) (i : ℕ) (k : Bytes) (c : ℕ) (a : Result ServeError Bytes)
        → s.group.phases i ≡ closing k c a
        → Step s (record s { group = close_call i k c a s.group })
    leaves :
        (s : Sys) (i : ℕ) (k : Bytes) (c : ℕ) (a : Result ServeError Bytes)
        → s.group.phases i ≡ waiting k c
        → s.group.results c ≡ some a
        → Step s (record s { group = leave_call i c a s.group })
    concludes :
        (s : Sys) (i c : ℕ) (a : Result ServeError Bytes) (led : Bool)
        → s.stages i ≡ scanned
        → s.group.phases i ≡ returned c a led
        → Step s (conclude i a led s)
    runs_task :
        (s : Sys) (before after : List Task) (t : Task)
        → s.world.tasks ≡ before ++ t ∷ after
        → Step s (record s {
          world = run_task redis backend rate t (record s.world { tasks = before ++ after });
        })

  abbrev pub at_start : W redis backend rate → Sys
  at_start w = record { world = w; group = new_group; stages = λ i. arrived }

  -- What a world and requests that arrive come to.
  pub data Reach (w : W redis backend rate) : Sys → Type 0 where
    starts : Reach w (at_start w)
    goes_on : {s t : Sys} → Reach w s → Step s t → Reach w t
