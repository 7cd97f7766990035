-- ===== src/Tests/Migration.antt =====
-- Runs of the migration tool, and operations on S3.
use cache_proxyfy.Prelude.{
  ℕ, ◌≡◌, ◌≤◌, ◌<◌, ◌+◌, ◌*◌, refl, Bytes, codes, true, false, none, some, List, [], ◌∷◌, arith,
  ◌==◌, trim_right, zero, suc,
}
use cache_proxyfy.Db.Schema.{Package}
use cache_proxyfy.Storage.ObjectStore.{MemoryBucket, memory_store, is_not_found}
use cache_proxyfy.Storage.Local
use cache_proxyfy.Storage.Disk.{stat}
use cache_proxyfy.Storage.S3.{S3, new_s3, get, suffix, key, exists, put, upload}
use cache_proxyfy.Storage.S3.Keys.{object_key_injective}
use cache_proxyfy.Migration.{Entry, uploaded, collect}
use cache_proxyfy.Migration.Work.{collect-exact}
use cache_proxyfy.Migration.Pool.{
  Worker, idle, taken, checked, loaded, Counters, Line, Job, Pool, is_busy, P, Step, takes, works,
  Run, here, step, start, work, hand_out, check, load, begin_entry, HasEnded,
}
use cache_proxyfy.Migration.Pool
use cache_proxyfy.Migration.Ending.{IsOver, Run-Ends}
use cache_proxyfy.Migration.Copies.{Right, Run-Right}
use cache_proxyfy.Migration.DryRun.{Run-harmless}
use cache_proxyfy.Migration.Start.{
  Surroundings, Ready, prepare, connect_s3, build_stores, list_work, summary,
}
use cache_proxyfy.Migration.Switch.{switch-found}
use cache_proxyfy.Config.{Config}
use cache_proxyfy.Storage.Backend
use cache_proxyfy.Db.Listing.{list_packages}
use cache_proxyfy.Prelude.Sorting.{order_by}
use cache_proxyfy.Prelude.{◌≢◌, err}
use cache_proxyfy.Tests.Data.{no_rows, settings, lodash_key, local, content, full_disk, cached_row}

abbrev artifacts : S3
artifacts = record { bucket = codes "artifacts"; key_prefix = codes "cache/" }

abbrev empty_bucket : MemoryBucket
empty_bucket = record { objects = λ k. none; faults = [] }

object_key_injective_example : codes "a" ≡ codes "a"
object_key_injective_example = object_key_injective artifacts (codes "a") (codes "a") refl

abbrev name : Bytes
name = codes "npm:lodash:4.17.21:lodash-4.17.21.tgz"

abbrev lodash_cached : Package
lodash_cached = record cached_row { checksum = name }

abbrev rows : List Package
rows = lodash_cached ∷ lodash_cached ∷ []

abbrev entry : Entry
entry = record { checksum = name; size_bytes = 3; label = lodash_key }

abbrev job : Job
job = record { dry_run = false; workers = 1; target = artifacts }

abbrev dry_job : Job
dry_job = record { dry_run = true; workers = 1; target = record { bucket = []; key_prefix = [] } }

abbrev TestPool : Type 0
TestPool = Pool memory_store local

-- The one entry goes through the one worker.
abbrev at_start : TestPool
at_start = start memory_store local job (collect [] rows) empty_bucket full_disk

abbrev handed_out : TestPool
handed_out = hand_out memory_store local job 0 entry [] at_start

abbrev missing_there : TestPool
missing_there = work memory_store local job 0 handed_out

abbrev read_here : TestPool
read_here = work memory_store local job 0 missing_there

abbrev copied : TestPool
copied = work memory_store local job 0 read_here

copied-Run : Run memory_store local job 4 at_start copied
unfolding collect work begin_entry check load exists key suffix ◌==◌ is_not_found Local.get stat
copied-Run =
    step
      (step
        (step (step here (takes at_start 0 entry [] refl (omega arith) refl refl))
          (works handed_out 0 refl (omega arith) refl))
        (works missing_there 0 refl (omega arith) refl))
      (works read_here 0 refl (omega arith) refl)

copied-HasEnded : HasEnded memory_store local job copied
unfolding HasEnded work begin_entry check exists is_not_found load Local.get stat Pool.upload
copied-HasEnded = (refl, refl, resting)
  where
    resting : (i : ℕ) → i < 1 → is_busy (copied.workers i) ≡ false
    resting zero h = refl
    resting (suc i) h = absurd (omega arith)

Run-Ends_example :
    (4 ≤ 4 * 1 + 1)
    × ((m : ℕ) × (q : TestPool) × Run memory_store local job m copied q
        × IsOver memory_store local job q)
unfolding collect ◌==◌
Run-Ends_example =
    Run-Ends memory_store local job (collect [] rows) empty_bucket full_disk (omega arith)
      copied-Run

Run-Right_example : Right (some content) none uploaded
unfolding work begin_entry check exists is_not_found load Local.get stat Pool.upload ◌==◌ put upload
Run-Right_example =
    Run-Right memory_store local job (collect [] rows) empty_bucket full_disk refl
      (collect-exact rows).0 copied-Run uploaded name refl

abbrev dry_start : TestPool
dry_start = start memory_store local dry_job (collect [] rows) empty_bucket full_disk

abbrev dry_taken : TestPool
dry_taken = hand_out memory_store local dry_job 0 entry [] dry_start

abbrev dry_listed : TestPool
dry_listed = work memory_store local dry_job 0 dry_taken

dry_listed-Run : Run memory_store local dry_job 2 dry_start dry_listed
unfolding collect work begin_entry ◌==◌
dry_listed-Run =
    step (step here (takes dry_start 0 entry [] refl (omega arith) refl refl))
      (works dry_taken 0 refl (omega arith) refl)

abbrev around : Surroundings memory_store local
around = record {
  open_db = λ c. some (record no_rows { packages = rows });
  new_local = λ dir. some full_disk;
  connect = λ region credentials endpoint m. some m;
  service = empty_bucket;
}

-- The settings with the bucket of the runs above.
abbrev s3_settings : Config ℕ
s3_settings = record (settings []) {
  s3 = record (settings []).s3 { bucket = codes "artifacts"; key_prefix = codes "cache/" };
}

abbrev ready : Ready memory_store local
ready = record { job = job; entries = collect [] rows; client = empty_bucket; disk = full_disk }

switch-found_example : (get memory_store artifacts copied.client name).0 ≢ err Backend.not_found
unfolding list_packages order_by prepare ◌==◌ list_work build_stores collect connect_s3 new_s3
    summary work begin_entry check exists is_not_found load Local.get Pool.upload stat put upload
    key suffix trim_right
switch-found_example =
    switch-found ℕ memory_store local around s3_settings 1 (record no_rows { packages = rows }) rows
      ready refl refl refl copied-Run copied-HasEnded refl name refl refl artifacts empty_bucket
      refl

abbrev dry_ready : Ready memory_store local
dry_ready = record {
  job = dry_job;
  entries = collect [] rows;
  client = empty_bucket;
  disk = full_disk;
}

Run-harmless_example :
    (dry_listed.client ≡ around.service)
    × (around.new_local s3_settings.cache.local_dir ≡ some dry_listed.disk)
unfolding list_packages order_by prepare ◌==◌ list_work build_stores collect connect_s3 work
    begin_entry
Run-harmless_example =
    Run-harmless ℕ memory_store local around s3_settings 1 dry_ready refl dry_listed-Run
