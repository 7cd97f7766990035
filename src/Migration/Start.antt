-- ===== src/Migration/Start.antt =====
-- cmd/migrate/main.go, `run` around the worker pool: what comes before it, and the summary.
use cache_proxyfy.Prelude.{
  ℕ, Bytes, Bool, ◌==◌, ltb, List, [], ◌∷◌, if◌then◌else◌, Option, none, some, Result, ok, err,
}
use cache_proxyfy.Config.{Config}
use cache_proxyfy.Db.Connection.{dsn}
use cache_proxyfy.Db.Schema.{Database, DbError}
use cache_proxyfy.Db.Listing.{list_packages}
use cache_proxyfy.Storage.Backend.{StorageBackend}
use cache_proxyfy.Storage.ObjectStore.{ObjectStore}
use cache_proxyfy.Storage.S3.{S3, S3Error, new_s3}
use cache_proxyfy.Migration.{Entry, collect}
use cache_proxyfy.Migration.Pool.{Job, P}

-- The errors that `run` returns.
pub data MigrateError : Type 0 where
  bucket_missing : MigrateError
  db_unreachable : MigrateError
  list_failed : DbError → MigrateError
  local_failed : MigrateError
  s3_failed : S3Error → MigrateError
  uploads_failed : ℕ → MigrateError

module _ (store : ObjectStore) (source : StorageBackend) where
  -- What the tool meets: db.Open, storage.NewLocal, the SDK's connection, and S3 itself.
  pub record Surroundings : Type 0 where
    pub open_db : Bytes → Option Database
    pub new_local : Bytes → Option source.State
    pub connect : Bytes → Option (Bytes × Bytes) → Option Bytes → store.Client → Option store.Client
    pub service : store.Client

module _ (store : ObjectStore) (source : StorageBackend) where
  -- The pool with the job that it works on.
  pub record Ready : Type 0 where
    pub job : Job
    pub entries : List Entry
    pub client : store.Client
    pub disk : source.State

module _ (Rate : Type 0) (store : ObjectStore) (source : StorageBackend)
    (around : Surroundings store source) (cfg : Config Rate) (dry_run : Bool) (workers : ℕ) where
  abbrev R : Type 0
  R = Ready store source

  abbrev ready : List Entry → source.State → S3 → store.Client → R
  ready entries d target c = record {
    job = record { dry_run = dry_run; workers = workers; target = target };
    entries = entries;
    client = c;
    disk = d;
  }

  -- A dry run has no S3 store.
  abbrev no_target : S3
  no_target = record { bucket = []; key_prefix = [] }

  unfoldable pub connect_s3 : List Entry → source.State → Result MigrateError (Option R)
  connect_s3 entries d =
      if dry_run
      then ok (some (ready entries d no_target around.service))
      else (let (made, c) = new_s3 store around.connect cfg.s3 around.service in
          elim made [
            | ok target ↦ ok (some (ready entries d target c))
            | err e ↦ err (s3_failed e)
          ])

  -- No work is no error.
  unfoldable pub build_stores : List Entry → Result MigrateError (Option R)
  build_stores [] = ok none
  build_stores (e ∷ es) = elim (around.new_local cfg.cache.local_dir) [
    | none ↦ err local_failed
    | some d ↦ connect_s3 (e ∷ es) d
  ]

  unfoldable pub list_work : Database → Result MigrateError (Option R)
  list_work db = elim (list_packages [] db).0 [
    | ok rs ↦ build_stores (collect [] rs)
    | err e ↦ err (list_failed e)
  ]

  -- Up to the worker pool: an error, nothing to do, or a pool to run.
  unfoldable pub prepare : Result MigrateError (Option R)
  prepare =
      if cfg.s3.bucket == [] then err bucket_missing else elim (around.open_db (dsn cfg.database)) [
        | none ↦ err db_unreachable
        | some db ↦ list_work db
      ]

module _ (store : ObjectStore) (source : StorageBackend) (job : Job) where
  -- The result after the pool.
  unfoldable pub summary : P store source job → Result MigrateError Unit
  summary p =
      if job.dry_run
      then ok tt
      else if ltb 0 p.counters.errors
      then err (uploads_failed p.counters.errors)
      else ok tt
