-- ===== src/Program.antt =====
-- main.go: how the parts are put together at the start, and the handlers of both ports. The
-- servers with their signals are in Shutdown; their time limits are left out.
pub mod Starting
pub mod Access
pub mod Internal
pub mod Health
pub mod Shutdown
use cache_proxyfy.Prelude.{
  ℕ, Bytes, codes, Bool, true, false, Option, none, some, List, [], ◌∷◌, if◌then◌else◌, ◌==◌,
  Result, ok, err,
}
use cache_proxyfy.Prelude.Integers.{mul64}
use cache_proxyfy.Config.Load.{LoadError}
use cache_proxyfy.Config.{Config, RedisConfig, DatabaseConfig, UserConfig, EcosystemRateLimitConfig}
use cache_proxyfy.Db.Connection.{dsn}
use cache_proxyfy.Db.Schema.{Database, DbError, exec}
use cache_proxyfy.Cache.Redis.{Redis}
use cache_proxyfy.Cache.Client
use cache_proxyfy.Cache.Client.{CacheError}
use cache_proxyfy.Storage.Backend.{StorageBackend}
use cache_proxyfy.Storage.Disk.{Disk}
use cache_proxyfy.Storage.Paths.{Local}
use cache_proxyfy.Storage.Local.{new_local}
use cache_proxyfy.Storage.Local.Contents.{local_backend}
use cache_proxyfy.Storage.ObjectStore.{ObjectStore}
use cache_proxyfy.Storage.S3.{S3, S3Error, new_s3}
use cache_proxyfy.Storage.S3.Contents.{s3_backend}
use cache_proxyfy.RateLimit.{RateLibrary, EcosystemLimit}
use cache_proxyfy.RateLimit
use cache_proxyfy.Security.Scanner.{OsvRequest, OsvReply}
use cache_proxyfy.Security.Checker.{new_checker}
use cache_proxyfy.Auth.{Bcrypt, Middleware}
use cache_proxyfy.Auth
use cache_proxyfy.Eviction.{hour}
use cache_proxyfy.Proxy.Retry.{default_retry_config}
use cache_proxyfy.Proxy.Router.{new_router}
use cache_proxyfy.Proxy.World.{Proxy, World}

-- time.Duration(hours) * time.Hour
unfoldable pub hours : ℕ → ℕ
hours n = mul64 n hour

-- Whose error ends the start; `auth.New` panics.
pub data StartError : Type 0 where
  config_failed : LoadError → StartError
  local_failed : StartError
  s3_failed : S3Error → StartError
  unknown_backend : Bytes → StartError
  cache_failed : CacheError → StartError
  db_unreachable : StartError
  migration_failed : DbError → StartError
  auth_panicked : StartError

module _ (store : ObjectStore) where
  -- The backend that the configuration chooses, with its state.
  pub data Chosen : Type 0 where
    chosen_local : Local → Disk → Chosen
    chosen_s3 : S3 → store.Client → Chosen

module _ (store : ObjectStore) where
  abbrev pub backend_of : Chosen store → StorageBackend
  backend_of (chosen_local l d) = local_backend l
  backend_of (chosen_s3 s c) = s3_backend store s

  abbrev pub state_of : (b : Chosen store) → (backend_of b).State
  state_of (chosen_local l d) = d
  state_of (chosen_s3 s c) = c

module _ (redis : Redis) (store : ObjectStore) (rate : RateLibrary) where
  open rate use {Rate}

  -- What the program meets: the file and the environment, the disk, S3, Redis, the database, OSV
  -- and bcrypt.
  pub record Outside : Type 0 where
    pub load : Result LoadError (Config Rate)
    pub disk : Disk
    pub connect : Bytes → Option (Bytes × Bytes) → Option Bytes → store.Client → Option store.Client
    pub service : store.Client
    pub redis_conn : RedisConfig → redis.Conn
    pub open_db : Bytes → Option Database
    pub osv : OsvRequest → OsvReply
    pub bcrypt : Bcrypt

module _ (redis : Redis) (store : ObjectStore) (rate : RateLibrary) where
  open rate use {Rate}

  -- What runs after the start: the proxy with its state, the middleware, and the eviction worker's
  -- times.
  pub record System : Type 0 where
    pub chosen : Chosen store
    pub world : World redis (backend_of store chosen) rate
    pub proxy : Proxy
    pub auth : Middleware
    pub port : ℕ
    pub ttl : ℕ
    pub interval : ℕ

abbrev auth_users : List UserConfig → List Auth.User
auth_users [] = []
auth_users (u ∷ us) =
    record { username = u.username; password_hash = u.password_hash } ∷ auth_users us

-- db.Migrate: the tables that are there stay as they are.
unfoldable pub migrate : Database → Result DbError Unit × Database
migrate = exec (λ d. (ok tt, d))

module _ (redis : Redis) (store : ObjectStore) (rate : RateLibrary)
    (out : Outside redis store rate) where
  open rate use {Rate}

  abbrev pub limits :
      List (Bytes × EcosystemRateLimitConfig Rate) → List (Bytes × EcosystemLimit rate)
  limits [] = []
  limits ((eco, ov) ∷ rest) =
      (eco, record { rps = ov.requests_per_second; burst = ov.burst }) ∷ limits rest

  abbrev pub chosen_or : Result S3Error S3 × store.Client → Result StartError (Chosen store)
  chosen_or (ok s, c) = ok (chosen_s3 s c)
  chosen_or (err e, c) = err (s3_failed e)

  abbrev pub local_or : Option Local × Disk → Result StartError (Chosen store)
  local_or (some l, d) = ok (chosen_local l d)
  local_or (none, d) = err local_failed

  unfoldable pub build_storage : Config Rate → Result StartError (Chosen store)
  build_storage cfg =
      if cfg.cache.backend == codes "local"
      then local_or (new_local out.disk cfg.cache.local_dir)
      else if cfg.cache.backend == codes "s3"
      then chosen_or (new_s3 store out.connect cfg.s3 out.service)
      else err (unknown_backend cfg.cache.backend)

  -- The parts, once Redis and the database are there.
  unfoldable pub assemble :
      Config Rate
      → Chosen store
      → Client.Client redis
      → Database
      → Middleware
      → System redis store rate
  assemble cfg b cache db auth = record {
    chosen = b;
    world = record {
      cache = cache;
      store = state_of store b;
      db = db;
      limiter =
          RateLimit.new rate cfg.rate_limit.enabled cfg.rate_limit.requests_per_second
            cfg.rate_limit.burst (limits cfg.rate_limit.overrides);
      metrics = [];
      inflight = 0;
      tasks = [];
    };
    proxy = record {
      router = new_router cfg.proxy.ecosystems;
      checker =
          new_checker out.osv cfg.security.cve_scanning cfg.security.block_severity
            cfg.security.warn_severity;
      retry = default_retry_config;
    };
    auth = auth;
    port = cfg.proxy.port;
    ttl = hours cfg.cache.ttl_hours;
    interval = hours cfg.cache.eviction_interval_hours;
  }

  unfoldable pub start_auth :
      Config Rate
      → Chosen store
      → Client.Client redis
      → Database
      → Result StartError (System redis store rate)
  start_auth cfg b cache db =
      elim (Auth.new out.bcrypt
        (record { enabled = cfg.auth.enabled; users = auth_users cfg.auth.users })) [
          | none ↦ err auth_panicked
          | some m ↦ ok (assemble cfg b cache db m)
        ]

  abbrev migrated_or :
      (Database → Result StartError (System redis store rate))
      → Result DbError Unit × Database
      → Result StartError (System redis store rate)
  migrated_or next (ok u, db) = next db
  migrated_or next (err e, db) = err (migration_failed e)

  unfoldable pub start_db :
      Config Rate → Chosen store → Client.Client redis → Result StartError (System redis store rate)
  start_db cfg b cache = elim (out.open_db (dsn cfg.database)) [
    | none ↦ err db_unreachable
    | some db ↦ migrated_or (start_auth cfg b cache) (migrate db)
  ]

  unfoldable pub start_cache :
      Config Rate → Chosen store → Result StartError (System redis store rate)
  start_cache cfg b =
      elim (Client.new redis (out.redis_conn cfg.redis) (hours cfg.cache.ttl_hours)) [
        | ok cache ↦ start_db cfg b cache
        | err e ↦ err (cache_failed e)
      ]

  unfoldable pub start_storage : Config Rate → Result StartError (System redis store rate)
  start_storage cfg = elim (build_storage cfg) [ ok b ↦ start_cache cfg b | err e ↦ err e ]

  -- `run`, up to the servers.
  unfoldable pub startup : Result StartError (System redis store rate)
  startup = elim out.load [ err e ↦ err (config_failed e) | ok cfg ↦ start_storage cfg ]
