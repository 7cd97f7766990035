-- ===== src/Tests/Data.antt =====
-- Packages, stores and worlds that the examples run on.
use cache_proxyfy.Prelude.{
  ℕ, zero, suc, Bytes, codes, Bool, true, false, Option, none, some, [], ◌∷◌, ok,
}
use cache_proxyfy.Db.Schema.{PackageKey, Database, cached, blocked}
use cache_proxyfy.Db.Schema
use cache_proxyfy.Cache.Redis.{memory_redis}
use cache_proxyfy.Storage.Backend.{StorageBackend}
use cache_proxyfy.Storage.Paths.{Local}
use cache_proxyfy.Storage.Disk.{Disk}
use cache_proxyfy.Storage.Local.Contents.{local_backend}
use cache_proxyfy.RateLimit.{RateLibrary}
use cache_proxyfy.Config.{Config}
use cache_proxyfy.Security.Advisory.{critical, high}
use cache_proxyfy.Security.Scanner.{unreachable}
use cache_proxyfy.Ecosystem.Package.{Package}
use cache_proxyfy.Proxy.Retry.{response, default_retry_config}
use cache_proxyfy.Proxy.World.{Proxy, World}
use cache_proxyfy.Proxy.Serve.{Circumstances}

abbrev pub lodash_key : PackageKey
lodash_key = record { ecosystem = codes "npm"; name = codes "lodash"; version = codes "4.17.21" }

abbrev pub lodash : Package
lodash = record {
  key = lodash_key;
  filename = codes "lodash-4.17.21.tgz";
  upstream_path = codes "lodash/-/lodash-4.17.21.tgz";
}

-- Another file of the same version.
abbrev pub lodash_sources : Package
lodash_sources = record lodash { filename = codes "lodash-4.17.21-sources.tgz" }

abbrev pub var_local : Local
var_local = record { rooted = true; base = codes "var" ∷ [] }

abbrev pub local : StorageBackend
local = local_backend var_local

abbrev pub content : Bytes
content = codes "tgz"

abbrev pub empty_disk : Disk
empty_disk = record { files = λ p. none; faults = [] }

-- Every path holds the content.
abbrev pub full_disk : Disk
full_disk = record { files = λ p. some content; faults = [] }

-- Buckets that count their tokens.
abbrev take_token : ℕ → Bool × ℕ
take_token zero = (false, zero)
take_token (suc n) = (true, n)

abbrev pub tokens : RateLibrary
tokens = record { Rate = ℕ; Bucket = ℕ; new_limiter = λ rps burst. burst; wait = take_token }

abbrev pub no_rows : Database
no_rows = record {
  packages = [];
  cache_events = [];
  cve_alerts = [];
  next_id = 1;
  next_alert_id = 1;
  now = 100;
  faults = [];
}

abbrev pub cached_row : Schema.Package
cached_row = record {
  id = 1;
  key = lodash_key;
  status = cached;
  checksum = codes "aabb";
  size_bytes = 3;
  cached_at = 10;
  last_hit_at = none;
}

abbrev pub blocked_row : Schema.Package
blocked_row = record cached_row { status = blocked; checksum = []; size_bytes = 0 }

abbrev pub one_row : Schema.Package → Database
one_row r = record no_rows { packages = r ∷ []; next_id = 2 }

abbrev pub proxy : Proxy
proxy = record {
  router = record { enabled = codes "npm" ∷ [] };
  checker = record {
    osv = λ q. unreachable;
    policy = record { block_at = critical; warn_at = high };
    enabled = false;
  };
  retry = default_retry_config;
}

abbrev pub alone : Circumstances
alone = record {
  client_takes = 10;
  replies = λ n. response 200 [] (ok content);
  ended = λ n. none;
  jitter = λ d. d;
  joined = none;
}

abbrev pub world : (Bytes → Option Bytes) → Disk → Database → World memory_redis local tokens
world slots disk d = record {
  cache = record { conn = record { slots = slots; faults = [] }; ttl = 0 };
  store = disk;
  db = d;
  limiter = record { enabled = true; rps = 1; burst = 2; overrides = []; buckets = [] };
  metrics = [];
  inflight = 0;
  tasks = [];
}

-- Nothing is cached.
abbrev pub cold : World memory_redis local tokens
cold = world (λ k. none) empty_disk no_rows

-- Redis and the store have everything, and the row is blocked.
abbrev pub warm_blocked : World memory_redis local tokens
warm_blocked = world (λ k. some (codes "aabb")) full_disk (one_row blocked_row)

-- Redis has nothing, and the row is blocked.
abbrev pub cold_blocked : World memory_redis local tokens
cold_blocked = world (λ k. none) empty_disk (one_row blocked_row)

-- A configuration with the defaults, but for one password.
abbrev pub settings : Bytes → Config ℕ
settings password = record {
  proxy = record { port = 8080; ecosystems = codes "npm" ∷ [] };
  cache = record {
    backend = codes "local";
    local_dir = codes "./data/artifacts";
    ttl_hours = 720;
    eviction_interval_hours = 1;
  };
  s3 = record {
    bucket = [];
    region = codes "us-east-1";
    endpoint = [];
    key_prefix = [];
    access_key_id = [];
    secret_access_key = [];
  };
  redis = record { addr = codes "localhost:6379"; password = password; db = 0 };
  database = record {
    host = codes "localhost";
    port = 5432;
    user = codes "postgres";
    password = password;
    dbname = codes "postgres";
    sslmode = codes "disable";
  };
  security = record {
    cve_scanning = false;
    block_severity = codes "CRITICAL";
    warn_severity = codes "HIGH";
  };
  auth = record { enabled = false; users = [] };
  log = record { level = codes "info"; format = codes "json" };
  rate_limit = record { enabled = false; requests_per_second = 10; burst = 20; overrides = [] };
}
