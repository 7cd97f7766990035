-- ===== src/Config/Load/Defaults.antt =====
-- internal/config/config.go: the configuration without a file and without variables.
use cache_proxyfy.Prelude.{
  ℕ, ◌≡◌, ◌≢◌, refl, ◌∙◌, Bytes, codes, Bool, false, none, some, [], arith, ◌==◌, ok,
}
use cache_proxyfy.Config.{Config}
use cache_proxyfy.Config.Viper.{default_of, variable_of, Viper, broken}
use cache_proxyfy.Config.Load.{
  calls, int_at, text_at, bool_at, texts_at, rate_at, users_at, overrides_at, proxy_at, cache_at,
  s3_at, redis_at, database_at, security_at, auth_at, log_at, rate_limit_at, unmarshal, load,
}
use cache_proxyfy.Config.Load.Values.{value-unknown, text_at-unknown}

module _ (Rate : Type 0) (viper : Viper Rate) where
  -- The defaults of README.md and cacheproxyfy.example.yaml, with no ecosystem switched on.
  abbrev pub documented : Config Rate
  documented = record {
    proxy = record { port = 8080; ecosystems = [] };
    cache = record {
      backend = codes "local";
      local_dir = codes "./data/artifacts";
      ttl_hours = 720;
      eviction_interval_hours = 1;
    };
    s3 = record {
      bucket = [];
      region = codes "us-east-1";
      endpoint = [];
      key_prefix = [];
      access_key_id = [];
      secret_access_key = [];
    };
    redis = record { addr = codes "localhost:6379"; password = []; db = 0 };
    database = record {
      host = codes "localhost";
      port = 5432;
      user = codes "postgres";
      password = [];
      dbname = codes "postgres";
      sslmode = codes "disable";
    };
    security = record {
      cve_scanning = false;
      block_severity = codes "CRITICAL";
      warn_severity = codes "HIGH";
    };
    auth = record { enabled = false; users = [] };
    log = record { level = codes "info"; format = codes "json" };
    rate_limit = record {
      enabled = false;
      requests_per_second = viper.rate 10;
      burst = 20;
      overrides = [];
    };
  }

module _ (Rate : Type 0) (viper : Viper Rate)
    (bare : (k : Bytes) → viper.file (calls Rate viper) k ≡ none)
    (quiet : (v : Bytes) → viper.env v ≡ none) where
  value-default : (k : Bytes) → viper.value (calls Rate viper) k ≡ default_of (calls Rate viper) k
  value-default k =
      viper.value_lem (calls Rate viper) k
      ∙ rw (quiet (variable_of (calls Rate viper) k), bare k) refl

  int_at-default :
      (k : Bytes) (n : ℕ)
      → default_of (calls Rate viper) k ≡ some (viper.int n)
      → int_at Rate viper k ≡ some n
  unfolding int_at
  int_at-default k n h = rw (value-default k, h) (viper.as_int_lem n)

  text_at-default :
      (k t : Bytes)
      → default_of (calls Rate viper) k ≡ some (viper.text t)
      → text_at Rate viper k ≡ some t
  unfolding text_at
  text_at-default k t h = rw (value-default k, h) (viper.as_text_lem t)

  bool_at-default :
      (k : Bytes) (b : Bool)
      → default_of (calls Rate viper) k ≡ some (viper.bool b)
      → bool_at Rate viper k ≡ some b
  unfolding bool_at
  bool_at-default k b h = rw (value-default k, h) (viper.as_bool_lem b)

  proxy_at-default : proxy_at Rate viper ≡ some (documented Rate viper).proxy
  unfolding proxy_at calls ◌==◌ texts_at
  proxy_at-default =
      rw
        (
          int_at-default (codes "proxy.port") 8080 refl,
          value-default (codes "proxy.ecosystems"),
          viper.as_texts_lem [],
        )
        refl

  cache_at-default : cache_at Rate viper ≡ some (documented Rate viper).cache
  unfolding cache_at calls ◌==◌
  cache_at-default =
      rw
        (
          text_at-default (codes "cache.backend") (codes "local") refl,
          text_at-default (codes "cache.local_dir") (codes "./data/artifacts") refl,
          int_at-default (codes "cache.ttl_hours") 720 refl,
          int_at-default (codes "cache.eviction_interval_hours") 1 refl,
        )
        refl

  s3_at-default : s3_at Rate viper ≡ some (documented Rate viper).s3
  unfolding s3_at calls ◌==◌
  s3_at-default =
      rw
        (
          text_at-unknown Rate viper (codes "s3.bucket") refl (bare (codes "s3.bucket")),
          text_at-default (codes "s3.region") (codes "us-east-1") refl,
          text_at-unknown Rate viper (codes "s3.endpoint") refl (bare (codes "s3.endpoint")),
          text_at-unknown Rate viper (codes "s3.key_prefix") refl (bare (codes "s3.key_prefix")),
          text_at-unknown Rate viper (codes "s3.access_key_id") refl
              (bare (codes "s3.access_key_id")),
          text_at-unknown Rate viper (codes "s3.secret_access_key") refl
              (bare (codes "s3.secret_access_key")),
        )
        refl

  redis_at-default : redis_at Rate viper ≡ some (documented Rate viper).redis
  unfolding redis_at calls ◌==◌
  redis_at-default =
      rw
        (
          text_at-default (codes "redis.addr") (codes "localhost:6379") refl,
          text_at-unknown Rate viper (codes "redis.password") refl (bare (codes "redis.password")),
          int_at-default (codes "redis.db") 0 refl,
        )
        refl

  database_at-default : database_at Rate viper ≡ some (documented Rate viper).database
  unfolding database_at calls ◌==◌
  database_at-default =
      rw
        (
          text_at-default (codes "database.host") (codes "localhost") refl,
          int_at-default (codes "database.port") 5432 refl,
          text_at-default (codes "database.user") (codes "postgres") refl,
          text_at-default (codes "database.password") [] refl,
          text_at-default (codes "database.dbname") (codes "postgres") refl,
          text_at-default (codes "database.sslmode") (codes "disable") refl,
        )
        refl

  security_at-default : security_at Rate viper ≡ some (documented Rate viper).security
  unfolding security_at calls ◌==◌
  security_at-default =
      rw
        (
          bool_at-default (codes "security.cve_scanning") false refl,
          text_at-default (codes "security.block_severity") (codes "CRITICAL") refl,
          text_at-default (codes "security.warn_severity") (codes "HIGH") refl,
        )
        refl

  auth_at-default : auth_at Rate viper ≡ some (documented Rate viper).auth
  unfolding auth_at users_at calls ◌==◌
  auth_at-default =
      rw
        (
          bool_at-default (codes "auth.enabled") false refl,
          value-unknown Rate viper (codes "auth.users") refl (bare (codes "auth.users")),
        )
        refl

  log_at-default : log_at Rate viper ≡ some (documented Rate viper).log
  unfolding log_at calls ◌==◌
  log_at-default =
      rw
        (
          text_at-default (codes "log.level") (codes "info") refl,
          text_at-default (codes "log.format") (codes "json") refl,
        )
        refl

  rate_limit_at-default : rate_limit_at Rate viper ≡ some (documented Rate viper).rate_limit
  unfolding rate_limit_at rate_at overrides_at calls ◌==◌
  rate_limit_at-default =
      rw
        (
          bool_at-default (codes "rate_limit.enabled") false refl,
          value-default (codes "rate_limit.requests_per_second"),
          viper.as_rate_lem 10,
          int_at-default (codes "rate_limit.burst") 20 refl,
          value-unknown Rate viper (codes "rate_limit.overrides") refl
              (bare (codes "rate_limit.overrides")),
        )
        refl

  unmarshal-default : unmarshal Rate viper ≡ some (documented Rate viper)
  unfolding unmarshal
  unmarshal-default =
      rw
        (
          proxy_at-default, cache_at-default, s3_at-default, redis_at-default, database_at-default,
          security_at-default, auth_at-default, log_at-default, rate_limit_at-default,
        )
        refl

  -- Without a file and without variables, Load gives the documented defaults.
  pub load-defaults :
      viper.reading (calls Rate viper) ≢ broken → load Rate viper ≡ ok (documented Rate viper)
  unfolding load
  load-defaults h = ground (arith, unmarshal-default)
