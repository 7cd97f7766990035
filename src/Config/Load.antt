-- ===== src/Config/Load.antt =====
-- internal/config/config.go, `Load`: the calls of viper that set it up, and the configuration that its
-- values are put into. viper is a parameter.
pub mod Values
pub mod Defaults
use cache_proxyfy.Prelude.{
  ℕ, ◌≡◌, Bytes, codes, Bool, true, false, Option, none, some, List, [], ◌∷◌, ◌++◌, if◌then◌else◌,
  ◌==◌, to_upper, replace_byte, Result, ok, err,
}
use cache_proxyfy.Config.{
  UserConfig, AuthConfig, ProxyConfig, CacheConfig, RedisConfig, DatabaseConfig, SecurityConfig,
  LogConfig, EcosystemRateLimitConfig, RateLimitConfig, Config,
}
use cache_proxyfy.Storage.S3.{S3Config}
use cache_proxyfy.Config.Viper.{
  Call, set_config_name, set_config_type, add_config_path, set_env_prefix, set_env_key_replacer,
  automatic_env, set_default, Reading, read, not_found, broken, Viper,
}

pub data LoadError : Type 0 where
  reading_config parsing_config : LoadError

infixl 5 ◌>>=◌
abbrev pub ◌>>=◌ : {A B : Type 0} → Option A → (A → Option B) → Option B
none >>= f = none
some a >>= f = f a

module _ (Rate : Type 0) (viper : Viper Rate) where
  open viper use {int, text, bool, texts, float}

  -- The calls before ReadInConfig.
  unfoldable pub calls : List (Call viper.Value)
  calls =
      set_config_name (codes "cacheproxyfy")
      ∷ set_config_type (codes "yaml")
      ∷ add_config_path (codes ".")
      ∷ add_config_path (codes "/etc/cacheproxyfy")
      ∷ set_env_prefix (codes "CACHEPROXYFY")
      ∷ set_env_key_replacer b'.' b'_'
      ∷ automatic_env
      ∷ set_default (codes "proxy.port") (int 8080)
      ∷ set_default (codes "proxy.ecosystems") (texts [])
      ∷ set_default (codes "cache.backend") (text (codes "local"))
      ∷ set_default (codes "cache.local_dir") (text (codes "./data/artifacts"))
      ∷ set_default (codes "cache.ttl_hours") (int 720)
      ∷ set_default (codes "s3.region") (text (codes "us-east-1"))
      ∷ set_default (codes "redis.addr") (text (codes "localhost:6379"))
      ∷ set_default (codes "redis.db") (int 0)
      ∷ set_default (codes "database.host") (text (codes "localhost"))
      ∷ set_default (codes "database.port") (int 5432)
      ∷ set_default (codes "database.user") (text (codes "postgres"))
      ∷ set_default (codes "database.password") (text [])
      ∷ set_default (codes "database.dbname") (text (codes "postgres"))
      ∷ set_default (codes "database.sslmode") (text (codes "disable"))
      ∷ set_default (codes "cache.eviction_interval_hours") (int 1)
      ∷ set_default (codes "security.cve_scanning") (bool false)
      ∷ set_default (codes "security.block_severity") (text (codes "CRITICAL"))
      ∷ set_default (codes "security.warn_severity") (text (codes "HIGH"))
      ∷ set_default (codes "auth.enabled") (bool false)
      ∷ set_default (codes "log.level") (text (codes "info"))
      ∷ set_default (codes "log.format") (text (codes "json"))
      ∷ set_default (codes "rate_limit.enabled") (bool false)
      ∷ set_default (codes "rate_limit.requests_per_second") (float 10)
      ∷ set_default (codes "rate_limit.burst") (int 20)
      ∷ []

  -- A field of the struct: its zero value where viper finds nothing.
  abbrev pub field_of : {A : Type 0} → A → (viper.Value → Option A) → Option viper.Value → Option A
  field_of zero_value convert none = some zero_value
  field_of zero_value convert (some x) = convert x

  unfoldable pub int_at : Bytes → Option ℕ
  int_at k = field_of 0 viper.as_int (viper.value calls k)

  unfoldable pub text_at : Bytes → Option Bytes
  text_at k = field_of [] viper.as_text (viper.value calls k)

  unfoldable pub bool_at : Bytes → Option Bool
  bool_at k = field_of false viper.as_bool (viper.value calls k)

  unfoldable pub texts_at : Bytes → Option (List Bytes)
  texts_at k = field_of [] viper.as_texts (viper.value calls k)

  unfoldable pub rate_at : Bytes → Option Rate
  rate_at k = field_of (viper.rate 0) viper.as_rate (viper.value calls k)

  unfoldable pub users_at : Bytes → Option (List UserConfig)
  users_at k = field_of [] viper.as_users (viper.value calls k)

  unfoldable pub overrides_at : Bytes → Option (List (Bytes × EcosystemRateLimitConfig Rate))
  overrides_at k = field_of [] viper.as_overrides (viper.value calls k)

  unfoldable pub proxy_at : Option ProxyConfig
  proxy_at = do
    port ← int_at (codes "proxy.port")
    ecosystems ← texts_at (codes "proxy.ecosystems")
    some (record { port = port; ecosystems = ecosystems })

  unfoldable pub cache_at : Option CacheConfig
  cache_at = do
    backend ← text_at (codes "cache.backend")
    local_dir ← text_at (codes "cache.local_dir")
    ttl_hours ← int_at (codes "cache.ttl_hours")
    interval ← int_at (codes "cache.eviction_interval_hours")
    some (record {
      backend = backend;
      local_dir = local_dir;
      ttl_hours = ttl_hours;
      eviction_interval_hours = interval;
    })

  unfoldable pub s3_at : Option S3Config
  s3_at = do
    bucket ← text_at (codes "s3.bucket")
    region ← text_at (codes "s3.region")
    endpoint ← text_at (codes "s3.endpoint")
    key_prefix ← text_at (codes "s3.key_prefix")
    access_key_id ← text_at (codes "s3.access_key_id")
    secret ← text_at (codes "s3.secret_access_key")
    some (record {
      bucket = bucket;
      region = region;
      endpoint = endpoint;
      key_prefix = key_prefix;
      access_key_id = access_key_id;
      secret_access_key = secret;
    })

  unfoldable pub redis_at : Option RedisConfig
  redis_at = do
    addr ← text_at (codes "redis.addr")
    password ← text_at (codes "redis.password")
    db ← int_at (codes "redis.db")
    some (record { addr = addr; password = password; db = db })

  unfoldable pub database_at : Option DatabaseConfig
  database_at = do
    host ← text_at (codes "database.host")
    port ← int_at (codes "database.port")
    user ← text_at (codes "database.user")
    password ← text_at (codes "database.password")
    dbname ← text_at (codes "database.dbname")
    sslmode ← text_at (codes "database.sslmode")
    some (record {
      host = host;
      port = port;
      user = user;
      password = password;
      dbname = dbname;
      sslmode = sslmode;
    })

  unfoldable pub security_at : Option SecurityConfig
  security_at = do
    cve_scanning ← bool_at (codes "security.cve_scanning")
    block_severity ← text_at (codes "security.block_severity")
    warn_severity ← text_at (codes "security.warn_severity")
    some (record {
      cve_scanning = cve_scanning;
      block_severity = block_severity;
      warn_severity = warn_severity;
    })

  unfoldable pub auth_at : Option AuthConfig
  auth_at = do
    enabled ← bool_at (codes "auth.enabled")
    users ← users_at (codes "auth.users")
    some (record { enabled = enabled; users = users })

  unfoldable pub log_at : Option LogConfig
  log_at = do
    level ← text_at (codes "log.level")
    format ← text_at (codes "log.format")
    some (record { level = level; format = format })

  unfoldable pub rate_limit_at : Option (RateLimitConfig Rate)
  rate_limit_at = do
    enabled ← bool_at (codes "rate_limit.enabled")
    rps ← rate_at (codes "rate_limit.requests_per_second")
    burst ← int_at (codes "rate_limit.burst")
    overrides ← overrides_at (codes "rate_limit.overrides")
    some (record {
      enabled = enabled;
      requests_per_second = rps;
      burst = burst;
      overrides = overrides;
    })

  -- Unmarshal, which fails if a value does not convert.
  unfoldable pub unmarshal : Option (Config Rate)
  unmarshal = do
    proxy ← proxy_at
    cache ← cache_at
    s3 ← s3_at
    redis ← redis_at
    database ← database_at
    security ← security_at
    auth ← auth_at
    log ← log_at
    rate_limit ← rate_limit_at
    some (record {
      proxy = proxy;
      cache = cache;
      s3 = s3;
      redis = redis;
      database = database;
      security = security;
      auth = auth;
      log = log;
      rate_limit = rate_limit;
    })

  abbrev parsed : Option (Config Rate) → Result LoadError (Config Rate)
  parsed none = err parsing_config
  parsed (some c) = ok c

  -- A file that is not there is no error.
  unfoldable pub load : Result LoadError (Config Rate)
  load = elim (viper.reading calls) [
    | broken ↦ err reading_config
    | not_found ↦ parsed unmarshal
    | read ↦ parsed unmarshal
  ]
