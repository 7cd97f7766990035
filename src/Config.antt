-- ===== src/Config.antt =====
-- internal/config/config.go: the configuration. An `int` is a 64-bit pattern; the rates, which are
-- floating-point numbers, are of a type that the limiter's library gives.
pub mod Viper
pub mod Load
use cache_proxyfy.Prelude.{ℕ, Bytes, Bool, List}
use cache_proxyfy.Storage.S3.{S3Config}

pub record UserConfig : Type 0 where
  pub username : Bytes
  pub password_hash : Bytes

pub record AuthConfig : Type 0 where
  pub enabled : Bool
  pub users : List UserConfig

pub record ProxyConfig : Type 0 where
  pub port : ℕ
  pub ecosystems : List Bytes

pub record CacheConfig : Type 0 where
  pub backend : Bytes
  pub local_dir : Bytes
  pub ttl_hours : ℕ
  pub eviction_interval_hours : ℕ

pub record RedisConfig : Type 0 where
  pub addr : Bytes
  pub password : Bytes
  pub db : ℕ

pub record DatabaseConfig : Type 0 where
  pub host : Bytes
  pub port : ℕ
  pub user : Bytes
  pub password : Bytes
  pub dbname : Bytes
  pub sslmode : Bytes

pub record SecurityConfig : Type 0 where
  pub cve_scanning : Bool
  pub block_severity : Bytes
  pub warn_severity : Bytes

pub record LogConfig : Type 0 where
  pub level : Bytes
  pub format : Bytes

module _ (Rate : Type 0) where
  pub record EcosystemRateLimitConfig : Type 0 where
    pub requests_per_second : Rate
    pub burst : ℕ

module _ (Rate : Type 0) where
  -- The overrides by ecosystem, in the order in which the map is gone through.
  pub record RateLimitConfig : Type 0 where
    pub enabled : Bool
    pub requests_per_second : Rate
    pub burst : ℕ
    pub overrides : List (Bytes × EcosystemRateLimitConfig Rate)

module _ (Rate : Type 0) where
  -- The settings of S3 have the fields that the backend takes.
  pub record Config : Type 0 where
    pub proxy : ProxyConfig
    pub cache : CacheConfig
    pub s3 : S3Config
    pub redis : RedisConfig
    pub database : DatabaseConfig
    pub security : SecurityConfig
    pub auth : AuthConfig
    pub log : LogConfig
    pub rate_limit : RateLimitConfig Rate
