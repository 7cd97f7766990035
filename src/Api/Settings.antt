-- ===== src/Api/Settings.antt =====
-- internal/api/handler.go, `handleConfig`: the configuration that the API shows.
use cache_proxyfy.Prelude.{
  ℕ, ◌≡◌, refl, ap, sym, ◌∙◌, Bytes, codes, Option, none, some, [], if◌then◌else◌,
}
use cache_proxyfy.Config.{Config, ProxyConfig, SecurityConfig, LogConfig}
use cache_proxyfy.Api.{Request, Response, error, json, method_not_allowed}

pub record CacheConfigResponse : Type 0 where
  pub backend : Bytes
  pub local_dir : Bytes
  pub ttl_hours : ℕ

pub record S3ConfigResponse : Type 0 where
  pub bucket : Bytes
  pub region : Bytes
  pub endpoint : Bytes
  pub key_prefix : Bytes

pub record RedisConfigResponse : Type 0 where
  pub addr : Bytes
  pub db : ℕ

pub record DatabaseConfigResponse : Type 0 where
  pub host : Bytes
  pub port : ℕ
  pub user : Bytes
  pub dbname : Bytes
  pub sslmode : Bytes

-- The responses for the proxy, the scanner and the log have the fields of their settings.
pub record ConfigResponse : Type 0 where
  pub proxy : ProxyConfig
  pub cache : CacheConfigResponse
  pub s3 : S3ConfigResponse
  pub redis : RedisConfigResponse
  pub database : DatabaseConfigResponse
  pub security : SecurityConfig
  pub log : LogConfig

module _ (Rate : Type 0) where
  unfoldable pub shown : Config Rate → ConfigResponse
  shown c = record {
    proxy = record { port = c.proxy.port; ecosystems = c.proxy.ecosystems };
    cache = record {
      backend = c.cache.backend;
      local_dir = c.cache.local_dir;
      ttl_hours = c.cache.ttl_hours;
    };
    s3 = record {
      bucket = c.s3.bucket;
      region = c.s3.region;
      endpoint = c.s3.endpoint;
      key_prefix = c.s3.key_prefix;
    };
    redis = record { addr = c.redis.addr; db = c.redis.db };
    database = record {
      host = c.database.host;
      port = c.database.port;
      user = c.database.user;
      dbname = c.database.dbname;
      sslmode = c.database.sslmode;
    };
    security = record {
      cve_scanning = c.security.cve_scanning;
      block_severity = c.security.block_severity;
      warn_severity = c.security.warn_severity;
    };
    log = record { level = c.log.level; format = c.log.format };
  }

  -- A handler may have no configuration.
  unfoldable pub handle_config : Option (Config Rate) → Request → Response ConfigResponse
  handle_config none r =
      if r.is_get then error 500 (codes "config unavailable") else method_not_allowed
  handle_config (some c) r = if r.is_get then json (shown c) else method_not_allowed

  -- A configuration without its secrets: keys, passwords, and the users with their hashes.
  unfoldable pub redacted : Config Rate → Config Rate
  redacted c = record c {
    s3 = record c.s3 { access_key_id = []; secret_access_key = [] };
    redis = record c.redis { password = [] };
    database = record c.database { password = [] };
    auth = record c.auth { users = [] };
  }

  shown-redacted : (c : Config Rate) → shown (redacted c) ≡ shown c
  unfolding shown redacted
  shown-redacted c = refl

  -- The API gives no secret away: two configurations that differ in keys, passwords or users only
  -- are answered alike, whatever the request is.
  pub handle_config-secret_free :
      (c d : Config Rate) (r : Request)
      → redacted c ≡ redacted d
      → handle_config (some c) r ≡ handle_config (some d) r
  unfolding handle_config
  handle_config-secret_free c d r h =
      ap (answered r) (sym (shown-redacted c) ∙ ap shown h ∙ shown-redacted d)
    where
      answered : Request → ConfigResponse → Response ConfigResponse
      answered r s = if r.is_get then json s else method_not_allowed
