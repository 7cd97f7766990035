-- ===== src/Tests/Settings.antt =====
-- The configuration and the connection string.
use cache_proxyfy.Prelude.{
  ℕ, ◌≡◌, refl, Bytes, codes, Bool, true, Option, none, some, List, [], ◌∷◌, ok, if◌then◌else◌,
  ◌==◌, to_upper, replace_byte,
}
use cache_proxyfy.Config.{DatabaseConfig}
use cache_proxyfy.Config.Viper.{Viper, not_found, default_of, variable_of, resolve}
use cache_proxyfy.Config.Load.{
  calls, int_at, text_at, bool_at, texts_at, rate_at, users_at, overrides_at, proxy_at, cache_at,
  s3_at, redis_at, database_at, security_at, auth_at, log_at, rate_limit_at, unmarshal, load,
}
use cache_proxyfy.Config.Load.Values.{load-unlisted}
use cache_proxyfy.Config.Load.Defaults.{documented}
use cache_proxyfy.Db.Connection.{format_int, dsn}
use cache_proxyfy.Db.Connection.Reading.{
  is_plain, read_settings, settings_of, IsPlain, read_settings-dsn,
  read_settings-dsn_without_password,
}

data Plain : Type 0 where
  int float : ℕ → Plain
  text : Bytes → Plain
  bool : Bool → Plain
  texts : List Bytes → Plain

abbrev to_int : Plain → Option ℕ
to_int (int n) = some n
to_int _ = none

abbrev to_text : Plain → Option Bytes
to_text (text t) = some t
to_text _ = none

abbrev to_bool : Plain → Option Bool
to_bool (bool b) = some b
to_bool _ = none

abbrev to_texts : Plain → Option (List Bytes)
to_texts (texts ts) = some ts
to_texts _ = none

abbrev to_rate : Plain → Option ℕ
to_rate (float n) = some n
to_rate _ = none

-- A variable for the bucket.
abbrev bucket_variable : Bytes → Option Plain
bucket_variable v = if v == codes "CACHEPROXYFY_S3_BUCKET" then some (text (codes "b")) else none

-- There is no file.
abbrev without_file : Viper ℕ
without_file = record {
  Value = Plain;
  int = int;
  text = text;
  bool = bool;
  texts = texts;
  float = float;
  rate = λ n. n;
  reading = λ cs. not_found;
  file = λ cs k. none;
  env = bucket_variable;
  value = λ cs k. resolve (bucket_variable (variable_of cs k)) none (default_of cs k);
  value_lem = λ cs k. refl;
  as_int = to_int;
  as_text = to_text;
  as_bool = to_bool;
  as_texts = to_texts;
  as_rate = to_rate;
  as_users = λ v. none;
  as_overrides = λ v. none;
  as_int_lem = λ n. refl;
  as_text_lem = λ t. refl;
  as_bool_lem = λ b. refl;
  as_texts_lem = λ ts. refl;
  as_rate_lem = λ n. refl;
}

load-documented : load ℕ without_file ≡ ok (documented ℕ without_file)
unfolding load unmarshal proxy_at cache_at s3_at redis_at database_at security_at auth_at log_at
    rate_limit_at int_at text_at bool_at texts_at rate_at users_at overrides_at calls ◌==◌ to_upper
    replace_byte
load-documented = refl

load-unlisted_example :
    ((documented ℕ without_file).s3.bucket ≡ [])
    × ((documented ℕ without_file).s3.access_key_id ≡ [])
    × ((documented ℕ without_file).s3.secret_access_key ≡ [])
    × ((documented ℕ without_file).redis.password ≡ [])
load-unlisted_example =
    load-unlisted ℕ without_file (documented ℕ without_file) load-documented refl refl refl refl

abbrev server : Bytes → DatabaseConfig
server password = record {
  host = codes "db";
  port = 5432;
  user = codes "app";
  password = password;
  dbname = codes "cache";
  sslmode = codes "disable";
}

server-IsPlain : (password : Bytes) → is_plain password ≡ true → IsPlain (server password)
unfolding is_plain
server-IsPlain password h = record {
  host = refl;
  user = refl;
  password = h;
  dbname = refl;
  sslmode = refl;
}

plain_password : is_plain (codes "pw") ≡ true
unfolding is_plain
plain_password = refl

plain_nothing : is_plain [] ≡ true
unfolding is_plain
plain_nothing = refl

read_settings-dsn_example :
    read_settings (dsn (server (codes "pw"))) ≡ some (settings_of (server (codes "pw")))
read_settings-dsn_example =
    read_settings-dsn (server (codes "pw")) (server-IsPlain (codes "pw") plain_password) (λ h. cc)
      (λ h. cc) (λ h. cc) (λ h. cc)

read_settings-dsn_without_password_example :
    read_settings (dsn (server []))
    ≡ some (
        (codes "host", codes "db")
        ∷ (codes "port", format_int 5432)
        ∷ (codes "user", codes "app")
        ∷ (codes "password", codes "dbname=cache")
        ∷ (codes "sslmode", codes "disable")
        ∷ [])
read_settings-dsn_without_password_example =
    read_settings-dsn_without_password (server []) (server-IsPlain [] plain_nothing) (λ h. cc)
      (λ h. cc) refl
