-- ===== src/Tests/Programs.antt =====
-- Runs of the eviction worker, of a shared fetch, of the API, and of the front door.
use cache_proxyfy.Prelude.{◌+◌, ℕ, ◌≡◌, refl, codes, true, false, none, some, [], ◌∷◌, arith, ◌==◌}
use cache_proxyfy.Db.Schema.{Package, key_eq}
use cache_proxyfy.Db.Packages.{find_row}
use cache_proxyfy.Db.Lookup.{row_at}
use cache_proxyfy.Cache.Redis.{memory_redis}
use cache_proxyfy.Eviction.{H, run}
use cache_proxyfy.Db.Packages.{touch_package}
use cache_proxyfy.Proxy.World.{World, touch_and_record}
use cache_proxyfy.Proxy.Tasks.{run_task}
use cache_proxyfy.Eviction.Survival.{IsFresh}
use cache_proxyfy.Eviction.Hits.{IsHitBefore, run-fresh}
use cache_proxyfy.Api.{Request}
use cache_proxyfy.Api.Settings.{redacted, handle_config, handle_config-secret_free}
use cache_proxyfy.Auth.{Bcrypt, Middleware}
use cache_proxyfy.Proxy.Http.{bad_url}
use cache_proxyfy.Program.Access.{
  Incoming, IsLoggedIn, serve_incoming, unauthorized, serve_incoming-unauthorized,
}
use cache_proxyfy.Program.Internal.{SameWorld, serve_internal, serve_internal-read_only}
use cache_proxyfy.Tests.Data.{
  settings, lodash_key, local, full_disk, one_row, cached_row, tokens, proxy, alone, cold,
}

abbrev accessed_row : Package
accessed_row = record cached_row { last_hit_at = some 90 }

abbrev kept : H memory_redis local
kept = record {
  db = one_row accessed_row;
  cache = record { conn = record { slots = λ k. some (codes "aabb"); faults = [] }; ttl = 0 };
  store = full_disk;
}

kept-IsFresh : IsFresh memory_redis local 50 lodash_key kept
unfolding IsFresh find_row key_eq ◌==◌
kept-IsFresh = ((refl, refl, (omega arith, refl), tt), accessed_row, refl, refl)

-- The world of a request for the package.
abbrev requested : World memory_redis local tokens
requested = record cold { db = one_row accessed_row }

-- A request finds the package, its goroutine runs, and ten units of time go by.
abbrev hit_before : H memory_redis local → H memory_redis local
hit_before s =
    let d = (run_task memory_redis local tokens (touch_and_record lodash_key 3) requested).db in
    record s { db = record d { now = d.now + 10 } }

hit_before-IsHitBefore : IsHitBefore memory_redis local tokens 50 lodash_key hit_before
unfolding IsHitBefore touch_package find_row key_eq ◌==◌
hit_before-IsHitBefore s r c e = record {
  before = requested;
  bytes = 3;
  time = 10;
  row = accessed_row;
  consistent = (refl, refl, (omega arith, refl), tt);
  has_row = refl;
  was_touched = refl;
  in_time = omega arith;
  database = refl;
}

run-fresh_example :
    (q : Package) × (row_at lodash_key (run memory_redis local 50 (hit_before ∷ []) kept).1.db
      ≡ some q)
run-fresh_example =
    run-fresh memory_redis local tokens 50 (hit_before ∷ []) lodash_key kept kept-IsFresh
      (hit_before-IsHitBefore, tt)

abbrev get_request : Request
get_request = record {
  is_get = true;
  ecosystem = codes "npm";
  name = codes "lodash";
  version = [];
  page = [];
  page_size = [];
  since = [];
}

handle_config-secret_free_example :
    handle_config ℕ (some (settings (codes "hunter2"))) get_request
    ≡ handle_config ℕ (some (settings (codes "swordfish"))) get_request
unfolding redacted
handle_config-secret_free_example =
    handle_config-secret_free ℕ (settings (codes "hunter2")) (settings (codes "swordfish"))
      get_request refl

abbrev same_text : Bcrypt
same_text = record { generate = some; matches = λ hash password. hash == password }

abbrev guard : Middleware
guard = record {
  enabled = true;
  users = record { username = codes "ann"; password_hash = codes "pw" } ∷ [];
  dummy_hash = codes "dummy";
}

-- Nobody's credentials.
abbrev stranger : Incoming
stranger = record {
  request = record {
    path = codes "/npm/lodash/-/lodash-4.17.21.tgz";
    host = codes "localhost";
    tls = false;
  };
  basic_auth = none;
}

stranger-not-IsLoggedIn : IsLoggedIn memory_redis local tokens same_text guard stranger → ⊥
unfolding IsLoggedIn
stranger-not-IsLoggedIn (username, password, e, v) = absurd (cc)

serve_incoming-unauthorized_example :
    serve_incoming memory_redis local tokens same_text guard proxy alone
      (λ u. bad_url)
      stranger
      cold
    ≡ (unauthorized, cold)
unfolding ◌==◌
serve_incoming-unauthorized_example =
    serve_incoming-unauthorized memory_redis local tokens same_text guard proxy alone (λ u. bad_url)
      stranger cold refl refl stranger-not-IsLoggedIn

serve_internal-read_only_example :
    SameWorld memory_redis local tokens same_text
      (λ t. none)
      cold
      (serve_internal memory_redis local tokens same_text
        (λ t. none)
        guard
        (some (settings []))
        stranger
        get_request
        cold).1
serve_internal-read_only_example =
    serve_internal-read_only memory_redis local tokens same_text (λ t. none) guard
      (some (settings [])) stranger get_request cold
