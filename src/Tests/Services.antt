-- ===== src/Tests/Services.antt =====
-- Scans, retries, keys, registries' paths, logins and shared fetches.
use cache_proxyfy.Prelude.{
  join, ℕ, ◌≡◌, ◌≤◌, ◌⊎◌, ◌+◌, ◌*◌, refl, codes, true, false, none, some, List, [], ◌∷◌, arith,
  if◌then◌else◌, ok, ◌==◌, free_of, split, replace_byte, trim_prefix, has_prefix, has_suffix,
  after_last, trim_suffix, ltb,
}
use cache_proxyfy.Prelude.Integers.{signed_lt}
use cache_proxyfy.Security.Advisory.{CveRecord, warn, low, medium, high, critical}
use cache_proxyfy.Security.Policy.{Policy, evaluate}
use cache_proxyfy.Security.Thresholds.{sets_off, evaluate-eq_triggered}
use cache_proxyfy.RateLimit.{Limiter, wait}
use cache_proxyfy.RateLimit.Buckets.{current, wait-current}
use cache_proxyfy.Ecosystem.Package.{Package}
use cache_proxyfy.Ecosystem.Npm
use cache_proxyfy.Ecosystem.Npm.Laws.{extract_npm_version-tarball}
use cache_proxyfy.Ecosystem.Npm.Laws
use cache_proxyfy.Ecosystem.Maven
use cache_proxyfy.Ecosystem.GoMod.{below_prefix}
use cache_proxyfy.Ecosystem.Maven.Coordinates.{upstream_url-parse_maven}
use cache_proxyfy.Ecosystem.GoMod.{decode_case_encoding}
use cache_proxyfy.Ecosystem.GoMod.CaseEncoding.{encode, decode_case_encoding-encode}
use cache_proxyfy.Proxy.Retry.{
  RetryConfig, FetchError, http_status, Reply, default_retry_config, retry_delay,
  fetch_from_upstream, hint,
}
use cache_proxyfy.Proxy.Retry
use cache_proxyfy.Proxy.Attempts.{Ends, fetch_from_upstream-Ends, retry_delay_bounds}
use cache_proxyfy.Proxy.Http.{Request, bad_url, serve_http, route}
use cache_proxyfy.Proxy.Http.Accounting.{requests, requested, serve_http-accounted}
use cache_proxyfy.Cache.Redis.{memory_redis}
use cache_proxyfy.Proxy.Router.{new_router}
use cache_proxyfy.Prelude.{to_lower}
use cache_proxyfy.Proxy.Http.Series.{AreStarted}
use cache_proxyfy.Proxy.Http.Starting.{serve_http-AreStarted}
use cache_proxyfy.Singleflight.{Group, Reach, at_start, after_step, new_group, opens, open_call}
use cache_proxyfy.Singleflight.Sharing.{run-once}
use cache_proxyfy.Tests.Data.{local, content, tokens, proxy, alone, cold}

abbrev strict : Policy
strict = record { block_at = critical; warn_at = medium }

abbrev findings : List CveRecord
findings =
    record { id = codes "CVE-1"; summary = []; severity = high }
    ∷ record { id = codes "CVE-2"; summary = []; severity = low }
    ∷ []

evaluate-eq_triggered_example : evaluate strict findings ≡ warn
unfolding sets_off
evaluate-eq_triggered_example = evaluate-eq_triggered strict findings

abbrev limiter : Limiter tokens
limiter = record { enabled = true; rps = 1; burst = 2; overrides = []; buckets = [] }

wait-current_example :
    ((wait tokens limiter (codes "npm")).0 ≡ (tokens.wait (current tokens limiter (codes "npm"))).0)
    × (current tokens (wait tokens limiter (codes "npm")).1 (codes "go")
        ≡ current tokens limiter (codes "go"))
unfolding ◌==◌
wait-current_example = wait-current tokens limiter (codes "npm") (codes "go")

abbrev core : Package
core = record {
  key = record { ecosystem = codes "npm"; name = codes "@babel/core"; version = codes "7.0" };
  filename = codes "core-7.0.tgz";
  upstream_path = [];
}

npm_upstream_url-parse_example :
    Npm.upstream_url core ≡ codes "https://registry.npmjs.org/@babel/core/-/core-7.0.tgz"
unfolding Npm.parse Npm.match_tarball Npm.extract_npm_version split trim_prefix trim_suffix
    after_last has_prefix has_suffix ◌==◌ free_of
npm_upstream_url-parse_example =
    Laws.upstream_url-parse (codes "/npm/@babel/core/-/core-7.0.tgz") core refl

decode_case_encoding-encode_example :
    decode_case_encoding (encode (codes "github.com/BurntSushi")) ≡ codes "github.com/BurntSushi"
unfolding free_of
decode_case_encoding-encode_example =
    decode_case_encoding-encode (codes "github.com/BurntSushi") refl

abbrev jar_package : Package
jar_package = record {
  key = record {
    ecosystem = codes "maven";
    name = codes "org.slf4j:slf4j-api";
    version = codes "2.0";
  };
  filename = codes "slf4j-api-2.0.jar";
  upstream_path = [];
}

upstream_url-parse_maven_example :
    Maven.upstream_url jar_package
    ≡ some (codes "https://repo1.maven.org/maven2/org/slf4j/slf4j-api/2.0/slf4j-api-2.0.jar")
unfolding Maven.parse free_of Maven.is_metadata_request has_prefix has_suffix trim_prefix
    Maven.package_of Maven.match_artifact below_prefix split ◌==◌ join replace_byte
upstream_url-parse_maven_example =
    upstream_url-parse_maven (codes "org/slf4j") (codes "slf4j-api") (codes "2.0")
      (codes "slf4j-api-2.0.jar") jar_package refl refl refl refl refl refl

-- Two busy replies, then the artifact.
abbrev busy_twice : ℕ → Reply
busy_twice n = if ltb n 2 then Retry.response 503 [] (ok []) else Retry.response 200 [] (ok content)

fetch_from_upstream-Ends_example :
    (n : ℕ) × Ends
      (λ d. d)
      default_retry_config
      busy_twice
      (λ n. none)
      0
      n
      (fetch_from_upstream (λ d. d) default_retry_config busy_twice (λ n. none))
fetch_from_upstream-Ends_example =
    fetch_from_upstream-Ends (λ d. d) default_retry_config busy_twice (λ n. none) (omega arith)

retry_delay_bounds_example :
    (4 * retry_delay (λ d. d) default_retry_config 1 (http_status 503 0) ≤ 5 * 2000000000)
    × ((signed_lt 0 0 ≡ false)
        ⊎ (retry_delay (λ d. d) default_retry_config 1 (http_status 503 0) ≤ 2000000000))
retry_delay_bounds_example =
    retry_delay_bounds (λ d. d) default_retry_config 1 (http_status 503 0) (λ d. omega arith)
      (omega arith) (omega arith) (omega arith)

abbrev tarball_request : Request
tarball_request = record {
  path = codes "/npm/lodash/-/lodash-4.17.21.tgz";
  host = codes "localhost";
  tls = false;
}

serve_http-accounted_example :
    ((serve_http memory_redis local tokens proxy alone
        (λ u. bad_url)
        tarball_request
        cold).1.inflight
      ≡ 0)
    × (requests
          (serve_http memory_redis local tokens proxy alone
            (λ u. bad_url)
            tarball_request
            cold).1.metrics
        ≡ requests []
          + requested memory_redis local tokens (route proxy.router tarball_request.path))
serve_http-accounted_example =
    serve_http-accounted memory_redis local tokens proxy alone (λ u. bad_url) tarball_request cold

serve_http-AreStarted_example :
    AreStarted
      (codes "npm" ∷ [])
      (serve_http memory_redis local tokens proxy alone
        (λ u. bad_url)
        tarball_request
        cold).1.metrics
unfolding new_router to_lower AreStarted
serve_http-AreStarted_example =
    serve_http-AreStarted memory_redis local tokens (codes "npm" ∷ []) proxy alone (λ u. bad_url)
      tarball_request cold refl refl tt

-- One invocation runs `fn` for the key "k".
abbrev running_one : Group ℕ
running_one = open_call 0 (codes "k") new_group

abbrev running_one-reach : Reach running_one
running_one-reach = after_step at_start (opens new_group 0 (codes "k") refl refl)

run-once_example : ◌≡◌ {A = ℕ} 0 0
run-once_example = run-once {g = running_one} running_one-reach 0 0 (codes "k") 0 0 refl refl
