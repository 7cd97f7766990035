-- ===== src/Proxy/Retry.antt =====
-- internal/proxy/retry.go, and `doFetch` and `fetchFromUpstream` of internal/proxy/proxy.go.
-- The registry's replies, whether the request's context ends during a wait, and the jitter of the
-- delays, which the source draws in floating point, are parameters.
use cache_proxyfy.Prelude.{
  ℕ, zero, suc, ◌+◌, ◌%◌, ◌^◌, ◌-◌, Bytes, Bool, true, false, ◌||◌, Option, none, some, List, [],
  ◌∷◌, eqb, if◌then◌else◌, Result, ok, err,
}
use cache_proxyfy.Prelude.Integers.{mul64, signed_lt, positive_int, int_mod}

-- What a wrapped error of package `net/http`, `net/url` or `io` tells apart.
pub data Cause : Type 0 where
  canceled deadline_exceeded other : Cause

-- The errors of `doFetch`, where `httpStatusError` carries the status and the Retry-After duration,
-- and the `ctx.Err()` of an interrupted wait.
pub data FetchError : Type 0 where
  building : Cause → FetchError
  upstream_get : Cause → FetchError
  http_status : (code retry_after : ℕ) → FetchError
  reading : Cause → FetchError
  context_done : Cause → FetchError

-- What the registry, or the transport, does with one request: a URL that no request can be built
-- for, no response, or a response with a status, a Retry-After header (empty if absent) and a body.
pub data Reply : Type 0 where
  bad_url : Reply
  no_response : Cause → Reply
  response : ℕ → Bytes → Result Cause Bytes → Reply

abbrev pub second : ℕ
second = 1000000000

-- time.Duration(secs) * time.Second for a positive number of seconds, else 0.
abbrev pub retry_after_of : Bytes → ℕ
retry_after_of header = elim (positive_int header) [ none ↦ 0 | some secs ↦ mul64 secs second ]

abbrev read_body : Result Cause Bytes → Result FetchError Bytes
read_body (ok body) = ok body
read_body (err c) = err (reading c)

unfoldable pub do_fetch : Reply → Result FetchError Bytes
do_fetch bad_url = err (building other)
do_fetch (no_response c) = err (upstream_get c)
do_fetch (response status header body) =
    if eqb status 200
    then read_body body
    else err (http_status status (if eqb status 429 then retry_after_of header else 0))

abbrev ends_context : Cause → Bool
ends_context canceled = true
ends_context deadline_exceeded = true
ends_context other = false

unfoldable pub is_retryable : FetchError → Bool
is_retryable (building c) = if ends_context c then false else true
is_retryable (upstream_get c) = if ends_context c then false else true
is_retryable (reading c) = if ends_context c then false else true
is_retryable (context_done c) = if ends_context c then false else true
is_retryable (http_status code _) =
    eqb code 429 || eqb code 500 || eqb code 502 || eqb code 503 || eqb code 504

-- `retryConfig`; durations are int64 patterns in nanoseconds.
pub record RetryConfig : Type 0 where
  pub max_attempts : ℕ
  pub base_delay : ℕ
  pub max_delay : ℕ

abbrev pub default_retry_config : RetryConfig
default_retry_config = record { max_attempts = 3; base_delay = 100000000; max_delay = 2000000000 }

-- The Retry-After hint of an error, 0 for none.
abbrev pub hint : FetchError → ℕ
hint (http_status _ retry_after) = retry_after
hint _ = 0

-- `1 << attempt` in an int64: 0 from 64 on.
abbrev pub shift64 : ℕ → ℕ
shift64 attempt = 2 ^ attempt % int_mod

unfoldable pub retry_delay : (ℕ → ℕ) → RetryConfig → ℕ → FetchError → ℕ
retry_delay jitter cfg attempt e =
    if signed_lt 0 (hint e)
    then (if signed_lt cfg.max_delay (hint e) then cfg.max_delay else hint e)
    else (let delay = mul64 cfg.base_delay (shift64 attempt) in
        jitter (if signed_lt cfg.max_delay delay then cfg.max_delay else delay))

-- What `fetchFromUpstream` returns, the requests that it made, and its waits in order.
pub record Fetched : Type 0 where
  pub result : Result FetchError Bytes
  pub attempts : ℕ
  pub delays : List ℕ

abbrev pub waited : ℕ → Fetched → Fetched
waited delay f = record f { delays = delay ∷ f.delays }

module _ (jitter : ℕ → ℕ) (cfg : RetryConfig) (replies : ℕ → Reply) (ended : ℕ → Option Cause) where
  -- `return nil, lastErr`, which is no error if no attempt was made.
  abbrev give_up : ℕ → Option FetchError → Fetched
  give_up made none = record { result = ok []; attempts = made; delays = [] }
  give_up made (some e) = record { result = err e; attempts = made; delays = [] }

  -- One failed attempt with number `attempt`; `again` is the rest of the loop. `ended` tells
  -- whether the context is done before the delay of that attempt is over.
  unfoldable pub after_failure : ℕ → FetchError → Fetched → Fetched
  after_failure attempt e again =
      if eqb attempt (cfg.max_attempts - 1) || (if is_retryable e then false else true)
      then record { result = err e; attempts = attempt + 1; delays = [] }
      else waited (retry_delay jitter cfg attempt e) (elim (ended attempt) [
        | some c ↦ record { result = err (context_done c); attempts = attempt + 1; delays = [] }
        | none ↦ again
      ])

  -- The loop with `left` rounds to go, from attempt number `attempt` on.
  unfoldable pub fetch_loop : ℕ → ℕ → Option FetchError → Fetched
  fetch_loop zero attempt last = give_up attempt last
  fetch_loop (suc left) attempt last = elim (do_fetch (replies attempt)) [
    | ok body ↦ record { result = ok body; attempts = attempt + 1; delays = [] }
    | err e ↦ after_failure attempt e (fetch_loop left (attempt + 1) (some e))
  ]

  unfoldable pub fetch_from_upstream : Fetched
  fetch_from_upstream = fetch_loop cfg.max_attempts 0 none
